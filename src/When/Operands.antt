-- ===== src/When/Operands.antt =====
-- The productions below a condition: calls, operands and comparisons.
use fluxrig.Prelude.{
  ◌≤◌, ◌≡◌, refl, sym, ap, ◌∙◌, Bool, true, false, ◌||◌, [], ◌∷◌, ◌++◌, append_assoc, Bytes, arith,
  inl, inr, Bool-cases, if_both, Option-cases, if◌then◌else◌,
}
use fluxrig.When.{
  FieldRef, bool_value, str_value, Node, cmp_node, field_node, present_node, mti_node, lit_node,
  reads,
}
use fluxrig.When.Lexer.{
  Kind, eof, ident, string, number, op, and_op, or_op, not_op, left, right, Parser, next,
}
use fluxrig.When.Parser.{
  Result, ok, error, no_fuel, is_kind, at_kind, is_word, parse_path, close_call, call_path,
  open_call, parse_call, name_operand, operand_of, parse_operand, unquote, compare_with,
}
use fluxrig.When.Advance.{measure, IsFine, measure-next_le, refs-next, next-IsFine}
use fluxrig.When.Shape.{IsOperand, IsCondition, height-IsOperand}
use fluxrig.When.Readings.{
  Ensures, error_at-Ensures, Reading, Operand, Condition, consumes, leaf-Reading, Ensures-weaken,
}

-- A call of `present` or `field`, from its name on or from behind it.
record Called (presence : Bool) (ref : FieldRef) (p : Parser) (n : Node) (q : Parser) : Type 0 where
  no_longer : measure q ≤ measure p
  kept : q.refs ≡ p.refs
  fine : IsFine q
  about : reads n ≡ ref ∷ []
  is_operand : IsOperand n
  is_condition : presence ≡ true → IsCondition n

close_call-Called :
    (presence : Bool) (ref : FieldRef) (p : Parser)
    → Ensures (Called presence ref p) (close_call presence ref p)
unfolding close_call reads
close_call-Called presence ref p = elim (Bool-cases (at_kind right p)) [
  | inr e ↦ rw e (error_at-Ensures (Called presence ref p) p.tok.pos p)
  | inl e ↦ rw e (made presence)
]
  where
    made :
        (b : Bool) → Called b ref p (if b then present_node ref else field_node ref false) (next p)
    made true = record {
      no_longer = measure-next_le p;
      kept = refs-next p;
      fine = next-IsFine p;
      about = refl;
      is_operand = tt;
      is_condition = λ h. tt;
    }
    made false = record {
      no_longer = measure-next_le p;
      kept = refs-next p;
      fine = next-IsFine p;
      about = refl;
      is_operand = tt;
      is_condition = λ h. cc;
    }

-- What a call leaves, from before its parenthesis.
pub record Call (presence : Bool) (p : Parser) (n : Node) (q : Parser) : Type 0 where
  pub no_longer : measure q ≤ measure p
  pub recorded : q.refs ≡ p.refs ++ reads n
  pub fine : IsFine q
  pub is_operand : IsOperand n
  pub is_condition : presence ≡ true → IsCondition n

call_path-Call : (presence : Bool) (p : Parser) → Ensures (Call presence p) (call_path presence p)
unfolding call_path
call_path-Call presence p = elim (Bool-cases (at_kind ident p || at_kind number p)) [
  | inr e ↦ rw e (error_at-Ensures (Call presence p) p.tok.pos p)
  | inl e ↦ elim (Option-cases (parse_path p.tok.text p.tok.pos)) [
    | inl n ↦ rw (e, n) (error_at-Ensures (Call presence p) p.tok.pos p)
    | inr (ref, r) ↦
        let p' : Parser = record p { refs = p.refs ++ (ref ∷ []) } in
        rw (e, r)
          (Ensures-weaken (Called presence ref (next p')) (Call presence p)
            (close_call presence ref (next p')) (close_call-Called presence ref (next p'))
            λ n q c. record {
              no_longer = omega (arith, c.no_longer, measure-next_le p');
              recorded = c.kept ∙ refs-next p' ∙ sym (ap (λ x. p.refs ++ x) c.about);
              fine = c.fine;
              is_operand = c.is_operand;
              is_condition = c.is_condition;
            })
  ]
]

open_call-Call : (presence : Bool) (p : Parser) → Ensures (Call presence p) (open_call presence p)
unfolding open_call
open_call-Call presence p = elim (Bool-cases (at_kind left p)) [
  | inr e ↦ rw e (error_at-Ensures (Call presence p) p.tok.pos p)
  | inl e ↦ rw e (
      Ensures-weaken (Call presence (next p)) (Call presence p) (call_path presence (next p))
        (call_path-Call presence (next p))
        λ n q c. record {
          no_longer = omega (arith, c.no_longer, measure-next_le p);
          recorded = c.recorded ∙ ap (λ x. x ++ reads n) (refs-next p);
          fine = c.fine;
          is_operand = c.is_operand;
          is_condition = c.is_condition;
        })
]

-- A call, from its name on.
pub record Named (presence : Bool) (p : Parser) (n : Node) (q : Parser) : Type 0 where
  pub reading : Reading p n q
  pub is_operand : IsOperand n
  pub is_condition : presence ≡ true → IsCondition n

pub parse_call-Named :
    (presence : Bool) (p : Parser)
    → at_kind ident p ≡ true
    → Ensures (Named presence p) (parse_call presence p)
unfolding parse_call
parse_call-Named presence p h =
    Ensures-weaken (Call presence (next p)) (Named presence p) (open_call presence (next p))
      (open_call-Call presence (next p))
      λ n q c. record {
        reading = record {
          shorter = omega (arith, c.no_longer, consumes ident p refl h);
          recorded = c.recorded ∙ ap (λ x. x ++ reads n) (refs-next p);
          fine = c.fine;
        };
        is_operand = c.is_operand;
        is_condition = c.is_condition;
      }

token-Operand :
    (k : Kind) (p : Parser) (n : Node)
    → is_kind k eof ≡ false
    → at_kind k p ≡ true
    → reads n ≡ []
    → IsOperand n
    → Operand p n (next p)
token-Operand k p n e h r o = record { reading = leaf-Reading k p n e h r; is_operand = o }

name_operand-Operand :
    (text : Bytes) (p : Parser) → at_kind ident p ≡ true → Ensures (Operand p) (name_operand text p)
unfolding name_operand reads
name_operand-Operand text p h =
    if_both E (is_word "field" text) (λ a. called false)
      λ a.
        if_both E (is_word "present" text) (λ b. called true)
          λ b.
            if_both E (is_word "mti" text) (λ c. token-Operand ident p mti_node refl h refl tt)
              λ c.
                if_both E (is_word "true" text || is_word "false" text)
                  (λ d.
                    token-Operand ident p (lit_node (bool_value (is_word "true" text))) refl h refl
                      tt)
                  (λ d. error_at-Ensures (Operand p) p.tok.pos p)
  where
    E : Result (Node × Parser) → Type 0
    E = Ensures (Operand p)

    called : (b : Bool) → Ensures (Operand p) (parse_call b p)
    called b =
        Ensures-weaken (Named b p) (Operand p) (parse_call b p) (parse_call-Named b p h)
          λ n q c. record { reading = c.reading; is_operand = c.is_operand }

operand_of-Operand :
    (k : Kind) (p : Parser) → at_kind k p ≡ true → Ensures (Operand p) (operand_of k p)
unfolding operand_of reads
operand_of-Operand ident p h = name_operand-Operand p.tok.text p h
operand_of-Operand string p h =
    token-Operand string p (lit_node (str_value (unquote p.tok.text))) refl h refl tt
operand_of-Operand number p h =
    token-Operand number p (lit_node (str_value (unquote p.tok.text))) refl h refl tt
operand_of-Operand eof p h = error_at-Ensures (Operand p) p.tok.pos p
operand_of-Operand op p h = error_at-Ensures (Operand p) p.tok.pos p
operand_of-Operand and_op p h = error_at-Ensures (Operand p) p.tok.pos p
operand_of-Operand or_op p h = error_at-Ensures (Operand p) p.tok.pos p
operand_of-Operand not_op p h = error_at-Ensures (Operand p) p.tok.pos p
operand_of-Operand left p h = error_at-Ensures (Operand p) p.tok.pos p
operand_of-Operand right p h = error_at-Ensures (Operand p) p.tok.pos p

is_kind_refl : (k : Kind) → is_kind k k ≡ true
is_kind_refl eof = refl
is_kind_refl ident = refl
is_kind_refl string = refl
is_kind_refl number = refl
is_kind_refl op = refl
is_kind_refl and_op = refl
is_kind_refl or_op = refl
is_kind_refl not_op = refl
is_kind_refl left = refl
is_kind_refl right = refl

pub parse_operand-Operand : (p : Parser) → Ensures (Operand p) (parse_operand p)
unfolding parse_operand
parse_operand-Operand p = operand_of-Operand p.tok.kind p (is_kind_refl p.tok.kind)

-- A comparison, from its operator on, given the left side that was read before it.
pub compare_with-Condition :
    (p0 : Parser) (lhs : Node) (p : Parser)
    → Operand p0 lhs p
    → at_kind op p ≡ true
    → Ensures (Condition 2 p0) (compare_with lhs p)
unfolding compare_with reads
compare_with-Condition p0 lhs p o h = step (parse_operand (next p)) (parse_operand-Operand (next p))
  where
    step :
        (r : Result (Node × Parser))
        → Ensures (Operand (next p)) r
        → Ensures (Condition 2 p0) (elim r [
          | ok s ↦ ok (cmp_node lhs p.tok.text s.0, s.1)
          | error at ↦ error at
          | no_fuel ↦ no_fuel
        ])
    step (ok (rhs, q)) r = record {
      reading = record {
        shorter = omega (arith, o.reading.shorter, r.reading.shorter, consumes op p refl h);
        recorded =
            r.reading.recorded
            ∙ ap (λ x. x ++ reads rhs) (refs-next p ∙ o.reading.recorded)
            ∙ append_assoc p0.refs (reads lhs) (reads rhs);
        fine = r.reading.fine;
      };
      is_condition = (o.is_operand, o.reading.fine h, r.is_operand);
      low = omega (arith, height-IsOperand lhs o.is_operand, height-IsOperand rhs r.is_operand);
    }
    step (error at) r = tt
    step no_fuel r = absurd r
