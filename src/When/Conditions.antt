-- ===== src/When/Conditions.antt =====
-- The productions of conditions, and the whole parser.
use fluxrig.Prelude.{
  ℕ, zero, suc, ◌≤◌, ◌<◌, ◌≡◌, refl, sym, ap, ◌∙◌, true, false, ◌&&◌, ◌||◌, ◌++◌, append-nil,
  append_assoc, arith, inl, inr, Bool-cases, if_both,
}
use fluxrig.When.{bool_value, Node, Nodes, lit_node, nil, cons, snoc, reads, reads_all}
use fluxrig.When.Lexer.{Kind, eof, ident, op, Parser, next}
use fluxrig.When.Parser.{
  Result, ok, error, no_fuel, Parse, is_kind, at_kind, is_word, parse_call, parse_operand,
  condition_or_compare, must_compare, parse_condition, single, more, rounds, parse_many,
}
use fluxrig.When.Advance.{measure, IsFine, refs-next, measure-le-rounds}
use fluxrig.When.Shape.{
  IsCondition, AllConditions, height, height_all, height-IsOperand, AllConditions-snoc, height-snoc,
  reads-snoc,
}
use fluxrig.When.Readings.{
  Ensures, error_at-Ensures, Ensures-bind, Operand, Condition, consumes, leaf-Reading,
}
use fluxrig.When.Operands.{Named, parse_call-Named, parse_operand-Operand, compare_with-Condition}

-- A condition of low height fits a larger bound, from an earlier state.
condition_or_compare-Condition :
    (p0 : Parser) (lhs : Node) (p : Parser)
    → Operand p0 lhs p
    → IsCondition lhs
    → Ensures (Condition 2 p0) (condition_or_compare lhs p)
unfolding condition_or_compare
condition_or_compare-Condition p0 lhs p o c = elim (Bool-cases (at_kind op p)) [
  | inl e ↦ rw e (compare_with-Condition p0 lhs p o e)
  | inr e ↦ rw e (record {
    reading = o.reading;
    is_condition = c;
    low = omega (arith, height-IsOperand lhs o.is_operand);
  })
]

must_compare-Condition :
    (p0 : Parser) (start : ℕ) (lhs : Node) (p : Parser)
    → Operand p0 lhs p
    → Ensures (Condition 2 p0) (must_compare start lhs p)
unfolding must_compare
must_compare-Condition p0 start lhs p o = elim (Bool-cases (at_kind op p)) [
  | inl e ↦ rw e (compare_with-Condition p0 lhs p o e)
  | inr e ↦ rw e (error_at-Ensures (Condition 2 p0) start p)
]

pub parse_condition-Condition : (p : Parser) → Ensures (Condition 2 p) (parse_condition p)
unfolding parse_condition reads
parse_condition-Condition p =
    if_both E (at_kind ident p && is_word "present" p.tok.text)
      (λ a.
        Ensures-bind (Named true p) (Condition 2 p) (parse_call true) condition_or_compare p
          (parse_call-Named true p (ground arith))
          λ n q c.
            condition_or_compare-Condition p n q
              (record { reading = c.reading; is_operand = c.is_operand }) (c.is_condition refl))
      λ a.
        if_both E (at_kind ident p && (is_word "true" p.tok.text || is_word "false" p.tok.text))
          (λ b.
            let lit : Node = lit_node (bool_value (is_word "true" p.tok.text)) in
            condition_or_compare-Condition p lit (next p)
              (record {
                reading = leaf-Reading ident p lit refl (ground arith) refl;
                is_operand = tt;
              })
              refl)
          (λ b.
            Ensures-bind (Operand p) (Condition 2 p) parse_operand (must_compare p.tok.pos) p
              (parse_operand-Operand p) λ n q c. must_compare-Condition p p.tok.pos n q c)
  where
    E : Result (Node × Parser) → Type 0
    E = Ensures (Condition 2 p)

-- The nodes of a loop, from its first one on.
record Conditions (bound : ℕ) (p : Parser) (ns : Nodes) (q : Parser) : Type 0 where
  shorter : measure q < measure p
  recorded : q.refs ≡ p.refs ++ reads_all ns
  fine : IsFine q
  all : AllConditions ns
  low : height_all ns ≤ bound

module _ (k : Kind) (sep : is_kind k eof ≡ false) (parse : Parse Node) (bound : ℕ)
    (each : (p : Parser) → Ensures (Condition bound p) (parse p)) where
  more-Conditions :
      (fuel : ℕ) (p0 : Parser) (ns : Nodes) (p : Parser)
      → measure p < fuel
      → Conditions bound p0 ns p
      → Ensures (Conditions bound p0) (more fuel k parse ns p)
  unfolding more
  more-Conditions zero p0 ns p h v = absurd (omega arith)
  more-Conditions (suc fuel) p0 ns p h v = elim (Bool-cases (at_kind k p)) [
    | inr e ↦ rw e v
    | inl e ↦ rw e (
        step (parse (next p)) (each (next p)) (λ n q c.
          more-Conditions fuel p0 (snoc ns n) q (within e q c.reading.shorter) (joined e n q c)))
  ]
    where
      step :
          (r : Result (Node × Parser))
          → Ensures (Condition bound (next p)) r
          → ((n : Node) (q : Parser)
              → Condition bound (next p) n q
              → Ensures (Conditions bound p0) (more fuel k parse (snoc ns n) q))
          → Ensures (Conditions bound p0) (elim r [
            | ok s ↦ more fuel k parse (snoc ns s.0) s.1
            | error at ↦ error at
            | no_fuel ↦ no_fuel
          ])
      step (ok (n, q)) c rest = rest n q c
      step (error at) c rest = tt
      step no_fuel c rest = absurd c

      within : at_kind k p ≡ true → (q : Parser) → measure q < measure (next p) → measure q < fuel
      within e q s = omega (arith, consumes k p sep e)

      joined :
          at_kind k p ≡ true
          → (n : Node) (q : Parser) → Condition bound (next p) n q
          → Conditions bound p0 (snoc ns n) q
      joined e n q c = record {
        shorter = omega (arith, v.shorter, c.reading.shorter, consumes k p sep e);
        recorded =
            c.reading.recorded
            ∙ ap (λ x. x ++ reads n) (refs-next p ∙ v.recorded)
            ∙ append_assoc p0.refs (reads_all ns) (reads n)
            ∙ ap (λ x. p0.refs ++ x) (sym (reads-snoc ns n));
        fine = c.reading.fine;
        all = AllConditions-snoc ns n v.all c.is_condition;
        low = height-snoc ns n bound v.low c.low;
      }

  pub parse_many-Condition :
      (many : Nodes → Node)
      → ((ns : Nodes) → reads (many ns) ≡ reads_all ns)
      → ((ns : Nodes) → AllConditions ns → IsCondition (many ns))
      → ((ns : Nodes) → height (many ns) ≤ suc (height_all ns))
      → (p : Parser) → Ensures (Condition (suc bound) p) (parse_many many k parse p)
  unfolding parse_many reads
  parse_many-Condition many same whole tall p = first (parse p) (each p)
    where
      one :
          (ns : Nodes) (q : Parser)
          → Conditions bound p ns q
          → Condition (suc bound) p (single many ns) q
      one ns q c = record {
        reading = record {
          shorter = c.shorter;
          recorded = c.recorded ∙ ap (λ x. p.refs ++ x) (sym (reads-single ns));
          fine = c.fine;
        };
        is_condition = single-IsCondition ns c.all;
        low = omega (arith, height-single ns, c.low);
      }
        where
          reads-single : (ns : Nodes) → reads (single many ns) ≡ reads_all ns
          reads-single nil = same nil
          reads-single (cons n nil) = sym (append-nil (reads n))
          reads-single (cons n (cons m ns)) = same (cons n (cons m ns))

          single-IsCondition : (ns : Nodes) → AllConditions ns → IsCondition (single many ns)
          single-IsCondition nil h = whole nil h
          single-IsCondition (cons n nil) h = h.0
          single-IsCondition (cons n (cons m ns)) h = whole (cons n (cons m ns)) h

          height-single : (ns : Nodes) → height (single many ns) ≤ suc (height_all ns)
          height-single nil = tall nil
          height-single (cons n nil) = omega arith
          height-single (cons n (cons m ns)) = tall (cons n (cons m ns))

      rest :
          (r : Result (Nodes × Parser))
          → Ensures (Conditions bound p) r
          → Ensures (Condition (suc bound) p) (elim r [
            | ok q ↦ ok (single many q.0, q.1)
            | error at ↦ error at
            | no_fuel ↦ no_fuel
          ])
      rest (ok (ns, q)) c = one ns q c
      rest (error at) c = tt
      rest no_fuel c = absurd c

      first :
          (r : Result (Node × Parser))
          → Ensures (Condition bound p) r
          → Ensures (Condition (suc bound) p) (elim r [
            | error at ↦ error at
            | no_fuel ↦ no_fuel
            | ok s ↦ elim (more (rounds s.1) k parse (cons s.0 nil) s.1) [
              | ok q ↦ ok (single many q.0, q.1)
              | error at ↦ error at
              | no_fuel ↦ no_fuel
            ]
          ])
      first (error at) c = tt
      first no_fuel c = absurd c
      first (ok (n, q)) c = rest (more (rounds q) k parse (cons n nil) q) (
          more-Conditions (rounds q) p (cons n nil) q (measure-le-rounds q) (record {
            shorter = c.reading.shorter;
            recorded = c.reading.recorded ∙ ap (λ x. p.refs ++ x) (sym (append-nil (reads n)));
            fine = c.reading.fine;
            all = (c.is_condition, tt);
            low = omega (arith, c.low);
          }))
