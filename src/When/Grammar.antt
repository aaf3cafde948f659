-- ===== src/When/Grammar.antt =====
-- The nested productions, and the whole parser of when.go: `parseExpr`, `parseAnd`, `parseNot`,
-- `parsePrimary` and `ParseWhen`.
use fluxrig.Prelude.{
  ℕ, zero, suc, ◌≤◌, ◌≡◌, refl, ap, ◌∙◌, ◌++◌, Bytes, arith, inl, inr, if_both, Option-cases,
}
use fluxrig.When.{Node, or_node, and_node, not_node, WhenExpr, reads}
use fluxrig.When.Lexer.{eof, and_op, or_op, not_op, left, right, Parser, next}
use fluxrig.When.Parser.{
  Result, ok, error, no_fuel, pure, at_kind, parse_condition, closing, parse_expr, parse_and,
  parse_not, parse_primary, max_levels, at_start, finish, parse_when,
}
use fluxrig.When.Advance.{measure-next_le, refs-next, next-IsFine}
use fluxrig.When.Shape.{IsCondition, height}
use fluxrig.When.Readings.{Ensures, error_at-Ensures, Ensures-bind, Reading, Condition}
use fluxrig.When.Conditions.{parse_condition-Condition, parse_many-Condition}

-- A condition that was read behind one token, as one that was read from it on.
behind_token :
    (b : ℕ) (p : Parser) (n : Node) (q : Parser) → Condition b (next p) n q → Reading p n q
behind_token b p n q c = record {
  shorter = omega (arith, c.reading.shorter, measure-next_le p);
  recorded = c.reading.recorded ∙ ap (λ x. x ++ reads n) (refs-next p);
  fine = c.reading.fine;
}

weaker :
    (a b : ℕ) (p : Parser)
    → a ≤ b
    → (r : Result (Node × Parser)) → Ensures (Condition a p) r
    → Ensures (Condition b p) r
weaker a b p h (ok r) c = record {
  reading = c.reading;
  is_condition = c.is_condition;
  low = omega (arith, c.low);
}
weaker a b p h (error at) c = tt
weaker a b p h no_fuel c = absurd c

closing-Condition :
    (b : ℕ) (p : Parser) (n : Node) (q : Parser)
    → Condition b (next p) n q
    → Ensures (Condition b p) (closing n q)
unfolding closing
closing-Condition b p n q c =
    if_both (Ensures (Condition b p)) (at_kind right q)
      (λ h. record {
        reading = record {
          shorter = omega (arith, c.reading.shorter, measure-next_le p, measure-next_le q);
          recorded = refs-next q ∙ c.reading.recorded ∙ ap (λ x. x ++ reads n) (refs-next p);
          fine = next-IsFine q;
        };
        is_condition = c.is_condition;
        low = c.low;
      })
      (λ h. error_at-Ensures (Condition b p) q.tok.pos q)

negated-Condition :
    (b : ℕ) (p : Parser) (n : Node) (q : Parser)
    → Condition b (next p) n q
    → Ensures (Condition (suc b) p) (pure (not_node n) q)
unfolding reads
negated-Condition b p n q c = record {
  reading = record {
    shorter = (behind_token b p n q c).shorter;
    recorded = (behind_token b p n q c).recorded;
    fine = c.reading.fine;
  };
  is_condition = c.is_condition;
  low = omega (arith, c.low);
}

mutual
  unfolding parse_expr reads

  pub parse_expr-Condition :
      (levels : ℕ) (p : Parser) → Ensures (Condition levels p) (parse_expr levels p)
  parse_expr-Condition zero p = error_at-Ensures (Condition 0 p) p.tok.pos p
  parse_expr-Condition (suc levels) p =
      parse_many-Condition or_op refl (parse_and levels) levels (parse_and-Condition levels) or_node
        (λ ns. refl) (λ ns h. h) (λ ns. omega arith) p

  parse_and-Condition :
      (levels : ℕ) (p : Parser) → Ensures (Condition levels p) (parse_and levels p)
  parse_and-Condition zero p = error_at-Ensures (Condition 0 p) p.tok.pos p
  parse_and-Condition (suc levels) p =
      parse_many-Condition and_op refl (parse_not levels) levels (parse_not-Condition levels)
        and_node (λ ns. refl) (λ ns h. h) (λ ns. omega arith) p

  parse_not-Condition :
      (levels : ℕ) (p : Parser) → Ensures (Condition levels p) (parse_not levels p)
  parse_not-Condition zero p = error_at-Ensures (Condition 0 p) p.tok.pos p
  parse_not-Condition (suc levels) p =
      if_both (Ensures (Condition (suc levels) p)) (at_kind not_op p)
        (λ h.
          Ensures-bind (Condition levels (next p)) (Condition (suc levels) p) (parse_not levels)
            (λ n. pure (not_node n)) (next p) (parse_not-Condition levels (next p))
            (negated-Condition levels p))
        (λ h. parse_primary-Condition levels p)

  parse_primary-Condition :
      (levels : ℕ) (p : Parser) → Ensures (Condition (suc levels) p) (parse_primary levels p)
  parse_primary-Condition zero p = error_at-Ensures (Condition 1 p) p.tok.pos p
  parse_primary-Condition (suc levels) p =
      if_both (Ensures (Condition (suc (suc levels)) p)) (at_kind left p)
        (λ h.
          Ensures-bind (Condition levels (next p)) (Condition (suc (suc levels)) p)
            (parse_expr levels) closing (next p) (parse_expr-Condition levels (next p))
            λ n q c.
              weaker levels (suc (suc levels)) p (omega arith) (closing n q)
                (closing-Condition levels p n q c))
        (λ h.
          weaker 2 (suc (suc levels)) p (omega arith) (parse_condition p)
            (parse_condition-Condition p))

-- What the parser promises of an expression.
pub record Parsed (e : WhenExpr) : Type 0 where
  pub is_condition : IsCondition e.root
  pub recorded : e.refs ≡ reads e.root
  pub low : height e.root ≤ 33

abbrev pub Whole : Result WhenExpr → Type 0
Whole (ok e) = Parsed e
Whole (error at) = Unit
Whole no_fuel = ⊥

pub parse_when-Whole : (src : Bytes) → Whole (parse_when src)
unfolding parse_when
parse_when-Whole src = step (parse_expr max_levels p) (parse_expr-Condition max_levels p)
  where
    p : Parser
    p = next (at_start src)

    ended : (n : Node) (q : Parser) → Condition 33 p n q → Whole (finish n q)
    ended n q c = elim (Option-cases q.err) [
      | inr (at, e) ↦ rw (finish, e) tt
      | inl e ↦
          rw (finish, e)
            (if_both Whole (at_kind eof q)
              (λ h. record {
                is_condition = c.is_condition;
                recorded = c.reading.recorded ∙ ap (λ x. x ++ reads n) (refs-next (at_start src));
                low = c.low;
              })
              (λ h. tt))
    ]

    step :
        (r : Result (Node × Parser))
        → Ensures (Condition 33 p) r
        → Whole (elim r [ ok s ↦ finish s.0 s.1 | error at ↦ error at | no_fuel ↦ no_fuel ])
    step (ok r) c = ended r.0 r.1 c
    step (error at) c = tt
    step no_fuel c = absurd c
