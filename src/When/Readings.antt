-- ===== src/When/Readings.antt =====
-- What a production of the parser ensures: it does not run out of fuel, it consumes something, and it
-- records the references of what it read.
use fluxrig.Prelude.{
  ℕ, ◌≤◌, ◌<◌, ◌≡◌, refl, sym, ap, ◌∙◌, true, false, [], ◌++◌, append-nil, inl, inr, Option-cases,
}
use fluxrig.When.{Node, reads}
use fluxrig.When.Lexer.{
  Kind, eof, ident, string, number, op, and_op, or_op, not_op, left, right, Parser, next,
}
use fluxrig.When.Parser.{Result, ok, error, no_fuel, Parse, error_at, ◌>>=◌, is_kind, at_kind}
use fluxrig.When.Advance.{measure, IsFine, measure-next, refs-next, next-IsFine}
use fluxrig.When.Shape.{IsOperand, IsCondition, height}

-- What a parse ensures of its value and the state behind; it does not run out of fuel.
abbrev pub Ensures {ℓ} : {A : Type ℓ} → (A → Parser → Type 0) → Result (A × Parser) → Type 0
Ensures P (ok r) = P r.0 r.1
Ensures P (error at) = Unit
Ensures P no_fuel = ⊥

pub error_at-Ensures {ℓ} :
    {A : Type ℓ} (P : A → Parser → Type 0) (at : ℕ) (p : Parser) → Ensures P (error_at at p)
error_at-Ensures P at p = elim (Option-cases p.err) [ inl e ↦ rw e tt | inr (x, e) ↦ rw e tt ]

pub Ensures-bind {ℓ κ} :
    {A : Type ℓ} {B : Type κ} (P : A → Parser → Type 0) (Q : B → Parser → Type 0) (m : Parse A)
    (f : A → Parse B) (p : Parser)
    → Ensures P (m p)
    → ((a : A) (q : Parser) → P a q → Ensures Q (f a q))
    → Ensures Q ((m >>= f) p)
Ensures-bind {A} P Q m f p h k = step (m p) h
  where
    step :
        (r : Result (A × Parser))
        → Ensures P r
        → Ensures Q (elim r [ ok s ↦ f s.0 s.1 | error at ↦ error at | no_fuel ↦ no_fuel ])
    step (ok r) h = k r.0 r.1 h
    step (error at) h = tt
    step no_fuel h = absurd h

-- A node was read from one state to the other: something is consumed, and the references of the
-- expression are those of the nodes.
pub record Reading (p : Parser) (n : Node) (q : Parser) : Type 0 where
  pub shorter : measure q < measure p
  pub recorded : q.refs ≡ p.refs ++ reads n
  pub fine : IsFine q

-- An operand; a call of `present` is a condition too.
pub record Operand (p : Parser) (n : Node) (q : Parser) : Type 0 where
  pub reading : Reading p n q
  pub is_operand : IsOperand n

-- A condition that is no deeper than a bound.
pub record Condition (bound : ℕ) (p : Parser) (n : Node) (q : Parser) : Type 0 where
  pub reading : Reading p n q
  pub is_condition : IsCondition n
  pub low : height n ≤ bound

-- Some other token than the end stands here.
pub not_end : (t k : Kind) → is_kind t k ≡ true → is_kind k eof ≡ false → is_kind t eof ≡ false
not_end eof eof h k = cc
not_end eof ident h k = cc
not_end eof string h k = cc
not_end eof number h k = cc
not_end eof op h k = cc
not_end eof and_op h k = cc
not_end eof or_op h k = cc
not_end eof not_op h k = cc
not_end eof left h k = cc
not_end eof right h k = cc
not_end ident k h e = refl
not_end string k h e = refl
not_end number k h e = refl
not_end op k h e = refl
not_end and_op k h e = refl
not_end or_op k h e = refl
not_end not_op k h e = refl
not_end left k h e = refl
not_end right k h e = refl

-- What `next` does behind a token of a kind.
pub consumes :
    (k : Kind) (p : Parser)
    → is_kind k eof ≡ false
    → at_kind k p ≡ true
    → measure (next p) < measure p
consumes k p e h = measure-next p (not_end p.tok.kind k h e)

-- A node for one token.
pub leaf-Reading :
    (k : Kind) (p : Parser) (n : Node)
    → is_kind k eof ≡ false
    → at_kind k p ≡ true
    → reads n ≡ []
    → Reading p n (next p)
leaf-Reading k p n e h r = record {
  shorter = consumes k p e h;
  recorded = refs-next p ∙ sym (ap (λ x. p.refs ++ x) r ∙ append-nil p.refs);
  fine = next-IsFine p;
}

pub Ensures-weaken {ℓ} :
    {A : Type ℓ} (P Q : A → Parser → Type 0) (r : Result (A × Parser))
    → Ensures P r
    → ((a : A) (q : Parser) → P a q → Ensures Q (ok (a, q)))
    → Ensures Q r
Ensures-weaken P Q (ok r) h k = k r.0 r.1 h
Ensures-weaken P Q (error at) h k = tt
Ensures-weaken P Q no_fuel h k = absurd h
