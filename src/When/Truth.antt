-- ===== src/When/Truth.antt =====
-- A reading of expressions as propositions, beside the evaluator of eval.go, and how a comparison
-- fares on what a message does not carry.
use fluxrig.Prelude.{
  ◌≡◌, ◌↔◌, refl, Bool, true, not, ◌&&◌, ◌||◌, Option, some, Bytes, codes, inl, inr, ◌⊎◌,
  Bool-cases, Option-cases, equal, arith,
}
use fluxrig.When.{
  FieldRef, Node, Nodes, or_node, and_node, not_node, cmp_node, field_node, present_node, mti_node,
  lit_node, nil, cons, WhenExpr,
}
use fluxrig.When.Parser.{ok, parse_when}
use fluxrig.When.Eval.{Subject, truth, bind, compare_values, eval, some_holds, all_hold, holds}
use fluxrig.When.Shape.{IsCondition, AllConditions}
use fluxrig.When.Meaning.{bind-IsCondition}

module _ {Number : Type 0} (read : Bytes → Option Number) (lt le eq : Number → Number → Bool) where
  -- What a condition says of a message. A comparison and a literal say what the evaluator finds.
  abbrev mutual
    pub Satisfies : Subject → Node → Type 0
    Satisfies m (or_node cs) = SatisfiesSome m cs
    Satisfies m (and_node cs) = SatisfiesAll m cs
    Satisfies m (not_node n) = Satisfies m n → ⊥
    Satisfies m (cmp_node l op r) =
        compare_values read lt le eq op (eval read lt le eq m l) (eval read lt le eq m r) ≡ true
    Satisfies m (field_node ref numeric) = ⊥
    Satisfies m (present_node ref) = (s : Bytes) × (m.field ref.de ref.subs ≡ some s)
    Satisfies m mti_node = ⊥
    Satisfies m (lit_node v) = v.b ≡ true

    pub SatisfiesSome : Subject → Nodes → Type 0
    SatisfiesSome m nil = ⊥
    SatisfiesSome m (cons c cs) = Satisfies m c ⊎ SatisfiesSome m cs

    pub SatisfiesAll : Subject → Nodes → Type 0
    SatisfiesAll m nil = Unit
    SatisfiesAll m (cons c cs) = Satisfies m c × SatisfiesAll m cs

  module _ (m : Subject) where
    mutual
      unfolding eval truth

      Satisfies-truth :
          (n : Node) → IsCondition n → truth (eval read lt le eq m n) ≡ true → Satisfies m n
      Satisfies-truth (or_node cs) h t = SatisfiesSome-some_holds cs h t
      Satisfies-truth (and_node cs) h t = SatisfiesAll-all_hold cs h t
      Satisfies-truth (not_node n) h t = λ s. let u = truth-Satisfies n h s in ground arith
      Satisfies-truth (cmp_node l op r) h t = t
      Satisfies-truth (field_node ref numeric) h t = absurd h
      Satisfies-truth (present_node ref) h t = elim (Option-cases (m.field ref.de ref.subs)) [
        | inl e ↦ ground arith
        | inr (s, e) ↦ (s, e)
      ]
      Satisfies-truth mti_node h t = absurd h
      Satisfies-truth (lit_node v) h t = ground arith

      truth-Satisfies :
          (n : Node) → IsCondition n → Satisfies m n → truth (eval read lt le eq m n) ≡ true
      truth-Satisfies (or_node cs) h s = some_holds-SatisfiesSome cs h s
      truth-Satisfies (and_node cs) h s = all_hold-SatisfiesAll cs h s
      truth-Satisfies (not_node n) h s = elim (Bool-cases (truth (eval read lt le eq m n))) [
        | inl e ↦ absurd (s (Satisfies-truth n h e))
        | inr e ↦ rw e refl
      ]
      truth-Satisfies (cmp_node l op r) h s = s
      truth-Satisfies (field_node ref numeric) h s = absurd s
      truth-Satisfies (present_node ref) h s = rw (s.1) refl
      truth-Satisfies mti_node h s = absurd s
      truth-Satisfies (lit_node v) h s = rw (h, s) refl

      SatisfiesSome-some_holds :
          (cs : Nodes)
          → AllConditions cs
          → some_holds read lt le eq m cs ≡ true
          → SatisfiesSome m cs
      SatisfiesSome-some_holds nil h t = cc
      SatisfiesSome-some_holds (cons c cs) h t =
          elim (Bool-cases (truth (eval read lt le eq m c))) [
            | inl e ↦ inl (Satisfies-truth c h.0 e)
            | inr e ↦ inr (SatisfiesSome-some_holds cs h.1 (ground arith))
          ]

      some_holds-SatisfiesSome :
          (cs : Nodes)
          → AllConditions cs
          → SatisfiesSome m cs
          → some_holds read lt le eq m cs ≡ true
      some_holds-SatisfiesSome nil h s = absurd s
      some_holds-SatisfiesSome (cons c cs) h (inl s) = rw (truth-Satisfies c h.0 s) refl
      some_holds-SatisfiesSome (cons c cs) h (inr s) =
          let u = some_holds-SatisfiesSome cs h.1 s in ground arith

      SatisfiesAll-all_hold :
          (cs : Nodes) → AllConditions cs → all_hold read lt le eq m cs ≡ true → SatisfiesAll m cs
      SatisfiesAll-all_hold nil h t = tt
      SatisfiesAll-all_hold (cons c cs) h t = elim (Bool-cases (truth (eval read lt le eq m c))) [
        | inl e ↦ (Satisfies-truth c h.0 e, SatisfiesAll-all_hold cs h.1 (ground arith))
        | inr e ↦ ground arith
      ]

      all_hold-SatisfiesAll :
          (cs : Nodes) → AllConditions cs → SatisfiesAll m cs → all_hold read lt le eq m cs ≡ true
      all_hold-SatisfiesAll nil h s = refl
      all_hold-SatisfiesAll (cons c cs) h s =
          rw (truth-Satisfies c h.0 s.0) (all_hold-SatisfiesAll cs h.1 s.1)

  -- An accepted expression, bound to kinds, holds of a message exactly if the message satisfies its tree:
  -- one of the alternatives of an `||`, each part of an `&&`, the negated part not, the element of a
  -- `present` there, and each comparison as the evaluator compares.
  pub holds_iff :
      (src : Bytes) (e : WhenExpr)
      → parse_when src ≡ ok e
      → (kind_of : FieldRef → Bytes) (m : Subject)
      → (holds read lt le eq m (bind kind_of e) ≡ true) ↔ Satisfies m (bind kind_of e).root
  unfolding holds
  holds_iff src e h kind_of m =
      let c = bind-IsCondition src e h kind_of in
      (Satisfies-truth m (bind kind_of e).root c, truth-Satisfies m (bind kind_of e).root c)

  -- A `!=` holds exactly if both sides are there and the `==` of them does not hold.
  pub unequal_iff :
      (m : Subject) (l r : Node)
      → let absent = (eval read lt le eq m l).absent || (eval read lt le eq m r).absent in
        truth (eval read lt le eq m (cmp_node l (codes "!=") r))
        ≡ not absent && not (truth (eval read lt le eq m (cmp_node l (codes "==") r)))
  unfolding eval truth compare_values equal
  unequal_iff m l r = ground arith
