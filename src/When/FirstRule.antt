-- ===== src/When/FirstRule.antt =====
-- The reading of a spec's rules that the documentation gives, by which the first entry of an element
-- whose condition holds decides, beside what `Validate` of validate.go reports.
use fluxrig.Prelude.{
  ℕ, ◌≡◌, ◌↔◌, refl, ap, Bool, true, List, [], ◌∷◌, ◌++◌, Option, Bytes, All, All-append_inv,
}
use mathlib.Core.Path.{subst}
use fluxrig.When.Eval.{Subject}
use fluxrig.When.Validator.{ValueSet, CompiledRule, Validator, applies, validate}
use fluxrig.When.Obeyed.{Obeys, RulesHold, ChecksHold, validate_iff}

abbrev pub Entry : Type 0
Entry = Bytes × CompiledRule

All-split {ℓ} :
    {A : Type ℓ} (P : A → Type 0) (xs : List A)
    → ((front back : List A) (x : A) → xs ≡ front ++ (x ∷ back) → P x)
    → All P xs
All-split P [] k = tt
All-split P (x ∷ xs) k =
    (k [] xs x refl, All-split P xs (λ front back y e. k (x ∷ front) back y (ap (◌∷◌ x) e)))

module _ {Number : Type 0} (read : Bytes → Option Number) (lt le eq : Number → Number → Bool) where
  -- The entry is for the message's type, and its condition holds.
  abbrev pub Applies : Subject → Entry → Type 0
  Applies m e = (e.0 ≡ m.mti) × (applies read lt le eq m e.1.condition ≡ true)

  -- No entry of the list is for the element and applies.
  abbrev pub NoneApplies : Subject → ℕ → List Entry → Type 0
  NoneApplies m de = All (λ e. e.1.de ≡ de → Applies m e → ⊥)

  -- No two entries of one element apply.
  abbrev pub AtMostOneApplies : Subject → List Entry → Type 0
  AtMostOneApplies m es =
      (front back : List Entry) (e : Entry)
      → es ≡ front ++ (e ∷ back)
      → Applies m e
      → NoneApplies m e.1.de front

  -- The first entry of an element that applies is obeyed.
  abbrev pub FirstObeyed : List (ℕ × ValueSet) → Subject → List Entry → Type 0
  FirstObeyed closed m es =
      (front back : List Entry) (e : Entry)
      → es ≡ front ++ (e ∷ back)
      → Applies m e
      → NoneApplies m e.1.de front
      → Obeys closed e.1 (m.field e.1.de [])

  RulesHold-FirstObeyed :
      (closed : List (ℕ × ValueSet)) (m : Subject) (es : List Entry)
      → RulesHold read lt le eq closed m es
      → FirstObeyed closed m es
  RulesHold-FirstObeyed closed m es h front back e at (c, a) none_before =
      (All-append_inv _ front (e ∷ back) (subst (RulesHold read lt le eq closed m) at h)).1.0 c a

  FirstObeyed-RulesHold :
      (closed : List (ℕ × ValueSet)) (m : Subject) (es : List Entry)
      → AtMostOneApplies m es
      → FirstObeyed closed m es
      → RulesHold read lt le eq closed m es
  FirstObeyed-RulesHold closed m es one h =
      All-split
        (λ e.
          e.0 ≡ m.mti
          → applies read lt le eq m e.1.condition ≡ true
          → Obeys closed e.1 (m.field e.1.de []))
        es (λ front back e at c a. h front back e at (c, a) (one front back e at (c, a)))

  -- On a message on which no two entries of one element apply, `Validate` reports nothing exactly if
  -- for each element the first entry that applies is obeyed (a mandatory element is there, a forbidden
  -- one is not, and a value is in the rule's set if it has one, else in the first set of the
  -- element, where that set is closed), and each check of the message's type holds.
  pub validate-FirstObeyed :
      (v : Validator) (m : Subject)
      → AtMostOneApplies m v.by_mti
      → (validate read lt le eq v m ≡ [])
        ↔ (FirstObeyed v.closed m v.by_mti × ChecksHold read lt le eq m v.checks)
  validate-FirstObeyed v m one =
      let all = validate_iff read lt le eq v m in
      (
        λ h. (RulesHold-FirstObeyed v.closed m v.by_mti (all.0 h).0, (all.0 h).1),
        λ k. all.1 (FirstObeyed-RulesHold v.closed m v.by_mti one k.0, k.1),
      )
