-- ===== src/When/Obeyed.antt =====
-- What it says of a message that `Validate` of validate.go reports nothing, and which specs
-- `NewValidator` compiles.
use fluxrig.Prelude.{
  append_empty, ℕ, ◌≡◌, ◌≢◌, ◌==◌, ◌++◌, ap, ◌↔◌, ◌⊎◌, refl, Bool, true, false, not, ◌&&◌, ◌||◌,
  List, [], ◌∷◌, Option, none, some, Bytes, codes, equal, equal_iff, All, arith, inl, inr,
  Bool-cases, Option-cases, if◌then◌else◌,
}
use fluxrig.When.Eval.{Subject, holds}
use fluxrig.When.Validator.{
  ValueSet, CompiledRule, CompiledCheck, Validator, unlisted, find_closed, listed, or_else,
  check_value, check_usage, applies, check_rules, check_asserts, validate,
}

-- One of the values is the text.
abbrev pub Listed : Bytes → List Bytes → Type 0
Listed v [] = ⊥
Listed v (x ∷ xs) = (x ≡ v) ⊎ Listed v xs

abbrev pub InSet : Option ValueSet → Bytes → Type 0
InSet none v = Unit
InSet (some set) v = set.closed ≡ true → Listed v set.values

-- The set is the first that the list has for the element.
abbrev pub IsSetOf : ℕ → List (ℕ × ValueSet) → ValueSet → Type 0
IsSetOf de sets set =
    (front : List (ℕ × ValueSet)) × (back : List (ℕ × ValueSet)) × (sets
      ≡ front ++ ((de, set) ∷ back))
    × All (λ e. e.0 ≢ de) front

-- What a rule that applies asks of the value of its element.
abbrev pub Obeys : List (ℕ × ValueSet) → CompiledRule → Option Bytes → Type 0
Obeys closed r none = r.usage ≡ codes "mandatory" → ⊥
Obeys closed r (some v) =
    (r.usage ≡ codes "forbidden" → ⊥)
    × ((set : ValueSet) → r.values ≡ some set → set.closed ≡ true → Listed v set.values)
    × ((set : ValueSet)
        → r.values ≡ none
        → IsSetOf r.de closed set
        → set.closed ≡ true
        → Listed v set.values)

IsSetOf-find_closed :
    (de : ℕ) (sets : List (ℕ × ValueSet)) (set : ValueSet)
    → find_closed de sets ≡ some set
    → IsSetOf de sets set
IsSetOf-find_closed de [] set h = cc
IsSetOf-find_closed de ((n, s) ∷ sets) set h = elim (Bool-cases (n == de)) [
  | inl e ↦
      let here : n ≡ de = ground arith in
      let same : s ≡ set = ground arith in ([], sets, rw (here, same) refl, tt)
  | inr e ↦
      let (front, back, q, v) = IsSetOf-find_closed de sets set (rw e at h) in
      ((n, s) ∷ front, back, ap (◌∷◌ (n, s)) q, ((λ k. ground arith), v))
]

find_closed_first :
    (de : ℕ) (set : ValueSet) (front back : List (ℕ × ValueSet))
    → All (λ e. e.0 ≢ de) front
    → find_closed de (front ++ ((de, set) ∷ back)) ≡ some set
find_closed_first de set [] back v = ground arith
find_closed_first de set ((n, s) ∷ front) back (ne, v) = elim (Bool-cases (n == de)) [
  | inl e ↦ absurd (ne (ground arith))
  | inr e ↦ rw e (find_closed_first de set front back v)
]

find_closed-IsSetOf :
    (de : ℕ) (sets : List (ℕ × ValueSet)) (set : ValueSet)
    → IsSetOf de sets set
    → find_closed de sets ≡ some set
find_closed-IsSetOf de sets set (front, back, e, v) = rw e (find_closed_first de set front back v)

listed-Listed : (v : Bytes) (xs : List Bytes) → Listed v xs → listed v xs ≡ true
listed-Listed v [] l = absurd l
listed-Listed v (x ∷ xs) (inl e) = rw ((equal_iff x v).1 e) refl
listed-Listed v (x ∷ xs) (inr l) = let u = listed-Listed v xs l in ground arith

Listed-listed : (v : Bytes) (xs : List Bytes) → listed v xs ≡ true → Listed v xs
Listed-listed v [] h = cc
Listed-listed v (x ∷ xs) h = elim (Bool-cases (equal x v)) [
  | inl e ↦ inl ((equal_iff x v).0 e)
  | inr e ↦ inr (Listed-listed v xs (rw e at h))
]

no_violation {ℓ} : {A : Type ℓ} {x : A} {xs : List A} → x ∷ xs ≡ [] → ⊥
no_violation h = cc

check_value_iff :
    (set : Option ValueSet) (de : ℕ) (v : Bytes) → (check_value set de v ≡ []) ↔ InSet set v
unfolding check_value
check_value_iff none de v = (λ h. tt, λ h. refl)
check_value_iff (some set) de v = (to, from)
  where
    to :
        (if not set.closed || listed v set.values then [] else unlisted de v ∷ []) ≡ []
        → set.closed ≡ true
        → Listed v set.values
    to h c = elim (Bool-cases (listed v set.values)) [
      | inl e ↦ Listed-listed v set.values e
      | inr e ↦ absurd (no_violation (rw (c, e) at h))
    ]

    from :
        (set.closed ≡ true → Listed v set.values)
        → (if not set.closed || listed v set.values then [] else unlisted de v ∷ []) ≡ []
    from k = elim (Bool-cases set.closed) [
      | inr c ↦ rw c refl
      | inl c ↦ rw (c, listed-Listed v set.values (k c)) refl
    ]

-- Which set a value is held against, by the set of the rule.
InSet-iff :
    (own : Option ValueSet) (de : ℕ) (closed : List (ℕ × ValueSet)) (v : Bytes)
    → InSet (or_else own (find_closed de closed)) v ↔ (
        ((set : ValueSet) → own ≡ some set → set.closed ≡ true → Listed v set.values)
        × ((set : ValueSet)
            → own ≡ none
            → IsSetOf de closed set
            → set.closed ≡ true
            → Listed v set.values))
InSet-iff (some own) de closed v = (
  λ h. (
    (λ set e. let same : own ≡ set = cc in rw (← same) h),
    λ set e. let x : some own ≡ none = e in cc,
  ),
  λ k. k.0 own refl,
)
InSet-iff none de closed v = (
  λ h. (
    (λ set e. let x : none ≡ some set = e in cc),
    λ set e first. rw (find_closed-IsSetOf de closed set first) at h,
  ),
  λ k. elim (Option-cases (find_closed de closed)) [
    | inl e ↦ rw e tt
    | inr (set, e) ↦ rw e (k.1 set refl (IsSetOf-find_closed de closed set e))
  ],
)

check_usage_iff :
    (closed : List (ℕ × ValueSet)) (r : CompiledRule) (o : Option Bytes)
    → (check_usage closed r o ≡ []) ↔ Obeys closed r o
unfolding check_usage
check_usage_iff closed r none = elim (Bool-cases (equal r.usage (codes "mandatory"))) [
  | inl e ↦ rw e (
    (λ h. absurd (no_violation h)),
    λ k. absurd (k ((equal_iff r.usage (codes "mandatory")).0 e)),
  )
  | inr e ↦ rw e ((λ h u. let x = (equal_iff r.usage (codes "mandatory")).1 u in cc), λ k. refl)
]
check_usage_iff closed r (some v) = elim (Bool-cases (equal r.usage (codes "forbidden"))) [
  | inl e ↦ rw e (
    (λ h. absurd (no_violation h)),
    λ k. absurd (k.0 ((equal_iff r.usage (codes "forbidden")).0 e)),
  )
  | inr e ↦
      let inside = check_value_iff (or_else r.values (find_closed r.de closed)) r.de v in
      let sets = InSet-iff r.values r.de closed v in
      rw e (
        (λ h. (
          (λ u. let x = (equal_iff r.usage (codes "forbidden")).1 u in cc),
          (sets.0 (inside.0 h)).0,
          (sets.0 (inside.0 h)).1,
        )),
        λ k. inside.1 (sets.1 (k.1, k.2)),
      )
]

module _ {Number : Type 0} (read : Bytes → Option Number) (lt le eq : Number → Number → Bool) where
  -- Every rule of the message type whose condition holds is obeyed.
  abbrev pub RulesHold : List (ℕ × ValueSet) → Subject → List (Bytes × CompiledRule) → Type 0
  RulesHold closed m = All (λ e.
      e.0 ≡ m.mti
      → applies read lt le eq m e.1.condition ≡ true
      → Obeys closed e.1 (m.field e.1.de []))

  abbrev pub ChecksHold : Subject → List (Bytes × CompiledCheck) → Type 0
  ChecksHold m = All (λ e. e.0 ≡ m.mti → holds read lt le eq m e.1.assert ≡ true)

  RulesHold-check_rules :
      (closed : List (ℕ × ValueSet)) (m : Subject) (rs : List (Bytes × CompiledRule))
      → check_rules read lt le eq closed m rs ≡ []
      → RulesHold closed m rs
  unfolding check_rules
  RulesHold-check_rules closed m [] h = tt
  RulesHold-check_rules closed m ((code, r) ∷ rs) h =
      elim (Bool-cases (equal code m.mti && applies read lt le eq m r.condition)) [
        | inl e ↦
            let (here, later) =
              append_empty (check_usage closed r (m.field r.de []))
                (check_rules read lt le eq closed m rs) (rw e at h) in
            (
              λ c a. (check_usage_iff closed r (m.field r.de [])).0 here,
              RulesHold-check_rules closed m rs later,
            )
        | inr e ↦ (
          λ c a. absurd (differs ((equal_iff code m.mti).1 c) a e),
          RulesHold-check_rules closed m rs (rw e at h),
        )
      ]
    where
      differs :
          equal code m.mti ≡ true
          → applies read lt le eq m r.condition ≡ true
          → (equal code m.mti && applies read lt le eq m r.condition) ≡ false
          → ⊥
      differs c a e = let x = rw (c, a) at e in cc

  check_rules-RulesHold :
      (closed : List (ℕ × ValueSet)) (m : Subject) (rs : List (Bytes × CompiledRule))
      → RulesHold closed m rs
      → check_rules read lt le eq closed m rs ≡ []
  unfolding check_rules
  check_rules-RulesHold closed m [] h = refl
  check_rules-RulesHold closed m ((code, r) ∷ rs) h =
      let rest = check_rules-RulesHold closed m rs h.1 in
      elim (Bool-cases (equal code m.mti)) [
        | inr e ↦ rw e rest
        | inl e ↦ elim (Bool-cases (applies read lt le eq m r.condition)) [
          | inr a ↦ rw (e, a) rest
          | inl a ↦
              rw
                (
                  e,
                  a,
                  (check_usage_iff closed r (m.field r.de [])).1
                      (h.0 ((equal_iff code m.mti).0 e) a),
                )
                rest
        ]
      ]

  ChecksHold-check_asserts :
      (m : Subject) (cs : List (Bytes × CompiledCheck))
      → check_asserts read lt le eq m cs ≡ []
      → ChecksHold m cs
  unfolding check_asserts
  ChecksHold-check_asserts m [] h = tt
  ChecksHold-check_asserts m ((code, c) ∷ cs) h = elim (Bool-cases (equal code m.mti)) [
    | inr e ↦
        (λ k. let x = (equal_iff code m.mti).1 k in cc, ChecksHold-check_asserts m cs (rw e at h))
    | inl e ↦ elim (Bool-cases (holds read lt le eq m c.assert)) [
      | inl a ↦ (λ k. a, ChecksHold-check_asserts m cs (rw (e, a) at h))
      | inr a ↦ absurd (no_violation (rw (e, a) at h))
    ]
  ]

  check_asserts-ChecksHold :
      (m : Subject) (cs : List (Bytes × CompiledCheck))
      → ChecksHold m cs
      → check_asserts read lt le eq m cs ≡ []
  unfolding check_asserts
  check_asserts-ChecksHold m [] h = refl
  check_asserts-ChecksHold m ((code, c) ∷ cs) h =
      let rest = check_asserts-ChecksHold m cs h.1 in
      elim (Bool-cases (equal code m.mti)) [
        | inr e ↦ rw e rest
        | inl e ↦ rw (e, h.0 ((equal_iff code m.mti).0 e)) rest
      ]

  -- `Validate` reports nothing exactly if each rule of the message's type whose condition holds is
  -- obeyed (a mandatory element is there, a forbidden one is not, and a value is in the closed set of the
  -- rule, or of the element if the rule has none), and each check of the type holds.
  pub validate_iff :
      (v : Validator) (m : Subject)
      → (validate read lt le eq v m ≡ []) ↔ (RulesHold v.closed m v.by_mti × ChecksHold m v.checks)
  unfolding validate
  validate_iff v m = (
    λ h.
        let (rules, checks) =
          append_empty (check_rules read lt le eq v.closed m v.by_mti)
            (check_asserts read lt le eq m v.checks) h in
        (
          RulesHold-check_rules v.closed m v.by_mti rules,
          ChecksHold-check_asserts m v.checks checks,
        ),
    λ k.
        rw (check_rules-RulesHold v.closed m v.by_mti k.0, check_asserts-ChecksHold m v.checks k.1)
          refl,
  )
