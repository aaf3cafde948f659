-- ===== src/When/Loaded.antt =====
-- What the loader's checks of resolve.go promise to `NewValidator` of validate.go.
use fluxrig.Prelude.{
  append_empty, ℕ, ◌≡◌, ◌≢◌, refl, true, not, ◌&&◌, List, [], ◌∷◌, Bytes, All, inl, inr, Bool-cases,
}
use fluxrig.When.{FieldRef, WhenExpr}
use fluxrig.When.Parser.{Result, ok, error, no_fuel, parse_when}
use fluxrig.When.Validator.{MessageRule, Field, Check, Spec, new_validator}
use fluxrig.When.Resolver.{
  Problem, unparsed, unfinished, field_exists, sub_exists, no_subs, check_refs, check_expression,
  check_when, check_messages, check_fields, check_asserts, check_expressions,
}
use fluxrig.When.Compiled.{IsOk, RuleParses, new_validator-IsOk}
use fluxrig.Translation.Currency.{trim_space}

check_expression-IsOk :
    (spec : Spec) (src : Bytes) → check_expression spec src ≡ [] → IsOk (parse_when src)
unfolding check_expression
check_expression-IsOk spec src h = step (parse_when src) h
  where
    step :
        (r : Result WhenExpr)
        → elim r [
          | ok e ↦ check_refs spec e.refs
          | error at ↦ unparsed at ∷ []
          | no_fuel ↦ unfinished ∷ []
        ]
          ≡ []
        → IsOk r
    step (ok e) k = tt
    step (error at) k = cc
    step no_fuel k = cc

check_when-IsOk :
    (spec : Spec) (src : Bytes) → src ≢ [] → check_when spec src ≡ [] → IsOk (parse_when src)
unfolding check_when
check_when-IsOk spec [] n h = absurd (n refl)
check_when-IsOk spec (c ∷ src) n h = check_expression-IsOk spec (c ∷ src) h

not_blank : (s : Bytes) (c : ℕ) (t : Bytes) → trim_space s ≡ c ∷ t → s ≢ []
unfolding trim_space
not_blank [] c t h e = cc
not_blank (d ∷ s) c t h e = cc

check_messages-RuleParses :
    (spec : Spec) (rs : List MessageRule) → check_messages spec rs ≡ [] → All RuleParses rs
unfolding check_messages
check_messages-RuleParses spec [] h = tt
check_messages-RuleParses spec (r ∷ rs) h =
    let (here, later) = append_empty (check_when spec r.condition) (check_messages spec rs) h in
    (
      (λ c s e. check_when-IsOk spec r.condition (not_blank r.condition c s e) here),
      check_messages-RuleParses spec rs later,
    )

check_fields-RuleParses :
    (spec : Spec) (fs : List (ℕ × Field))
    → check_fields spec fs ≡ []
    → All (λ f. All RuleParses f.1.messages) fs
unfolding check_fields
check_fields-RuleParses spec [] h = tt
check_fields-RuleParses spec ((de, f) ∷ fs) h =
    let (here, later) = append_empty (check_messages spec f.messages) (check_fields spec fs) h in
    (check_messages-RuleParses spec f.messages here, check_fields-RuleParses spec fs later)

check_asserts-IsOk :
    (spec : Spec) (cs : List Check)
    → All (λ c. c.assert ≢ []) cs
    → check_asserts spec cs ≡ []
    → All (λ c. IsOk (parse_when c.assert)) cs
unfolding check_asserts
check_asserts-IsOk spec [] n h = tt
check_asserts-IsOk spec (c ∷ cs) n h =
    let (here, later) = append_empty (check_when spec c.assert) (check_asserts spec cs) h in
    (check_when-IsOk spec c.assert n.0 here, check_asserts-IsOk spec cs n.1 later)

-- A spec whose expressions the loader has nothing to say of, and whose checks each have an expression,
-- is compiled.
pub new_validator-check_expressions :
    (spec : Spec)
    → All (λ c. c.assert ≢ []) spec.checks
    → check_expressions spec ≡ []
    → IsOk (new_validator spec)
unfolding check_expressions
new_validator-check_expressions spec n h =
    let (fields, checks) =
      append_empty (check_fields spec spec.fields) (check_asserts spec spec.checks) h in
    new_validator-IsOk spec (
      check_fields-RuleParses spec spec.fields fields,
      check_asserts-IsOk spec spec.checks n checks,
    )

-- An expression that the loader has nothing to say of reads only fields that the spec declares.
pub refs-check_refs :
    (spec : Spec) (refs : List FieldRef)
    → check_refs spec refs ≡ []
    → All (λ r. field_exists spec r.de ≡ true) refs
unfolding check_refs
refs-check_refs spec [] h = tt
refs-check_refs spec (ref ∷ refs) h = elim (Bool-cases (field_exists spec ref.de)) [
  | inr e ↦ absurd (differs (rw e at h))
  | inl e ↦ (
    e,
    refs-check_refs spec refs
        (elim (Bool-cases (not (no_subs ref.subs) && not (sub_exists spec ref.de ref.subs))) [
          | inl f ↦ absurd (differs (rw (e, f) at h))
          | inr f ↦ rw (e, f) at h
        ]),
  )
]
  where
    differs : {p : Problem} {ps : List Problem} → p ∷ ps ≡ [] → ⊥
    differs k = cc
