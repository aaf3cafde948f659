-- ===== src/When/Compiled.antt =====
-- Which specs `NewValidator` of validate.go compiles.
use fluxrig.Prelude.{ℕ, ◌≡◌, refl, List, [], ◌∷◌, Bytes, All, List-cases, inl, inr}
use fluxrig.When.Parser.{Result, ok, error, no_fuel, parse_when}
use fluxrig.When.Eval.{bind}
use fluxrig.When.Validator.{
  MessageRule, Field, Check, Spec, compile, compile_condition, compile_rules, compile_fields,
  compile_checks, new_validator,
}
use fluxrig.Translation.Currency.{trim_space}

abbrev pub IsOk {ℓ} : {A : Type ℓ} → Result A → Type 0
IsOk (ok a) = Unit
IsOk (error at) = ⊥
IsOk no_fuel = ⊥

ok_value {ℓ} : {A : Type ℓ} (r : Result A) → IsOk r → (a : A) × (r ≡ ok a)
ok_value (ok a) h = (a, refl)
ok_value (error at) h = absurd h
ok_value no_fuel h = absurd h

-- A condition is blank or parses.
abbrev pub RuleParses : MessageRule → Type 0
RuleParses r = (c : ℕ) (s : Bytes) → trim_space r.condition ≡ c ∷ s → IsOk (parse_when r.condition)

-- Each expression of a spec parses.
abbrev pub SpecParses : Spec → Type 0
SpecParses spec =
    All (λ f. All RuleParses f.1.messages) spec.fields
    × All (λ c. IsOk (parse_when c.assert)) spec.checks

compile-IsOk : (spec : Spec) (src : Bytes) → IsOk (parse_when src) → IsOk (compile spec src)
unfolding compile bind
compile-IsOk spec src h = let (e, k) = ok_value (parse_when src) h in rw (compile, k) tt

compile_condition-IsOk :
    (spec : Spec) (r : MessageRule) → RuleParses r → IsOk (compile_condition spec r.condition)
unfolding compile_condition
compile_condition-IsOk spec r h = elim (List-cases (trim_space r.condition)) [
  | inl e ↦ rw (compile_condition, e) tt
  | inr (c, s, e) ↦
      let (x, k) = ok_value (compile spec r.condition) (compile-IsOk spec r.condition (h c s e)) in
      rw (compile_condition, e, k) tt
]

compile_rules-IsOk :
    (spec : Spec) (de : ℕ) (rs : List MessageRule)
    → All RuleParses rs
    → IsOk (compile_rules spec de rs)
unfolding compile_rules
compile_rules-IsOk spec de [] h = tt
compile_rules-IsOk spec de (r ∷ rs) h =
    let (c, k) =
      ok_value (compile_condition spec r.condition) (compile_condition-IsOk spec r h.0) in
    let (rest, l) = ok_value (compile_rules spec de rs) (compile_rules-IsOk spec de rs h.1) in
    rw (compile_rules, k, l) tt

compile_fields-IsOk :
    (spec : Spec) (fs : List (ℕ × Field))
    → All (λ f. All RuleParses f.1.messages) fs
    → IsOk (compile_fields spec fs)
unfolding compile_fields
compile_fields-IsOk spec [] h = tt
compile_fields-IsOk spec ((de, f) ∷ fs) h =
    let (rules, k) =
      ok_value (compile_rules spec de f.messages) (compile_rules-IsOk spec de f.messages h.0) in
    let (rest, l) = ok_value (compile_fields spec fs) (compile_fields-IsOk spec fs h.1) in
    rw (compile_fields, k, l) tt

compile_checks-IsOk :
    (spec : Spec) (cs : List Check)
    → All (λ c. IsOk (parse_when c.assert)) cs
    → IsOk (compile_checks spec cs)
unfolding compile_checks
compile_checks-IsOk spec [] h = tt
compile_checks-IsOk spec (c ∷ cs) h =
    let (e, k) = ok_value (compile spec c.assert) (compile-IsOk spec c.assert h.0) in
    let (rest, l) = ok_value (compile_checks spec cs) (compile_checks-IsOk spec cs h.1) in
    rw (compile_checks, k, l) tt

-- A spec whose expressions all parse is compiled.
pub new_validator-IsOk : (spec : Spec) → SpecParses spec → IsOk (new_validator spec)
unfolding new_validator
new_validator-IsOk spec h =
    let (rules, k) =
      ok_value (compile_fields spec spec.fields) (compile_fields-IsOk spec spec.fields h.0) in
    let (checks, l) =
      ok_value (compile_checks spec spec.checks) (compile_checks-IsOk spec spec.checks h.1) in
    rw (new_validator, k, l) tt
