-- ===== src/When/Validator.antt =====
-- The rules of a message specification, compiled and applied: validate.go, beside the expressions that
-- they are conditioned on. The fields of a spec stand in the order of their numbers, in which the source
-- walks them, and a map of lists is the list of its entries in the order they were appended. The texts
-- of a violation, and the numbers that name checks without a name, are left out.
use fluxrig.Prelude.{
  ℕ, Bool, true, false, not, ◌&&◌, ◌||◌, List, [], ◌∷◌, ◌++◌, Option, none, some, Bytes, codes,
  equal, if◌then◌else◌, ◌==◌,
}
use fluxrig.When.{FieldRef, WhenExpr}
use fluxrig.When.Parser.{Result, ok, error, no_fuel, parse_when}
use fluxrig.When.Eval.{Subject, bind, holds}
use fluxrig.Translation.Currency.{trim_space}

pub record ValueSet : Type 0 where
  pub closed : Bool
  pub values : List Bytes

-- An entry of a field's `messages`, with its codes.
pub record MessageRule : Type 0 where
  pub mti : List Bytes
  pub usage : Bytes
  pub condition : Bytes
  pub values_ref : Bytes
  pub valid_values : Option ValueSet

pub record Field : Type 0 where
  pub kind : Bytes
  pub values_ref : Bytes
  pub valid_values : Option ValueSet
  -- The tag of each part under it; a positional part has none.
  pub parts : List Bytes
  pub messages : List MessageRule

pub record Check : Type 0 where
  pub name : Bytes
  pub severity : Bytes
  pub mti : List Bytes
  pub assert : Bytes

pub record Spec : Type 0 where
  pub fields : List (ℕ × Field)
  pub enums : List (Bytes × ValueSet)
  pub checks : List Check

pub record CompiledRule : Type 0 where
  pub de : ℕ
  pub usage : Bytes
  pub condition : Option WhenExpr
  pub values : Option ValueSet

pub record CompiledCheck : Type 0 where
  pub name : Bytes
  pub severity : Bytes
  pub assert : WhenExpr

pub record Validator : Type 0 where
  pub by_mti : List (Bytes × CompiledRule)
  pub checks : List (Bytes × CompiledCheck)
  pub closed : List (ℕ × ValueSet)

abbrev pub find_field : ℕ → List (ℕ × Field) → Option Field
find_field de [] = none
find_field de ((n, f) ∷ fs) = if n == de then some f else find_field de fs

-- `kindOf`: a part of an element has none.
unfoldable pub kind_of : Spec → FieldRef → Bytes
kind_of spec ref = elim (find_field ref.de spec.fields) [
  | none ↦ []
  | some f ↦ elim ref.subs [ [] ↦ f.kind | s ∷ ss ↦ [] ]
]

abbrev find_set : Bytes → List (Bytes × ValueSet) → Option ValueSet
find_set name [] = none
find_set name ((k, s) ∷ sets) = if equal k name then some s else find_set name sets

abbrev named_set : Spec → Bytes → Option ValueSet
named_set spec [] = none
named_set spec (c ∷ name) = find_set (c ∷ name) spec.enums

-- `valueSetFor`.
unfoldable pub value_set_for : Spec → Bytes → Option ValueSet → Option ValueSet
unfolding equal
value_set_for spec ref (some set) = some set
value_set_for spec ref none = named_set spec ref

-- An expression parsed and bound.
unfoldable pub compile : Spec → Bytes → Result WhenExpr
unfolding parse_when bind kind_of
compile spec src = elim (parse_when src) [
  | ok e ↦ ok (bind (kind_of spec) e)
  | error at ↦ error at
  | no_fuel ↦ no_fuel
]

-- The condition of a rule, if it is not blank.
unfoldable pub compile_condition : Spec → Bytes → Result (Option WhenExpr)
unfolding compile trim_space
compile_condition spec src = elim (trim_space src) [
  | [] ↦ ok none
  | c ∷ s ↦ elim (compile spec src) [ ok e ↦ ok (some e) | error at ↦ error at | no_fuel ↦ no_fuel ]
]

abbrev under {ℓ} : {A : Type ℓ} → List Bytes → A → List (Bytes × A)
under [] a = []
under (code ∷ mti) a = (code, a) ∷ under mti a

-- The loops of `NewValidator`.
unfoldable pub compile_rules : Spec → ℕ → List MessageRule → Result (List (Bytes × CompiledRule))
unfolding compile_condition value_set_for
compile_rules spec de [] = ok []
compile_rules spec de (r ∷ rs) = elim (compile_condition spec r.condition) [
  | error at ↦ error at
  | no_fuel ↦ no_fuel
  | ok condition ↦ elim (compile_rules spec de rs) [
    | error at ↦ error at
    | no_fuel ↦ no_fuel
    | ok rest ↦ ok (
        under r.mti (record {
          de = de;
          usage = r.usage;
          condition = condition;
          values = value_set_for spec r.values_ref r.valid_values;
        })
        ++ rest)
  ]
]

unfoldable pub compile_fields : Spec → List (ℕ × Field) → Result (List (Bytes × CompiledRule))
unfolding compile_rules
compile_fields spec [] = ok []
compile_fields spec ((de, f) ∷ fs) = elim (compile_rules spec de f.messages) [
  | error at ↦ error at
  | no_fuel ↦ no_fuel
  | ok rules ↦ elim (compile_fields spec fs) [
    | error at ↦ error at
    | no_fuel ↦ no_fuel
    | ok rest ↦ ok (rules ++ rest)
  ]
]

abbrev level : Bytes → Bytes
level severity = if equal severity (codes "warn") then codes "warn" else codes "reject"

unfoldable pub compile_checks : Spec → List Check → Result (List (Bytes × CompiledCheck))
unfolding compile equal
compile_checks spec [] = ok []
compile_checks spec (c ∷ cs) = elim (compile spec c.assert) [
  | error at ↦ error at
  | no_fuel ↦ no_fuel
  | ok e ↦ elim (compile_checks spec cs) [
    | error at ↦ error at
    | no_fuel ↦ no_fuel
    | ok rest ↦
        ok (under c.mti (record { name = c.name; severity = level c.severity; assert = e }) ++ rest)
  ]
]

abbrev closed_set : ℕ → Option ValueSet → List (ℕ × ValueSet)
closed_set de none = []
closed_set de (some set) = if set.closed then (de, set) ∷ [] else []

unfoldable pub closed_sets : Spec → List (ℕ × Field) → List (ℕ × ValueSet)
unfolding value_set_for
closed_sets spec [] = []
closed_sets spec ((de, f) ∷ fs) =
    closed_set de (value_set_for spec f.values_ref f.valid_values) ++ closed_sets spec fs

-- `NewValidator`.
unfoldable pub new_validator : Spec → Result Validator
unfolding compile_fields compile_checks closed_sets
new_validator spec = elim (compile_fields spec spec.fields) [
  | error at ↦ error at
  | no_fuel ↦ no_fuel
  | ok rules ↦ elim (compile_checks spec spec.checks) [
    | error at ↦ error at
    | no_fuel ↦ no_fuel
    | ok checks ↦
        ok (record { by_mti = rules; checks = checks; closed = closed_sets spec spec.fields })
  ]
]

pub data Violation : Type 0 where
  missing forbidden : ℕ → Violation
  unlisted : ℕ → Bytes → Violation
  failed : Bytes → Bytes → Violation

abbrev pub find_closed : ℕ → List (ℕ × ValueSet) → Option ValueSet
find_closed de [] = none
find_closed de ((n, s) ∷ sets) = if n == de then some s else find_closed de sets

abbrev pub listed : Bytes → List Bytes → Bool
listed v [] = false
listed v (x ∷ xs) = equal x v || listed v xs

abbrev pub or_else : Option ValueSet → Option ValueSet → Option ValueSet
or_else none s = s
or_else (some r) s = some r

-- The value of an element that may be there, against the set of the rule or that of the element.
unfoldable pub check_value : Option ValueSet → ℕ → Bytes → List Violation
unfolding equal
check_value none de v = []
check_value (some set) de v =
    if not set.closed || listed v set.values then [] else unlisted de v ∷ []

unfoldable pub check_usage : List (ℕ × ValueSet) → CompiledRule → Option Bytes → List Violation
unfolding check_value equal
check_usage closed r none = if equal r.usage (codes "mandatory") then missing r.de ∷ [] else []
check_usage closed r (some v) =
    if equal r.usage (codes "forbidden")
    then forbidden r.de ∷ []
    else check_value (or_else r.values (find_closed r.de closed)) r.de v

module _ {Number : Type 0} (read : Bytes → Option Number) (lt le eq : Number → Number → Bool) where
  abbrev pub applies : Subject → Option WhenExpr → Bool
  applies m none = true
  applies m (some e) = holds read lt le eq m e

  -- The two loops of `Validate`.
  unfoldable pub check_rules :
      List (ℕ × ValueSet) → Subject → List (Bytes × CompiledRule) → List Violation
  unfolding check_usage holds equal
  check_rules closed m [] = []
  check_rules closed m ((code, r) ∷ rs) =
      let rest = check_rules closed m rs in
      if equal code m.mti && applies m r.condition
      then check_usage closed r (m.field r.de []) ++ rest
      else rest

  unfoldable pub check_asserts : Subject → List (Bytes × CompiledCheck) → List Violation
  unfolding holds equal
  check_asserts m [] = []
  check_asserts m ((code, c) ∷ cs) =
      let rest = check_asserts m cs in
      if equal code m.mti && not (holds read lt le eq m c.assert)
      then failed c.name c.severity ∷ rest
      else rest

  -- `Validate`.
  unfoldable pub validate : Validator → Subject → List Violation
  unfolding check_rules check_asserts
  validate v m = check_rules v.closed m v.by_mti ++ check_asserts m v.checks

-- `Rejects`.
unfoldable pub rejects : List Violation → Bool
unfolding equal
rejects [] = false
rejects (failed name severity ∷ vs) = equal severity (codes "reject") || rejects vs
rejects (missing de ∷ vs) = true
rejects (forbidden de ∷ vs) = true
rejects (unlisted de v ∷ vs) = true
