-- ===== src/When/Resolver.antt =====
-- What a spec's loader checks of its expressions: `checkWhen` of resolve.go, and its calls in
-- `resolveReferences`.
use fluxrig.Prelude.{
  ℕ, ◌+◌, Bool, true, false, not, ◌&&◌, ◌||◌, List, [], ◌∷◌, ◌++◌, Option, none, some, Bytes,
  decimal, equal, if◌then◌else◌,
}
use fluxrig.When.{FieldRef}
use fluxrig.When.Parser.{ok, error, no_fuel, parse_when}
use fluxrig.When.Validator.{MessageRule, Field, Check, Spec, find_field}

pub data Problem : Type 0 where
  unparsed : ℕ → Problem
  undeclared : ℕ → Problem
  no_part : FieldRef → Problem
  -- The fuel of the parser ran out.
  unfinished : Problem

abbrev is_declared : Option Field → Bool
is_declared none = false
is_declared (some f) = true

-- `fieldExists`.
unfoldable pub field_exists : Spec → ℕ → Bool
field_exists spec de = is_declared (find_field de spec.fields)

-- A part by its tag, or by its place if it has none.
abbrev has_part : Bytes → ℕ → List Bytes → Bool
has_part want i [] = false
has_part want i ([] ∷ parts) = equal (decimal (i + 1)) want || has_part want (i + 1) parts
has_part want i ((c ∷ tag) ∷ parts) = equal (c ∷ tag) want || has_part want (i + 1) parts

abbrev has_parts : List Bytes → List Bytes → Bool
has_parts parts [] = true
has_parts parts (want ∷ wants) = has_part want 0 parts && has_parts parts wants

-- `subExists`. Without a part, a path of parts finds none.
unfoldable pub sub_exists : Spec → ℕ → List Bytes → Bool
unfolding equal decimal
sub_exists spec de subs = elim (find_field de spec.fields) [
  | none ↦ false
  | some f ↦ has_parts f.parts subs
]

abbrev pub no_subs : List Bytes → Bool
no_subs [] = true
no_subs (s ∷ ss) = false

-- The loop over the references.
unfoldable pub check_refs : Spec → List FieldRef → List Problem
unfolding field_exists sub_exists
check_refs spec [] = []
check_refs spec (ref ∷ refs) =
    let rest = check_refs spec refs in
    if not (field_exists spec ref.de)
    then undeclared ref.de ∷ rest
    else if not (no_subs ref.subs) && not (sub_exists spec ref.de ref.subs)
    then no_part ref ∷ rest
    else rest

-- `checkWhen` of an expression that is not empty.
unfoldable pub check_expression : Spec → Bytes → List Problem
unfolding parse_when check_refs
check_expression spec src = elim (parse_when src) [
  | ok e ↦ check_refs spec e.refs
  | error at ↦ unparsed at ∷ []
  | no_fuel ↦ unfinished ∷ []
]

unfoldable pub check_when : Spec → Bytes → List Problem
unfolding check_expression
check_when spec [] = []
check_when spec (c ∷ src) = check_expression spec (c ∷ src)

-- The conditions of the rules of a field, of all fields, and the checks.
unfoldable pub check_messages : Spec → List MessageRule → List Problem
unfolding check_when
check_messages spec [] = []
check_messages spec (r ∷ rs) = check_when spec r.condition ++ check_messages spec rs

unfoldable pub check_fields : Spec → List (ℕ × Field) → List Problem
unfolding check_messages
check_fields spec [] = []
check_fields spec ((de, f) ∷ fs) = check_messages spec f.messages ++ check_fields spec fs

unfoldable pub check_asserts : Spec → List Check → List Problem
unfolding check_when
check_asserts spec [] = []
check_asserts spec (c ∷ cs) = check_when spec c.assert ++ check_asserts spec cs

unfoldable pub check_expressions : Spec → List Problem
unfolding check_fields check_asserts
check_expressions spec = check_fields spec spec.fields ++ check_asserts spec spec.checks
