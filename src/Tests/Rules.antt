-- ===== src/Tests/Rules.antt =====
-- The rules of a specification, compiled and applied to a message.
use fluxrig.Prelude.{
  ◌≢◌, ℕ, ◌≡◌, ◌↔◌, ◌==◌, refl, true, List, [], ◌∷◌, Option, none, some, Bytes, codes, equal, leb,
  ltb, if◌then◌else◌,
}
use fluxrig.When.Lexer.{next}
use fluxrig.When.Parser.{error, Result, ok, parse_when}
use fluxrig.When.Eval.{Subject, compares_numerically}
use fluxrig.When.Validator.{
  MessageRule, Field, Spec, Validator, missing, forbidden, unlisted, failed, new_validator,
  validate,
}
use fluxrig.When.Obeyed.{ChecksHold}
use fluxrig.When.FirstRule.{Entry, AtMostOneApplies, FirstObeyed, validate-FirstObeyed}
use fluxrig.When.Resolver.{undeclared, check_expressions}
use fluxrig.When.Loaded.{new_validator-check_expressions}
use fluxrig.When.Compiled.{IsOk, SpecParses, new_validator-IsOk}

abbrev answers : List Bytes
answers = codes "00" ∷ codes "05" ∷ []

abbrev answer_rule : MessageRule
answer_rule = record {
  mti = codes "0210" ∷ [];
  usage = codes "mandatory";
  condition = codes "present(35)";
  values_ref = codes "answers";
  valid_values = none;
}

-- The later entry of an element.
abbrev no_answer_rule : MessageRule
no_answer_rule = record answer_rule { usage = codes "forbidden"; condition = codes " " }

abbrev plain_field : Field
plain_field = record { kind = []; values_ref = []; valid_values = none; parts = []; messages = [] }

abbrev rules : Spec
rules = record {
  fields = (35, plain_field) ∷ (39, record plain_field { messages = answer_rule ∷ [] }) ∷ [];
  enums = (codes "answers", record { closed = true; values = answers }) ∷ [];
  checks =
      record {
        name = codes "approved";
        severity = codes "warn";
        mti = codes "0210" ∷ [];
        assert = codes "field(39)=='00'";
      }
      ∷ [];
}

abbrev validator_of : Result Validator → Validator
validator_of (ok v) = v
validator_of _ = record { by_mti = []; checks = []; closed = [] }

abbrev compiled : Validator
compiled = validator_of (new_validator rules)

abbrev both_entries : Validator
both_entries = validator_of (
    new_validator (record rules {
      fields = (39, record plain_field { messages = answer_rule ∷ no_answer_rule ∷ [] }) ∷ [];
      checks = [];
    }))

abbrev carries : Option Bytes → ℕ → List Bytes → Option Bytes
carries answer de subs = if de == 35 then some (codes "1") else if de == 39 then answer else none

abbrev response : Option Bytes → Subject
response answer = record { mti = codes "0210"; field = carries answer }

abbrev read_nothing : Bytes → Option ℕ
read_nothing s = none

-- A missing answer, one that is not listed, and one that is listed and fails the check.
validate_run :
    (validate read_nothing ltb leb (λ a b. a == b) compiled (response none)
      ≡ missing 39 ∷ failed (codes "approved") (codes "warn") ∷ [])
    × (validate read_nothing ltb leb (λ a b. a == b) compiled (response (some (codes "91")))
        ≡ unlisted 39 (codes "91") ∷ failed (codes "approved") (codes "warn") ∷ [])
    × (validate read_nothing ltb leb (λ a b. a == b) compiled (response (some (codes "00"))) ≡ [])
unfolding validate new_validator parse_when next equal compares_numerically
validate_run = (refl, refl, refl)

-- Two entries of one element whose conditions both hold are both applied: whether the element is there
-- or not, one of them is broken.
both_entries_run :
    (validate read_nothing ltb leb (λ a b. a == b) both_entries (response none) ≡ missing 39 ∷ [])
    × (validate read_nothing ltb leb (λ a b. a == b) both_entries (response (some (codes "00")))
        ≡ forbidden 39 ∷ [])
unfolding validate new_validator parse_when next equal compares_numerically
both_entries_run = (refl, refl)

-- The answer has one entry, so no two apply.
one_entry :
    (m : Subject) (e : Entry) → AtMostOneApplies read_nothing ltb leb (λ a b. a == b) m (e ∷ [])
one_entry m e [] back x at applies_here = tt
one_entry m e (y ∷ []) back x at applies_here = cc
one_entry m e (y ∷ z ∷ front) back x at applies_here = cc

answer_entry : (e : Entry) × (compiled.by_mti ≡ e ∷ [])
unfolding new_validator parse_when next equal compares_numerically
answer_entry = (_, refl)

validate-FirstObeyed_example :
    (validate read_nothing ltb leb (λ a b. a == b) compiled (response (some (codes "00"))) ≡ []) ↔ (
      FirstObeyed read_nothing ltb leb
        (λ a b. a == b)
        compiled.closed
        (response (some (codes "00")))
        compiled.by_mti
      × ChecksHold read_nothing ltb leb
          (λ a b. a == b)
          (response (some (codes "00")))
          compiled.checks)
validate-FirstObeyed_example =
    validate-FirstObeyed read_nothing ltb leb (λ a b. a == b) compiled
      (response (some (codes "00")))
      (rw answer_entry.1 (one_entry (response (some (codes "00"))) answer_entry.0))

rules-SpecParses : SpecParses rules
unfolding parse_when next equal
rules-SpecParses = ((tt, (((λ c s h. tt), tt), tt)), (tt, tt))

new_validator-IsOk_run : IsOk (new_validator rules)
new_validator-IsOk_run = new_validator-IsOk rules rules-SpecParses

check_expressions_run :
    (check_expressions rules ≡ [])
    × (check_expressions (record rules { fields = [] }) ≡ undeclared 39 ∷ [])
unfolding check_expressions parse_when next equal
check_expressions_run = (refl, refl)

-- A check without an expression passes the loader's checks and is not compiled.
empty_assert_run :
    (check_expressions
        (record rules { checks = record { name = []; severity = []; mti = []; assert = [] } ∷ [] })
      ≡ [])
    × (new_validator (record rules {
      checks = record { name = []; severity = []; mti = []; assert = [] } ∷ [];
    })
        ≡ error 0)
unfolding check_expressions new_validator parse_when next equal
empty_assert_run = (refl, refl)

new_validator-check_expressions_example : IsOk (new_validator rules)
new_validator-check_expressions_example =
    new_validator-check_expressions rules (assert_given, tt) (check_expressions_run.0)
  where
    assert_given : codes "field(39)=='00'" ≢ []
    assert_given e = cc
