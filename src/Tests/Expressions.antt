-- ===== src/Tests/Expressions.antt =====
-- Expressions of a specification, read and asked of a message.
use fluxrig.Prelude.{
  ℕ, ◌≡◌, ◌≢◌, ◌↔◌, ◌≤◌, refl, true, false, not, ◌&&◌, ◌||◌, List, [], ◌∷◌, Option, none, some,
  Bytes, codes, equal, leb, ltb, ◌==◌, arith, if◌then◌else◌,
}
use fluxrig.When.{
  FieldRef, WhenExpr, and_node, not_node, cmp_node, field_node, present_node, lit_node, nil, cons,
  bool_value, str_value, reads,
}
use fluxrig.When.Lexer.{next}
use fluxrig.When.Parser.{ok, error, no_fuel, parse_when, parse_path}
use fluxrig.When.Eval.{Subject, bind, holds, eval, truth, compares_numerically}
use fluxrig.When.Shape.{height}
use fluxrig.When.Meaning.{
  parse_when-total, height-parse_when, refs-parse_when, is_bool-eval-parse_when, holds-refs,
}
use fluxrig.When.Truth.{Satisfies, holds_iff, unequal_iff}
use fluxrig.When.Path.{render, parse_path-render-parse_path}

abbrev source : Bytes
source = codes "present(35) && !(field(39)== '00')"

abbrev track2 : FieldRef
track2 = record { de = 35; subs = []; pos = 8 }

abbrev response : FieldRef
response = record { de = 39; subs = []; pos = 23 }

-- The tree of the source above.
abbrev declined : WhenExpr
declined = record {
  refs = track2 ∷ response ∷ [];
  root = and_node (
      cons (present_node track2) (
        cons
          (not_node
            (cmp_node (field_node response false) (codes "==") (lit_node (str_value (codes "00")))))
          nil));
}

parse_when_run : parse_when source ≡ ok declined
unfolding parse_when next equal
parse_when_run = refl

-- The position is that of the single `=`.
parse_when_error_run : parse_when (codes "field(3)=1") ≡ error 8
unfolding parse_when next equal
parse_when_error_run = refl

-- Eight parentheses are more than 32 levels, four to each; seven are not.
parse_when_deep_run :
    (parse_when (codes "((((((((true))))))))") ≡ error 8)
    × (parse_when (codes "(((((((true)))))))")
        ≡ ok (record { refs = []; root = lit_node (bool_value true) }))
unfolding parse_when next equal
parse_when_deep_run = (refl, refl)

-- The number wraps: 2 ^ 64 + 39 is read as 39.
parse_path_run :
    parse_path (codes "18446744073709551655") 0 ≡ some (record { de = 39; subs = []; pos = 0 })
unfolding parse_path
parse_path_run = refl

abbrev carries : ℕ → List Bytes → Option Bytes
carries de subs =
    if de == 35 then some (codes "1") else if de == 39 then some (codes "05") else none

abbrev request : Subject
request = record { mti = codes "0210"; field = carries }

-- The same, but for an element that the expression does not read.
abbrev carries_more : ℕ → List Bytes → Option Bytes
carries_more de subs = if de == 4 then some (codes "100") else carries de subs

abbrev other_request : Subject
other_request = record { mti = codes "0210"; field = carries_more }

-- A text of a digit reads as that digit, any other as nothing.
abbrev read_digit : Bytes → Option ℕ
read_digit (c ∷ []) = some c
read_digit _ = none

abbrev kind_of : FieldRef → Bytes
kind_of ref = if ref.de == 4 then codes "amount" else codes "text"

holds_run : holds read_digit ltb leb (λ a b. a == b) request (bind kind_of declined) ≡ true
unfolding holds bind equal compares_numerically
holds_run = refl

parse_when-total_example : parse_when source ≢ no_fuel
parse_when-total_example = parse_when-total source

height-parse_when_example : height declined.root ≤ 33
height-parse_when_example = height-parse_when source declined parse_when_run

refs-parse_when_example : declined.refs ≡ reads declined.root
refs-parse_when_example = refs-parse_when source declined parse_when_run

is_bool-eval-parse_when_example :
    (eval read_digit ltb leb (λ a b. a == b) request (bind kind_of declined).root).is_bool ≡ true
is_bool-eval-parse_when_example =
    is_bool-eval-parse_when read_digit ltb leb (λ a b. a == b) source declined parse_when_run
      kind_of request

holds-refs_example :
    holds read_digit ltb leb (λ a b. a == b) request (bind kind_of declined)
    ≡ holds read_digit ltb leb (λ a b. a == b) other_request (bind kind_of declined)
holds-refs_example =
    holds-refs read_digit ltb leb (λ a b. a == b) source declined parse_when_run kind_of request
      other_request refl (refl, (refl, tt))

holds_iff_example :
    (holds read_digit ltb leb (λ a b. a == b) request (bind kind_of declined) ≡ true)
    ↔ Satisfies read_digit ltb leb (λ a b. a == b) request (bind kind_of declined).root
holds_iff_example =
    holds_iff read_digit ltb leb (λ a b. a == b) source declined parse_when_run kind_of request

unequal_iff_example :
    truth (
      eval read_digit ltb leb
        (λ a b. a == b)
        request
        (cmp_node (field_node response false) (codes "!=") (lit_node (str_value (codes "00")))))
    ≡ not (
        (eval read_digit ltb leb (λ a b. a == b) request (field_node response false)).absent
        || (eval read_digit ltb leb
            (λ a b. a == b)
            request
            (lit_node (str_value (codes "00")))).absent)
      && not (
          truth (
            eval read_digit ltb leb
              (λ a b. a == b)
              request
              (cmp_node
                (field_node response false)
                (codes "==")
                (lit_node (str_value (codes "00"))))))
unequal_iff_example =
    unequal_iff read_digit ltb leb (λ a b. a == b) request (field_node response false)
      (lit_node (str_value (codes "00")))

parse_path-render-parse_path_example :
    parse_path (render (record { de = 55; subs = codes "9F02" ∷ []; pos = 6 })) 6
    ≡ some (record { de = 55; subs = codes "9F02" ∷ []; pos = 6 })
parse_path-render-parse_path_example =
    parse_path-render-parse_path (codes "055.9F02") 6
      (record { de = 55; subs = codes "9F02" ∷ []; pos = 6 }) (unfold parse_path in refl)
      (omega arith)
