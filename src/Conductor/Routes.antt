-- ===== src/Conductor/Routes.antt =====
-- pkg/gears/native/conductor/route.go, and `matchRoute` of gear.go. What a message holds at a field, as
-- text, is a function: `msg.Get` with `sdk.FieldToKeyPart`, or nothing for a message without fields.
pub mod Table
pub mod Dispatch
use fluxrig.Prelude.{
  ℕ, zero, suc, ◌+◌, Bool, true, false, List, [], ◌∷◌, ◌++◌, Option, none, some, Bytes, codes,
  decimal, equal, has_prefix, if◌then◌else◌,
}
use fluxrig.Conductor.Tree.{Dest, leaves, contains_least_loaded, is_empty}
use fluxrig.Conductor.Parse.{
  Value, str, obj, arr, other, Entries, end, entry, Items, last, item, parse_dest,
}

pub record Route : Type 0 where
  pub name : Bytes
  pub match_field : Bytes
  pub match_prefix : Bytes
  pub tree : Dest
  pub leaf_ports : List Bytes
  pub needs_load : Bool

-- `matches`.
unfoldable pub matches : (Bytes → Option Bytes) → Route → Bool
unfolding has_prefix
matches get r =
    if is_empty r.match_field
    then true
    else elim (get r.match_field) [ none ↦ false | some v ↦ has_prefix v r.match_prefix ]

-- `matchRoute`; `none` is nil.
unfoldable pub match_route : (Bytes → Option Bytes) → List Route → Option Route
unfolding matches
match_route get [] = none
match_route get (r ∷ rs) = let later = match_route get rs in if matches get r then some r else later

-- `m[key]` with its second result.
unfoldable pub lookup : Bytes → Entries → Option Value
unfolding equal
lookup key end = none
lookup key (entry name v es) = let rest = lookup key es in if equal name key then some v else rest

-- The string under a key, or a default.
abbrev pub text_or : Option Value → Bytes → Bytes
text_or (some (str s)) default = s
text_or _ default = default

abbrev pub match_clause : Entries → Option (Bytes × Bytes)
match_clause mm =
    let field = text_or (lookup (codes "field") mm) [] in
    if is_empty field then none else some (field, text_or (lookup (codes "prefix") mm) [])

-- The `match` of a route: its field and its prefix.
abbrev pub parse_match : Option Value → Option (Bytes × Bytes)
parse_match none = some ([], [])
parse_match (some (obj mm)) = match_clause mm
parse_match (some _) = none

abbrev pub make_route : Bytes → Bytes × Bytes → Dest → Route
make_route name (field, prefix) tree = record {
  name = name;
  match_field = field;
  match_prefix = prefix;
  tree = tree;
  leaf_ports = if contains_least_loaded tree then leaves tree [] else [];
  needs_load = contains_least_loaded tree;
}

-- The body of the loop, from the next free cell.
unfoldable pub parse_route : ℕ → Value → ℕ → Option (Route × ℕ)
unfolding parse_dest lookup
parse_route i (obj rm) cell =
    let name = text_or (lookup (codes "name") rm) (codes "route-" ++ decimal i) in
    elim (parse_match (lookup (codes "match") rm)) [
      | none ↦ none
      | some clause ↦ elim (lookup (codes "destination") rm) [
        | none ↦ none
        | some dv ↦ elim (parse_dest dv cell) [
          | none ↦ none
          | some (tree, next) ↦ some (make_route name clause tree, next)
        ]
      ]
    ]
parse_route i _ cell = none

abbrev pub route_and : Route → Option (List Route × ℕ) → Option (List Route × ℕ)
route_and r none = none
route_and r (some (rs, next)) = some (r ∷ rs, next)

unfoldable pub parse_route_list : Items → ℕ → ℕ → Option (List Route × ℕ)
unfolding parse_route
parse_route_list last i cell = some ([], cell)
parse_route_list (item v vs) i cell = elim (parse_route i v cell) [
  | none ↦ none
  | some (r, next) ↦ route_and r (parse_route_list vs (i + 1) next)
]

-- `parseRoutes`.
unfoldable pub parse_routes : Value → ℕ → Option (List Route × ℕ)
unfolding parse_route_list
parse_routes (arr (item v vs)) cell = parse_route_list (item v vs) 0 cell
parse_routes _ cell = none
