-- ===== src/Tests/Choice.antt =====
-- A destination tree of a scenario, parsed and asked for a port.
use fluxrig.Prelude.{
  arith, ◌⊎◌, All, Bytes, List, decimal, Option, none, if◌then◌else◌, true, false, not, ◌≡◌, refl,
  [], ◌∷◌, some, codes, equal, has_prefix,
}
use fluxrig.Conductor.Tree.{
  failover, round_robin, least_loaded, tick, available_under, Forest, Dest, leaf, node, nil, cons,
  Selection, pick, leaves, leaves_all, contains_least_loaded,
}
use fluxrig.Conductor.Tree.Choice.{ports, member, IsChoice, pick-IsChoice}
use fluxrig.Conductor.Tree.Least.{AllChildren, IsLeast, pick-IsLeast}
use fluxrig.Conductor.Parse.{
  Value, str, obj, arr, end, entry, last, item, parse_dest, kind_of, make_node,
}
use fluxrig.Conductor.Parse.Shape.{IsTree, parse_dest-IsTree}
use fluxrig.Conductor.Routes.{Route, make_route, match_route, parse_routes}
use fluxrig.Conductor.Routes.Table.{IsRoute, parse_routes-IsRoute}
use fluxrig.Conductor.Tree.Growth.{times, reach}
use fluxrig.Conductor.Routes.Dispatch.{IsFirst, match_route-IsFirst, IsOutput, pick-IsOutput}

-- {"failover": ["out1", {"round_robin": ["out2", "out3"]}]}
abbrev document : Value
document = obj (
    entry (codes "failover")
      (arr (
        item (str (codes "out1")) (
          item
            (obj (
              entry (codes "round_robin")
                (arr (item (str (codes "out2")) (item (str (codes "out3")) last))) end))
            last)))
      end)

abbrev tree : Dest
tree =
    node failover
      (cons (leaf (codes "out1")) (
        cons
          (node round_robin (cons (leaf (codes "out2")) (cons (leaf (codes "out3")) nil))
            (codes "out2" ∷ codes "out3" ∷ []) 1)
          nil))
      (codes "out1" ∷ codes "out2" ∷ codes "out3" ∷ []) 0

document_run : parse_dest document 0 ≡ some (tree, 2)
unfolding parse_dest kind_of make_node equal has_prefix leaves leaves_all
document_run = refl

parse_dest-IsTree_example : IsTree tree
parse_dest-IsTree_example = parse_dest-IsTree document 0 document_run

-- All ports but out1 are available.
abbrev without_out1 : Selection
without_out1 = record { available = λ p. not (equal p (codes "out1")); load = λ p. 0 }

pick-IsChoice_run : IsChoice without_out1 (ports tree) (pick without_out1 tree (λ c. 0)).0
pick-IsChoice_run = pick-IsChoice without_out1 tree (λ c. 0)

-- A route for cards that start with 4, and a catch-all.
abbrev table : Value
table = arr (
    item
      (obj (
        entry (codes "match")
          (obj (
            entry (codes "field") (str (codes "pan"))
              (entry (codes "prefix") (str (codes "4")) end)))
          (entry (codes "destination") document end)))
      (item (obj (entry (codes "destination") (str (codes "out9")) end)) last))

abbrev card : Bytes → Option Bytes
card field = if equal field (codes "pan") then some (codes "4111") else none

abbrev first_route : Route
first_route = make_route (codes "route-0") (codes "pan", codes "4") tree

abbrev routes : List Route
routes = first_route ∷ make_route (codes "route-1") ([], []) (leaf (codes "out9")) ∷ []

table_run : parse_routes table 0 ≡ some (routes, 2)
unfolding parse_routes kind_of make_node equal has_prefix leaves leaves_all decimal
    contains_least_loaded
table_run = refl

card_run : match_route card routes ≡ some first_route
unfolding match_route equal
card_run = refl

parse_routes-IsRoute_example : All IsRoute routes
parse_routes-IsRoute_example = parse_routes-IsRoute table 0 table_run

match_route-IsFirst_example : IsFirst card routes (match_route card routes)
match_route-IsFirst_example = match_route-IsFirst card routes

pick-IsOutput_example :
    (((pick without_out1 tree (λ c. 0)).0 ≡ [])
      × All (λ p. without_out1.available p ≡ false) (ports tree))
    ⊎ ((without_out1.available (pick without_out1 tree (λ c. 0)).0 ≡ true)
        × (member (pick without_out1 tree (λ c. 0)).0 (ports tree) ≡ true)
        × IsOutput (pick without_out1 tree (λ c. 0)).0)
unfolding reach times
pick-IsOutput_example =
    pick-IsOutput table 0 card without_out1 (λ c. 0) table_run card_run (λ c. omega arith)

-- Two ports, of which the second has less to do.
abbrev ports_two : Forest
ports_two = cons (leaf (codes "out1")) (cons (leaf (codes "out2")) nil)

abbrev busy_out1 : Selection
busy_out1 = record { available = λ p. true; load = λ p. if equal p (codes "out1") then 3 else 1 }

pick-IsLeast_example :
    (((pick busy_out1 (node least_loaded ports_two [] 0) (λ c. 0)).0 ≡ [])
      × AllChildren (λ d. available_under busy_out1 d ≡ false) ports_two)
    ⊎ ((c : Dest) × IsLeast busy_out1 ports_two c
        × (((pick busy_out1 c (tick 0 (λ c. 0)).1).0 ≡ [])
            ⊎ ((pick busy_out1 (node least_loaded ports_two [] 0) (λ c. 0)).0
                ≡ (pick busy_out1 c (tick 0 (λ c. 0)).1).0)))
pick-IsLeast_example = pick-IsLeast busy_out1 ports_two [] 0 (λ c. 0)
