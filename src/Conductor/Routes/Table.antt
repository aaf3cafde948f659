-- ===== src/Conductor/Routes/Table.antt =====
-- The routing table that `parseRoutes` builds.
use fluxrig.Prelude.{
  ℕ, ◌+◌, ◌≡◌, ◌↔◌, refl, ap, true, not, ◌||◌, List, [], ◌∷◌, ◌++◌, Option, none, some, Bytes, All,
  codes, decimal, arith, inl, inr, Bool-cases, Option-cases, if◌then◌else◌,
}
use fluxrig.Conductor.Tree.{
  Kind, failover, round_robin, least_loaded, Dest, leaf, node, Forest, nil, cons,
  contains_least_loaded, any_least_loaded, is_empty,
}
use fluxrig.Conductor.Tree.Choice.{ports}
use fluxrig.Conductor.Parse.{Value, str, obj, arr, other, Items, last, item, parse_dest}
use fluxrig.Conductor.Parse.Shape.{IsTree, parse_dest-IsTree, leaves-ports}
use fluxrig.Conductor.Routes.{
  Route, lookup, text_or, parse_match, make_route, parse_route, parse_route_list, parse_routes,
}

-- A tree stands among the trees of a forest.
pub data Among (d : Dest) : Forest → Type 0 where
  first : {cs : Forest} → Among d (cons d cs)
  later : {c : Dest} {cs : Forest} → Among d cs → Among d (cons c cs)

-- The first tree is the second, or stands somewhere below it.
pub data Within (d : Dest) : Dest → Type 0 where
  itself : Within d d
  below :
      {k : Kind} {cs : Forest} {cached : List Bytes} {cell : ℕ} (c : Dest)
      → Among c cs
      → Within d c
      → Within d (node k cs cached cell)

-- Some node of the tree, at whatever depth, sends to its least loaded child.
abbrev pub BalancesByLoad : Dest → Type 0
BalancesByLoad d =
    (cs : Forest) × (cached : List Bytes) × (cell : ℕ) × Within (node least_loaded cs cached cell) d

abbrev SomeBalances : Forest → Type 0
SomeBalances cs = (c : Dest) × Among c cs × BalancesByLoad c

mutual
  unfolding contains_least_loaded any_least_loaded

  contains_least_loaded-BalancesByLoad :
      (d : Dest) → contains_least_loaded d ≡ true → BalancesByLoad d
  contains_least_loaded-BalancesByLoad (leaf p) h = cc
  contains_least_loaded-BalancesByLoad (node least_loaded cs cached cell) h =
      (cs, cached, cell, itself)
  contains_least_loaded-BalancesByLoad (node failover cs cached cell) h =
      let (c, a, (ds, ca, ce, w)) = any_least_loaded-SomeBalances cs h in (ds, ca, ce, below c a w)
  contains_least_loaded-BalancesByLoad (node round_robin cs cached cell) h =
      let (c, a, (ds, ca, ce, w)) = any_least_loaded-SomeBalances cs h in (ds, ca, ce, below c a w)

  any_least_loaded-SomeBalances : (cs : Forest) → any_least_loaded cs ≡ true → SomeBalances cs
  any_least_loaded-SomeBalances nil h = cc
  any_least_loaded-SomeBalances (cons c cs) h = elim (Bool-cases (contains_least_loaded c)) [
    | inl e ↦ (c, first, contains_least_loaded-BalancesByLoad c e)
    | inr e ↦ let (d, a, b) = any_least_loaded-SomeBalances cs (rw e at h) in (d, later a, b)
  ]

Among-any_least_loaded :
    {c : Dest} {cs : Forest}
    → Among c cs
    → contains_least_loaded c ≡ true
    → any_least_loaded cs ≡ true
unfolding contains_least_loaded any_least_loaded
Among-any_least_loaded first h = ground arith
Among-any_least_loaded (later a) h = let rest = Among-any_least_loaded a h in ground arith

node-contains_least_loaded :
    (k : Kind) (cs : Forest) (cached : List Bytes) (cell : ℕ)
    → any_least_loaded cs ≡ true
    → contains_least_loaded (node k cs cached cell) ≡ true
unfolding contains_least_loaded any_least_loaded
node-contains_least_loaded least_loaded cs cached cell h = refl
node-contains_least_loaded failover cs cached cell h = h
node-contains_least_loaded round_robin cs cached cell h = h

Within-contains_least_loaded :
    {d t : Dest} → Within d t → contains_least_loaded d ≡ true → contains_least_loaded t ≡ true
Within-contains_least_loaded itself h = h
Within-contains_least_loaded (below {k} {cs} {cached} {cell} c a w) h =
    node-contains_least_loaded k cs cached cell
      (Among-any_least_loaded a (Within-contains_least_loaded w h))

least_loaded-contains_least_loaded :
    (cs : Forest) (cached : List Bytes) (cell : ℕ)
    → contains_least_loaded (node least_loaded cs cached cell) ≡ true
unfolding contains_least_loaded
least_loaded-contains_least_loaded cs cached cell = refl

contains_least_loaded_iff : (d : Dest) → (contains_least_loaded d ≡ true) ↔ BalancesByLoad d
contains_least_loaded_iff d = (
  contains_least_loaded-BalancesByLoad d,
  λ b.
      let (cs, cached, cell, w) = b in
      Within-contains_least_loaded w (least_loaded-contains_least_loaded cs cached cell),
)

-- The tree is well formed; the flag says whether a node of the tree sends to its least loaded child,
-- and the leaf ports are at hand exactly then; and a catch-all has no prefix.
pub record IsRoute (r : Route) : Type 0 where
  pub well_formed : IsTree r.tree
  pub load : (r.needs_load ≡ true) ↔ BalancesByLoad r.tree
  pub snapshot : r.leaf_ports ≡ (if r.needs_load then ports r.tree else [])
  pub catch_all : (not (is_empty r.match_field) || is_empty r.match_prefix) ≡ true

abbrev Clause : Bytes × Bytes → Type 0
Clause (field, prefix) = (not (is_empty field) || is_empty prefix) ≡ true

parse_match-Clause : (v : Option Value) (c : Bytes × Bytes) → parse_match v ≡ some c → Clause c
parse_match-Clause none c h = cc
parse_match-Clause (some (obj mm)) c h =
    elim (Bool-cases (is_empty (text_or (lookup (codes "field") mm) []))) [
      | inl e ↦ absurd (ground arith)
      | inr e ↦ ground arith
    ]
parse_match-Clause (some (str s)) c h = cc
parse_match-Clause (some (arr items)) c h = cc
parse_match-Clause (some other) c h = cc

make_route-IsRoute :
    (name : Bytes) (c : Bytes × Bytes) (tree : Dest)
    → Clause c
    → IsTree tree
    → IsRoute (make_route name c tree)
make_route-IsRoute name (field, prefix) tree vc vt = record {
  well_formed = vt;
  load = contains_least_loaded_iff tree;
  snapshot = ap (λ l. if contains_least_loaded tree then l else []) (leaves-ports tree vt);
  catch_all = vc;
}

parse_route-IsRoute :
    (i : ℕ) (v : Value) (cell : ℕ) (r : Route) (next : ℕ)
    → parse_route i v cell ≡ some (r, next)
    → IsRoute r
unfolding parse_route
parse_route-IsRoute i (str s) cell r next h = cc
parse_route-IsRoute i (arr items) cell r next h = cc
parse_route-IsRoute i other cell r next h = cc
parse_route-IsRoute i (obj rm) cell r next h =
    elim (Option-cases (parse_match (lookup (codes "match") rm))) [
      | inl e ↦ absurd (ground arith)
      | inr (c, e) ↦ elim (Option-cases (lookup (codes "destination") rm)) [
        | inl e2 ↦ absurd (ground arith)
        | inr (dv, e2) ↦ elim (Option-cases (parse_dest dv cell)) [
          | inl e3 ↦ absurd (ground arith)
          | inr ((tree, next'), e3) ↦
              let name = text_or (lookup (codes "name") rm) (codes "route-" ++ decimal i) in
              let same : make_route name c tree ≡ r = ground arith in
              rw same at (
                make_route-IsRoute name c tree (parse_match-Clause (lookup (codes "match") rm) c e)
                  (parse_dest-IsTree dv cell e3))
        ]
      ]
    ]

list-IsRoute :
    (vs : Items) (i cell : ℕ) (rs : List Route) (next : ℕ)
    → parse_route_list vs i cell ≡ some (rs, next)
    → All IsRoute rs
unfolding parse_route_list
list-IsRoute last i cell rs next h = let nothing : [] ≡ rs = cc in rw (← nothing) tt
list-IsRoute (item v vs) i cell rs next h = elim (Option-cases (parse_route i v cell)) [
  | inl e ↦ absurd (ground arith)
  | inr ((r, next1), e) ↦ elim (Option-cases (parse_route_list vs (i + 1) next1)) [
    | inl e2 ↦ absurd (ground arith)
    | inr ((rs', next2), e2) ↦
        let both : (r ∷ rs') ≡ rs = ground arith in
        rw (← both)
          (parse_route-IsRoute i v cell r next1 e, list-IsRoute vs (i + 1) next1 rs' next2 e2)
  ]
]

-- Every route of a table that `parseRoutes` accepts has a well-formed tree; its flag is set exactly if
-- some node of the tree, at whatever depth, sends to its least loaded child, and its leaf ports are at
-- hand exactly then; and only a route with a field has a prefix.
pub parse_routes-IsRoute :
    (v : Value) (cell : ℕ) {rs : List Route} {next : ℕ}
    → parse_routes v cell ≡ some (rs, next)
    → All IsRoute rs
unfolding parse_routes
parse_routes-IsRoute (arr (item v vs)) cell {rs} {next} h =
    list-IsRoute (item v vs) 0 cell rs next h
parse_routes-IsRoute (arr last) cell h = cc
parse_routes-IsRoute (str s) cell h = cc
parse_routes-IsRoute (obj es) cell h = cc
parse_routes-IsRoute other cell h = cc
