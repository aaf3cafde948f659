-- ===== src/Conductor/Routes/Dispatch.antt =====
-- Which route serves a message, and which port it is sent to.
use fluxrig.Prelude.{
  ℕ, ◌≡◌, refl, ap, true, false, arith, false, ◌⊎◌, List, [], ◌∷◌, ◌++◌, Option, none, some, Bytes,
  All, codes, equal, equal_iff, has_prefix, inl, inr, Bool-cases, All-append, All-append_inv,
}
use mathlib.Core.Path.{subst}
use fluxrig.Conductor.Tree.{
  Dest, leaf, node, Forest, nil, cons, Selection, Counters, any_available, pick, is_empty,
}
use fluxrig.Conductor.Tree.Growth.{reach}
use fluxrig.Conductor.Tree.Found.{HasRoom, pick-finds}
use fluxrig.Conductor.Tree.Choice.{ports, ports_all, member, pick-IsChoice}
use fluxrig.Conductor.Parse.{Value}
use fluxrig.Conductor.Parse.Shape.{IsTree, IsForest}
use fluxrig.Conductor.Routes.{Route, matches, match_route, parse_routes}
use fluxrig.Conductor.Routes.Table.{IsRoute, parse_routes-IsRoute}

-- What the answer says of the table: the route, which matches, behind routes that do not; or no route
-- matches.
abbrev pub IsFirst : (Bytes → Option Bytes) → List Route → Option Route → Type 0
IsFirst get rs none = All (λ r. matches get r ≡ false) rs
IsFirst get rs (some r) =
    (front : List Route) × (back : List Route) × (rs ≡ front ++ (r ∷ back))
    × All (λ x. matches get x ≡ false) front
    × (matches get r ≡ true)

IsFirst-later :
    (get : Bytes → Option Bytes) (r : Route) (rs : List Route) (o : Option Route)
    → matches get r ≡ false
    → IsFirst get rs o
    → IsFirst get (r ∷ rs) o
IsFirst-later get r rs none m h = (m, h)
IsFirst-later get r rs (some x) m (front, back, e, v, mx) =
    (r ∷ front, back, ap (◌∷◌ r) e, (m, v), mx)

-- The first route that matches serves a message, and without an answer none matches.
pub match_route-IsFirst :
    (get : Bytes → Option Bytes) (rs : List Route) → IsFirst get rs (match_route get rs)
unfolding match_route
match_route-IsFirst get [] = tt
match_route-IsFirst get (r ∷ rs) = elim (Bool-cases (matches get r)) [
  | inl m ↦ rw m ([], rs, refl, tt, m)
  | inr m ↦ rw m (IsFirst-later get r rs (match_route get rs) m (match_route-IsFirst get rs))
]

abbrev pub IsOutput : Bytes → Type 0
IsOutput p = has_prefix p (codes "out") ≡ true

mutual
  ports-IsOutput : (d : Dest) → IsTree d → All IsOutput (ports d)
  ports-IsOutput (leaf p) v = (v, tt)
  ports-IsOutput (node k cs cached cell) v = ports_all-IsOutput cs v.2

  ports_all-IsOutput : (cs : Forest) → IsForest cs → All IsOutput (ports_all cs)
  ports_all-IsOutput nil v = tt
  ports_all-IsOutput (cons c cs) (vc, v) =
      All-append IsOutput (ports c) (ports_all cs) (ports-IsOutput c vc) (ports_all-IsOutput cs v)

member-All :
    (P : Bytes → Type 0) (p : Bytes) (ps : List Bytes) → All P ps → member p ps ≡ true → P p
member-All P p [] v h = cc
member-All P p (q ∷ ps) (vq, v) h = elim (Bool-cases (equal p q)) [
  | inl e ↦ rw ((equal_iff p q).0 e) vq
  | inr e ↦ member-All P p ps v (rw e at h)
]

IsFirst-All :
    (P : Route → Type 0) (get : Bytes → Option Bytes) (rs : List Route) (r : Route)
    → IsFirst get rs (some r)
    → All P rs
    → P r
IsFirst-All P get rs r (front, back, at, before, m) v =
    (All-append_inv P front (r ∷ back) (subst (All P) at v)).1.0

matched-IsRoute :
    (get : Bytes → Option Bytes) (rs : List Route) (r : Route)
    → All IsRoute rs
    → match_route get rs ≡ some r
    → IsRoute r
matched-IsRoute get rs r v e = IsFirst-All IsRoute get rs r (rw e at (match_route-IsFirst get rs)) v

none_available :
    (sel : Selection) (ps : List Bytes)
    → any_available sel ps ≡ false
    → All (λ p. sel.available p ≡ false) ps
unfolding any_available
none_available sel [] h = tt
none_available sel (p ∷ ps) h = (ground arith, none_available sel ps (ground arith))

-- A message that a parsed table has a route for is sent to an available output port of that route's
-- tree, and none is chosen only if no port of the tree is available, provided that no counter is so
-- near to its wrap at 2^64 that the ticks of this pick can reach it.
pub pick-IsOutput :
    (v : Value) (cell : ℕ) (get : Bytes → Option Bytes) (sel : Selection) (s : Counters)
    {rs : List Route} {next : ℕ} {r : Route}
    → parse_routes v cell ≡ some (rs, next)
    → match_route get rs ≡ some r
    → HasRoom (reach r.tree) s
    → (((pick sel r.tree s).0 ≡ []) × All (λ p. sel.available p ≡ false) (ports r.tree))
      ⊎ ((sel.available (pick sel r.tree s).0 ≡ true)
          × (member (pick sel r.tree s).0 (ports r.tree) ≡ true)
          × IsOutput (pick sel r.tree s).0)
pick-IsOutput v cell get sel s {rs} {next} {r} parsed found room =
    let route : IsRoute r = matched-IsRoute get rs r (parse_routes-IsRoute v cell parsed) found in
    elim (pick-IsChoice sel r.tree s) [
      | inl e ↦ elim (Bool-cases (any_available sel (ports r.tree))) [
        | inl some_there ↦
            absurd (some_port e (pick-finds sel r.tree s route.well_formed some_there room))
        | inr none_there ↦ inl (e, none_available sel (ports r.tree) none_there)
      ]
      | inr (a, m) ↦ inr (
        a,
        m,
        member-All IsOutput (pick sel r.tree s).0 (ports r.tree)
            (ports-IsOutput r.tree route.well_formed) m,
      )
    ]
  where
    some_port : {p : Bytes} → p ≡ [] → is_empty p ≡ false → ⊥
    some_port e h = let x : is_empty [] ≡ false = rw e at h in cc
