-- ===== src/Conductor/Tree.antt =====
-- pkg/gears/native/conductor/tree.go: the tree and `pick`.
pub mod Choice
pub mod Least
pub mod Growth
pub mod Found
use fluxrig.Prelude.{
  ℕ, zero, suc, ◌+◌, ◌%◌, ◌^◌, Bool, true, false, ◌||◌, List, [], ◌∷◌, ◌++◌, Option, none, some,
  Bytes, length, get_or, ltb, ◌==◌, if◌then◌else◌,
}

pub data Kind : Type 0 where
  failover round_robin least_loaded : Kind

-- A node holds its children, the cached leaf ports and the number of its counter's cell.
mutual
  pub data Dest : Type 0 where
    leaf : Bytes → Dest
    node : Kind → Forest → List Bytes → ℕ → Dest

  pub data Forest : Type 0 where
    nil : Forest
    cons : Dest → Forest → Forest

pub record Selection : Type 0 where
  pub available : Bytes → Bool
  pub load : Bytes → ℕ

abbrev pub Counters : Type 0
Counters = ℕ → ℕ

-- `rr.Add(1) - 1`: the value before, and the counters after.
unfoldable pub tick : ℕ → Counters → ℕ × Counters
tick cell s = (s cell, λ c. if c == cell then (s c + 1) % 2 ^ 64 else s c)

unfoldable mutual
  -- `leaves`, and its loop over the children; `out` is the list appended to.
  pub leaves : Dest → List Bytes → List Bytes
  leaves (leaf p) out = out ++ (p ∷ [])
  leaves (node k cs [] cell) out = leaves_all cs out
  leaves (node k cs (c ∷ cached) cell) out = out ++ (c ∷ cached)

  pub leaves_all : Forest → List Bytes → List Bytes
  leaves_all nil out = out
  leaves_all (cons c cs) out = leaves_all cs (leaves c out)

unfoldable mutual
  pub contains_least_loaded : Dest → Bool
  contains_least_loaded (leaf p) = false
  contains_least_loaded (node least_loaded cs cached cell) = true
  contains_least_loaded (node failover cs cached cell) = any_least_loaded cs
  contains_least_loaded (node round_robin cs cached cell) = any_least_loaded cs

  pub any_least_loaded : Forest → Bool
  any_least_loaded nil = false
  any_least_loaded (cons c cs) = contains_least_loaded c || any_least_loaded cs

abbrev pub is_empty : Bytes → Bool
is_empty [] = true
is_empty (b ∷ bs) = false

-- The loop of `strategyRoundRobin`: the rounds left, the number of this one, and the children by
-- their positions.
unfoldable pub rotate :
    (ℕ → Counters → Bytes × Counters) → ℕ → ℕ → ℕ → ℕ → Counters → Bytes × Counters
rotate child zero i start count s = ([], s)
rotate child (suc rounds) i start count s =
    let (port, s') = child ((start + i) % 2 ^ 64 % count) s in
    elim (is_empty port) [ false ↦ (port, s') | true ↦ rotate child rounds (i + 1) start count s' ]

-- A candidate of `strategyLeastLoaded`: a child's position and its load.
abbrev pub Candidate : Type 0
Candidate = ℕ × ℕ

unfoldable pub min_load : ℕ → List Candidate → ℕ
min_load m [] = m
min_load m ((i, l) ∷ cs) = min_load (if ltb l m then l else m) cs

unfoldable pub tied : ℕ → List Candidate → List ℕ
tied m [] = []
tied m ((i, l) ∷ cs) = if l == m then i ∷ tied m cs else tied m cs

-- The last loop: any candidate that answers.
unfoldable pub any_candidate :
    (ℕ → Counters → Bytes × Counters) → List Candidate → Counters → Bytes × Counters
any_candidate child [] s = ([], s)
any_candidate child ((i, l) ∷ cs) s =
    let (port, s') = child i s in
    elim (is_empty port) [ false ↦ (port, s') | true ↦ any_candidate child cs s' ]

-- `case strategyLeastLoaded`, behind the loop that collects the candidates.
unfoldable pub least :
    (ℕ → Counters → Bytes × Counters) → List Candidate → ℕ → Counters → Bytes × Counters
unfolding min_load tied any_candidate tick
least child [] cell s = ([], s)
least child ((i, l) ∷ cands) cell s =
    let ties = tied (min_load l cands) ((i, l) ∷ cands) in
    let (turn, s') = tick cell s in
    let (port, s'') = child (get_or ties (turn % length ties) 0) s' in
    elim (is_empty port) [ false ↦ (port, s'') | true ↦ any_candidate child ((i, l) ∷ cands) s'' ]

abbrev pub size : Forest → ℕ
size nil = 0
size (cons c cs) = suc (size cs)

module _ (sel : Selection) where
  open sel use {available, load}

  unfoldable pub any_available : List Bytes → Bool
  any_available [] = false
  any_available (p ∷ ps) = available p || any_available ps

  unfoldable pub available_under : Dest → Bool
  unfolding any_available
  available_under (leaf p) = available p
  available_under (node k cs cached cell) = any_available cached

  unfoldable pub total_load : List Bytes → ℕ
  total_load [] = 0
  total_load (p ∷ ps) = load p + total_load ps

  -- The total is an int; that it overflows is left out.
  unfoldable pub subtree_load : Dest → ℕ
  unfolding total_load
  subtree_load (leaf p) = load p
  subtree_load (node k cs cached cell) = total_load cached

  unfoldable pub candidates : Forest → ℕ → List Candidate
  unfolding available_under subtree_load
  candidates nil i = []
  candidates (cons c cs) i =
      let rest = candidates cs (i + 1) in
      if available_under c then (i, subtree_load c) ∷ rest else rest

  unfoldable mutual
    pub pick : Dest → Counters → Bytes × Counters
    pick (leaf p) s = (if available p then p else [], s)
    pick (node failover cs cached cell) s = pick_first cs s
    pick (node round_robin cs cached cell) s =
        let (start, s') = tick cell s in rotate (pick_nth cs) (size cs) 0 start (size cs) s'
    pick (node least_loaded cs cached cell) s = least (pick_nth cs) (candidates cs 0) cell s

    -- The loop of `strategyFailover`.
    pub pick_first : Forest → Counters → Bytes × Counters
    pick_first nil s = ([], s)
    pick_first (cons c cs) s =
        let (port, s') = pick c s in
        elim (is_empty port) [ false ↦ (port, s') | true ↦ pick_first cs s' ]

    -- `n.children[i].pick(s)`; no position is out of range.
    pub pick_nth : Forest → ℕ → Counters → Bytes × Counters
    pick_nth nil i s = ([], s)
    pick_nth (cons c cs) zero s = pick c s
    pick_nth (cons c cs) (suc i) s = pick_nth cs i s
