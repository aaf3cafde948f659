-- ===== src/Conductor/Tree/Growth.antt =====
-- How far one `pick` moves the counters of the nodes, and that it finds a port where one is available.
use fluxrig.Prelude.{ℕ, zero, suc, ◌+◌, ◌%◌, ◌^◌, ◌≤◌, List, [], ◌∷◌, Bytes, arith, length, get_or}
use fluxrig.Conductor.Tree.{
  failover, round_robin, least_loaded, Dest, leaf, node, Forest, nil, cons, Selection, Counters,
  tick, rotate, Candidate, min_load, tied, any_candidate, least, size, candidates, pick, pick_first,
  pick_nth,
}

unfoldable pub times : ℕ → ℕ → ℕ
times zero k = 0
times (suc n) k = k + times n k

-- How often a pick reaches a node under a tree, at most.
unfoldable mutual
  pub reach : Dest → ℕ
  reach (leaf p) = 0
  reach (node k cs cached cell) = 1 + size cs + times (suc (size cs)) (reach_all cs)

  pub reach_all : Forest → ℕ
  reach_all nil = 0
  reach_all (cons c cs) = reach c + reach_all cs

-- The counters are the same up to so many ticks.
abbrev pub Within : ℕ → Counters → Counters → Type 0
Within n s s' = (c : ℕ) → s' c ≤ s c + n

pub tick-Within : (cell : ℕ) (s : Counters) → Within 1 s (tick cell s).1
unfolding tick
tick-Within cell s c = ground arith

module _ (child : ℕ → Counters → Bytes × Counters) (k : ℕ)
    (each : (i : ℕ) (s : Counters) → Within k s (child i s).1) where
  rotate-Within :
      (rounds i start count : ℕ) (s : Counters)
      → Within (times rounds k) s (rotate child rounds i start count s).1
  unfolding rotate times
  rotate-Within zero i start count s c = omega arith
  rotate-Within (suc rounds) i start count s c =
      let j = (start + i) % 2 ^ 64 % count in
      ground (arith, each j s c, rotate-Within rounds (i + 1) start count (child j s).1 c)

  any_candidate-Within :
      (cands : List Candidate) (s : Counters)
      → Within (times (length cands) k) s (any_candidate child cands s).1
  unfolding any_candidate times
  any_candidate-Within [] s c = omega arith
  any_candidate-Within ((i, l) ∷ cs) s c =
      ground (arith, each i s c, any_candidate-Within cs (child i s).1 c)

  least-Within :
      (cands : List Candidate) (cell : ℕ) (s : Counters)
      → Within (1 + times (suc (length cands)) k) s (least child cands cell s).1
  unfolding least times
  least-Within [] cell s c = omega arith
  least-Within ((i, l) ∷ cs) cell s c =
      let ties = tied (min_load l cs) ((i, l) ∷ cs) in
      let s1 = (tick cell s).1 in
      let j = get_or ties ((tick cell s).0 % length ties) 0 in
      ground (
        arith,
        tick-Within cell s c,
        each j s1 c,
        any_candidate-Within ((i, l) ∷ cs) (child j s1).1 c,
      )

times-le : (m n k : ℕ) → m ≤ n → times m k ≤ times n k
unfolding times
times-le zero n k h = omega arith
times-le (suc m) zero k h = omega arith
times-le (suc m) (suc n) k h = omega (arith, times-le m n k (omega arith))

length-candidates : (sel : Selection) (cs : Forest) (i : ℕ) → length (candidates sel cs i) ≤ size cs
unfolding candidates
length-candidates sel nil i = omega arith
length-candidates sel (cons c cs) i = ground (arith, length-candidates sel cs (i + 1))

module _ (sel : Selection) where
  mutual
    unfolding pick reach times

    pub pick-Within : (d : Dest) (s : Counters) → Within (reach d) s (pick sel d s).1
    pick-Within (leaf p) s c = omega arith
    pick-Within (node failover cs cached cell) s c = omega (arith, pick_first-Within cs s c)
    pick-Within (node round_robin cs cached cell) s c = omega (
      arith,
      tick-Within cell s c,
      rotate-Within (pick_nth sel cs) (reach_all cs) (pick_nth-Within cs) (size cs) 0
          (tick cell s).0 (size cs) (tick cell s).1 c,
    )
    pick-Within (node least_loaded cs cached cell) s c = omega (
      arith,
      least-Within (pick_nth sel cs) (reach_all cs) (pick_nth-Within cs) (candidates sel cs 0) cell
          s c,
      times-le (length (candidates sel cs 0)) (size cs) (reach_all cs) (length-candidates sel cs 0),
    )

    pub pick_first-Within :
        (cs : Forest) (s : Counters) → Within (reach_all cs) s (pick_first sel cs s).1
    pick_first-Within nil s c = omega arith
    pick_first-Within (cons d cs) s c =
        ground (arith, pick-Within d s c, pick_first-Within cs (pick sel d s).1 c)

    pub pick_nth-Within :
        (cs : Forest) (i : ℕ) (s : Counters) → Within (reach_all cs) s (pick_nth sel cs i s).1
    pick_nth-Within nil i s c = omega arith
    pick_nth-Within (cons d cs) zero s c = omega (arith, pick-Within d s c)
    pick_nth-Within (cons d cs) (suc i) s c = omega (arith, pick_nth-Within cs i s c)
