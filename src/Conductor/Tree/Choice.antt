-- ===== src/Conductor/Tree/Choice.antt =====
-- What `pick` may return.
use fluxrig.Prelude.{
  ℕ, zero, suc, ◌+◌, ◌%◌, ◌^◌, ◌≡◌, refl, Bool, true, false, ◌||◌, List, [], ◌∷◌, ◌++◌, Bytes,
  equal, equal_refl, ◌⊎◌, inl, arith, length, get_or,
}
use fluxrig.Conductor.Tree.{
  failover, round_robin, least_loaded, Dest, leaf, node, Forest, nil, cons, Selection, Counters,
  tick, rotate, Candidate, min_load, tied, any_candidate, least, size, candidates, pick, pick_first,
  pick_nth,
}

-- The leaf ports of a tree, read off its shape.
abbrev mutual
  pub ports : Dest → List Bytes
  ports (leaf p) = p ∷ []
  ports (node k cs cached cell) = ports_all cs

  pub ports_all : Forest → List Bytes
  ports_all nil = []
  ports_all (cons c cs) = ports c ++ ports_all cs

abbrev pub member : Bytes → List Bytes → Bool
member p [] = false
member p (q ∷ qs) = equal p q || member p qs

member_left : (p : Bytes) (xs ys : List Bytes) → member p xs ≡ true → member p (xs ++ ys) ≡ true
member_left p [] ys h = cc
member_left p (x ∷ xs) ys h = ground (arith, member_left p xs ys)

member_right : (p : Bytes) (xs ys : List Bytes) → member p ys ≡ true → member p (xs ++ ys) ≡ true
member_right p [] ys h = h
member_right p (x ∷ xs) ys h = ground (arith, member_right p xs ys h)

module _ (sel : Selection) where
  -- Nothing, or an available one of the ports.
  abbrev pub IsChoice : List Bytes → Bytes → Type 0
  IsChoice ps port = (port ≡ []) ⊎ ((sel.available port ≡ true) × (member port ps ≡ true))

  module _ (child : ℕ → Counters → Bytes × Counters) (ps : List Bytes)
      (each : (i : ℕ) (s : Counters) → IsChoice ps (child i s).0) where
    rotate-IsChoice :
        (rounds i start count : ℕ) (s : Counters)
        → IsChoice ps (rotate child rounds i start count s).0
    unfolding rotate
    rotate-IsChoice zero i start count s = inl refl
    rotate-IsChoice (suc rounds) i start count s =
        let r = child ((start + i) % 2 ^ 64 % count) s in
        ground (
          arith,
          each ((start + i) % 2 ^ 64 % count) s,
          rotate-IsChoice rounds (i + 1) start count r.1,
        )

    any_candidate-IsChoice :
        (cands : List Candidate) (s : Counters) → IsChoice ps (any_candidate child cands s).0
    unfolding any_candidate
    any_candidate-IsChoice [] s = inl refl
    any_candidate-IsChoice ((i, l) ∷ cs) s =
        ground (arith, each i s, any_candidate-IsChoice cs (child i s).1)

    least-IsChoice :
        (cands : List Candidate) (cell : ℕ) (s : Counters)
        → IsChoice ps (least child cands cell s).0
    unfolding least
    least-IsChoice [] cell s = inl refl
    least-IsChoice ((i, l) ∷ cands) cell s =
        let ties = tied (min_load l cands) ((i, l) ∷ cands) in
        let t = tick cell s in
        let at = get_or ties (t.0 % length ties) 0 in
        ground (arith, each at t.1, any_candidate-IsChoice ((i, l) ∷ cands) (child at t.1).1)

  mutual
    unfolding pick pick_first pick_nth

    choice : (d : Dest) (s : Counters) → IsChoice (ports d) (pick sel d s).0
    choice (leaf p) s = ground (arith, equal_refl p)
    choice (node failover cs cached cell) s = first cs s
    choice (node round_robin cs cached cell) s =
        rotate-IsChoice (pick_nth sel cs) (ports_all cs) (λ i s'. nth cs i s') (size cs) 0
          (tick cell s).0 (size cs) (tick cell s).1
    choice (node least_loaded cs cached cell) s =
        least-IsChoice (pick_nth sel cs) (ports_all cs) (λ i s'. nth cs i s') (candidates sel cs 0)
          cell s

    first : (cs : Forest) (s : Counters) → IsChoice (ports_all cs) (pick_first sel cs s).0
    first nil s = inl refl
    first (cons c cs) s =
        let r = pick sel c s in
        ground (
          arith,
          choice c s,
          member_left r.0 (ports c) (ports_all cs),
          first cs r.1,
          member_right (pick_first sel cs r.1).0 (ports c) (ports_all cs),
        )

    nth : (cs : Forest) (i : ℕ) (s : Counters) → IsChoice (ports_all cs) (pick_nth sel cs i s).0
    nth nil i s = inl refl
    nth (cons c cs) zero s =
        ground (arith, choice c s, member_left (pick sel c s).0 (ports c) (ports_all cs))
    nth (cons c cs) (suc i) s =
        ground (arith, nth cs i s, member_right (pick_nth sel cs i s).0 (ports c) (ports_all cs))

  -- Whatever the tree and its counters, the port that `pick` selects is a leaf of the tree and is
  -- available; or it selects none.
  pub pick-IsChoice : (d : Dest) (s : Counters) → IsChoice (ports d) (pick sel d s).0
  pick-IsChoice d s = choice d s
