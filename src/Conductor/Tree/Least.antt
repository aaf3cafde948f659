-- ===== src/Conductor/Tree/Least.antt =====
-- The child that a least-loaded node chooses.
use mathlib.Core.Path.{subst}
use native.Mathlib.Nat.{mod-lt}
use fluxrig.Prelude.{
  ℕ, zero, suc, ◌+◌, ◌%◌, ◌≤◌, ◌<◌, ◌≡◌, ◌⊎◌, refl, sym, ap, ◌∙◌, true, false, List, [], ◌∷◌,
  Option, none, some, Bytes, arith, length, get_or, All, inl, inr, ltb, ◌==◌, Bool-cases,
}
use fluxrig.Conductor.Tree.{
  least_loaded, Dest, node, Forest, nil, cons, Selection, Counters, tick, Candidate, min_load, tied,
  least, available_under, subtree_load, candidates, pick, pick_nth, is_empty,
}

-- `children[i]`.
abbrev pub child_at : Forest → ℕ → Option Dest
child_at nil i = none
child_at (cons c cs) zero = some c
child_at (cons c cs) (suc i) = child_at cs i

abbrev pub AllChildren : (Dest → Type 0) → Forest → Type 0
AllChildren P nil = Unit
AllChildren P (cons c cs) = P c × AllChildren P cs

min_load-le :
    (m : ℕ) (cs : List Candidate) → (min_load m cs ≤ m) × All (λ c. min_load m cs ≤ c.1) cs
unfolding min_load
min_load-le m [] = (omega arith, tt)
min_load-le m ((i, l) ∷ cs) = elim (Bool-cases (ltb l m)) [
  | inl less ↦
      let (h, hs) = min_load-le l cs in
      let e : min_load m ((i, l) ∷ cs) ≡ min_load l cs = rw less refl in
      subst (λ n. (n ≤ m) × ((n ≤ l) × All (λ c. n ≤ c.1) cs)) (sym e) (ground arith, (h, hs))
  | inr more ↦
      let (h, hs) = min_load-le m cs in
      let e : min_load m ((i, l) ∷ cs) ≡ min_load m cs = rw more refl in
      subst (λ n. (n ≤ m) × ((n ≤ l) × All (λ c. n ≤ c.1) cs)) (sym e) (h, (ground arith, hs))
]

-- The least load is the first one, or one of the others.
min_load-tied :
    (m : ℕ) (cs : List Candidate) → (min_load m cs ≡ m) ⊎ (0 < length (tied (min_load m cs) cs))
unfolding min_load tied
min_load-tied m [] = inl refl
min_load-tied m ((i, l) ∷ cs) = ground (arith, min_load-tied l cs, min_load-tied m cs)

tied-some : (i l : ℕ) (cs : List Candidate) → 0 < length (tied (min_load l cs) ((i, l) ∷ cs))
unfolding tied
tied-some i l cs = ground (arith, min_load-tied l cs)

tied-All :
    (P : Candidate → Type 0) (m : ℕ) (cs : List Candidate)
    → All P cs
    → All (λ i. P (i, m)) (tied m cs)
unfolding tied
tied-All P m [] v = tt
tied-All P m ((i, l) ∷ cs) (w, v) = elim (Bool-cases (l == m)) [
  | inl e ↦ let at : l ≡ m = ground arith in rw e (subst (λ n. P (i, n)) at w, tied-All P m cs v)
  | inr e ↦ rw e (tied-All P m cs v)
]

get_or-All : (P : ℕ → Type 0) (xs : List ℕ) (k d : ℕ) → All P xs → k < length xs → P (get_or xs k d)
get_or-All P [] k d v h = absurd (omega arith)
get_or-All P (x ∷ xs) zero d (w, v) h = w
get_or-All P (x ∷ xs) (suc k) d (w, v) h = get_or-All P xs k d v (omega arith)

candidates-cases :
    (xs : List Candidate) → (xs ≡ []) ⊎ ((x : Candidate) × (ys : List Candidate) × (xs ≡ x ∷ ys))
candidates-cases [] = inl refl
candidates-cases (x ∷ xs) = inr (x, xs, refl)

-- The position that is chosen, and the counters after.
abbrev chosen : ℕ → ℕ → List Candidate → ℕ → Counters → ℕ
chosen i l cands cell s =
    let ties = tied (min_load l cands) ((i, l) ∷ cands) in
    get_or ties ((tick cell s).0 % length ties) 0

empty-nil : (port : Bytes) → is_empty port ≡ true → port ≡ []
empty-nil [] h = refl
empty-nil (b ∷ bs) h = cc

least-chosen :
    (child : ℕ → Counters → Bytes × Counters) (i l : ℕ) (cands : List Candidate) (cell : ℕ)
    (s : Counters)
    → ((child (chosen i l cands cell s) (tick cell s).1).0 ≡ [])
      ⊎ ((least child ((i, l) ∷ cands) cell s).0
          ≡ (child (chosen i l cands cell s) (tick cell s).1).0)
unfolding least
least-chosen child i l cands cell s =
    elim (Bool-cases (is_empty (child (chosen i l cands cell s) (tick cell s).1).0)) [
      | inl none_there ↦
          inl (empty-nil (child (chosen i l cands cell s) (tick cell s).1).0 none_there)
      | inr there ↦ inr (ground arith)
    ]

module _ (sel : Selection) where
  -- An entry stands for a child with something available, and has its load.
  record IsEntry (cs : Forest) (base : ℕ) (c : Candidate) : Type 0 where
    place : ℕ
    child : Dest
    at : c.0 ≡ base + place
    found : child_at cs place ≡ some child
    can : available_under sel child ≡ true
    loaded : subtree_load sel child ≡ c.1

  later :
      (d : Dest) (cs : Forest) (base : ℕ) (xs : List Candidate)
      → All (IsEntry cs (base + 1)) xs
      → All (IsEntry (cons d cs) base) xs
  later d cs base [] v = tt
  later d cs base (x ∷ xs) (w, v) = (
    record {
      place = suc w.place;
      child = w.child;
      at = omega (arith, w.at);
      found = w.found;
      can = w.can;
      loaded = w.loaded;
    },
    later d cs base xs v,
  )

  candidates-IsEntry : (cs : Forest) (base : ℕ) → All (IsEntry cs base) (candidates sel cs base)
  unfolding candidates
  candidates-IsEntry nil base = tt
  candidates-IsEntry (cons c cs) base = elim (Bool-cases (available_under sel c)) [
    | inl can ↦ rw can (
      record { place = 0; child = c; at = omega arith; found = refl; can = can; loaded = refl },
      later c cs base (candidates sel cs (base + 1)) (candidates-IsEntry cs (base + 1)),
    )
    | inr cannot ↦
        rw cannot
          (later c cs base (candidates sel cs (base + 1)) (candidates-IsEntry cs (base + 1)))
  ]

  -- What bounds the loads of the candidates bounds those of the children that can be chosen.
  candidates-bound :
      (m : ℕ) (cs : Forest) (base : ℕ)
      → All (λ c. m ≤ c.1) (candidates sel cs base)
      → AllChildren (λ d. available_under sel d ≡ true → m ≤ subtree_load sel d) cs
  unfolding candidates
  candidates-bound m nil base v = tt
  candidates-bound m (cons c cs) base v = elim (Bool-cases (available_under sel c)) [
    | inl can ↦
        let v' : All (λ x. m ≤ x.1) ((base, subtree_load sel c) ∷ candidates sel cs (base + 1)) =
          rw can at v in
        ((λ h. v'.0), candidates-bound m cs (base + 1) v'.1)
    | inr cannot ↦
        let v' : All (λ x. m ≤ x.1) (candidates sel cs (base + 1)) = rw cannot at v in
        ((λ h. absurd (ground arith)), candidates-bound m cs (base + 1) v')
  ]

  pick_nth-child_at :
      (cs : Forest) (k : ℕ) (c : Dest) (s : Counters)
      → child_at cs k ≡ some c
      → pick_nth sel cs k s ≡ pick sel c s
  unfolding pick_nth
  pick_nth-child_at nil k c s h = cc
  pick_nth-child_at (cons d cs) zero c s h =
      let e : d ≡ c = ground arith in ap (λ t. pick sel t s) e
  pick_nth-child_at (cons d cs) (suc k) c s h = pick_nth-child_at cs k c s h

  candidates-none :
      (cs : Forest) (base : ℕ)
      → candidates sel cs base ≡ []
      → AllChildren (λ d. available_under sel d ≡ false) cs
  unfolding candidates
  candidates-none nil base h = tt
  candidates-none (cons c cs) base h = elim (Bool-cases (available_under sel c)) [
    | inl can ↦ absurd (ground arith)
    | inr cannot ↦ (cannot, candidates-none cs (base + 1) (rw cannot at h))
  ]

  -- A child that a least-loaded node may choose: a port of it is available, and of no such child the
  -- load is less.
  pub record IsLeast (cs : Forest) (c : Dest) : Type 0 where
    pub place : ℕ
    pub stands : child_at cs place ≡ some c
    pub can : available_under sel c ≡ true
    pub no_less :
        AllChildren (λ d. available_under sel d ≡ true → subtree_load sel c ≤ subtree_load sel d) cs

  -- A least-loaded node asks one of its children with the least load among those that have an
  -- available port, after its counter has moved, and selects the port that this child picks, if it
  -- picks one; it selects none if no child has an available port.
  pub pick-IsLeast :
      (cs : Forest) (cached : List Bytes) (cell : ℕ) (s : Counters)
      → (((pick sel (node least_loaded cs cached cell) s).0 ≡ [])
          × AllChildren (λ d. available_under sel d ≡ false) cs)
        ⊎ ((c : Dest) × IsLeast cs c
            × (((pick sel c (tick cell s).1).0 ≡ [])
                ⊎ ((pick sel (node least_loaded cs cached cell) s).0
                    ≡ (pick sel c (tick cell s).1).0)))
  unfolding pick
  pick-IsLeast cs cached cell s = elim (candidates-cases (candidates sel cs 0)) [
    | inl e ↦ inl (rw (pick, e) (unfold least in refl), candidates-none cs 0 e)
    | inr (x, xs, e) ↦
        let i = x.0 in
        let l = x.1 in
        let m = min_load l xs in
        let ties = tied m ((i, l) ∷ xs) in
        let entries : All (IsEntry cs 0) ((i, l) ∷ xs) =
          subst (All (IsEntry cs 0)) e (candidates-IsEntry cs 0) in
        let entry : IsEntry cs 0 (chosen i l xs cell s, m) =
          get_or-All (λ k. IsEntry cs 0 (k, m)) ties ((tick cell s).0 % length ties) 0
            (tied-All (IsEntry cs 0) m ((i, l) ∷ xs) entries)
            (mod-lt (tick cell s).0 (tied-some i l xs)) in
        let bound =
          candidates-bound m cs 0 (subst (All (λ c. m ≤ c.1)) (sym e) (min_load-le l xs)) in
        let at : chosen i l xs cell s ≡ entry.place = omega (arith, entry.at) in
        let same : pick_nth sel cs (chosen i l xs cell s) (tick cell s).1
            ≡ pick sel entry.child (tick cell s).1 =
          ap (λ k. pick_nth sel cs k (tick cell s).1) at
          ∙ pick_nth-child_at cs entry.place entry.child (tick cell s).1 entry.found in
        inr (
          entry.child,
          record {
            place = entry.place;
            stands = entry.found;
            can = entry.can;
            no_less =
                subst
                  (λ n. AllChildren (λ d. available_under sel d ≡ true → n ≤ subtree_load sel d) cs)
                  (sym entry.loaded) bound;
          },
          subst (λ r. (r.0 ≡ []) ⊎ ((least (pick_nth sel cs) (candidates sel cs 0) cell s).0 ≡ r.0))
              same
              (subst
                (λ ys.
                  ((pick_nth sel cs (chosen i l xs cell s) (tick cell s).1).0 ≡ [])
                  ⊎ ((least (pick_nth sel cs) ys cell s).0
                      ≡ (pick_nth sel cs (chosen i l xs cell s) (tick cell s).1).0))
                (sym e) (least-chosen (pick_nth sel cs) i l xs cell s)),
        )
  ]
