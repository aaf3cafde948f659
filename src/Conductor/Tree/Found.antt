-- ===== src/Conductor/Tree/Found.antt =====
-- That a pick finds a port where one is available, while no counter is about to wrap.
use fluxrig.Prelude.{
  ℕ, zero, suc, ◌+◌, ◌-◌, ◌%◌, ◌^◌, ◌≤◌, ◌<◌, ◌≡◌, refl, ap, ◌∙◌, sym, Bool, true, false, ◌||◌,
  List, [], ◌∷◌, ◌++◌, Bytes, arith, inl, inr, Bool-cases, leb, has_prefix, codes,
}
use native.Mathlib.Nat.{mod-lt, mod-add-mod, mod-eq_of_lt, add-mod_right}
use fluxrig.Conductor.Tree.{
  failover, round_robin, least_loaded, Dest, leaf, node, Forest, nil, cons, Selection, Counters,
  tick, rotate, Candidate, any_candidate, least, size, any_available, available_under, subtree_load,
  candidates, pick, pick_first, pick_nth, is_empty, min_load, tied,
}
use fluxrig.Conductor.Tree.Choice.{ports, ports_all}
use fluxrig.Conductor.Tree.Growth.{
  times, reach, reach_all, Within, tick-Within, pick-Within, pick_nth-Within,
}
use fluxrig.Conductor.Parse.Shape.{IsTree, IsForest}
use fluxrig.Prelude.{length, get_or}

-- Some round of a rotation is at the place.
turn : (start count j : ℕ) → j < count → (i : ℕ) × (i < count) × ((start + i) % count ≡ j)
turn start count j h =
    let r = start % count in
    let small : r < count = mod-lt start (omega arith) in
    let fixed : j % count ≡ j = mod-eq_of_lt h in
    elim (Bool-cases (leb r j)) [
      | inl e ↦
          let ahead : r + (j - r) ≡ j = ground arith in
          (
            j - r,
            omega arith,
            sym (mod-add-mod start count (j - r)) ∙ ap (λ x. x % count) ahead ∙ fixed,
          )
      | inr e ↦
          let behind : r + (j + count - r) ≡ j + count = omega arith in
          let below : j < r = ground arith in
          (
            j + count - r,
            omega arith,
            sym (mod-add-mod start count (j + count - r))
                ∙ ap (λ x. x % count) behind
                ∙ add-mod_right j count
                ∙ fixed,
          )
    ]

-- No counter wraps in so many ticks.
abbrev pub HasRoom : ℕ → Counters → Type 0
HasRoom n s = (c : ℕ) → s c + n ≤ 2 ^ 64

-- While there is room, the child answers.
abbrev Answers : (ℕ → Counters → Bytes × Counters) → ℕ → ℕ → Type 0
Answers child k j = (s : Counters) → HasRoom k s → is_empty (child j s).0 ≡ false

disagree : {b : Bool} → b ≡ true → b ≡ false → ⊥
disagree t f = let x = sym t ∙ f in cc

module _ (child : ℕ → Counters → Bytes × Counters) (k : ℕ)
    (each : (i : ℕ) (s : Counters) → Within k s (child i s).1) where
  rotate-finds :
      (rounds i start count j i0 : ℕ) (s : Counters)
      → Answers child k j
      → i ≤ i0
      → i0 < i + rounds
      → start + i0 < 2 ^ 64
      → (start + i0) % count ≡ j
      → HasRoom (times rounds k) s
      → is_empty (rotate child rounds i start count s).0 ≡ false
  unfolding rotate times
  rotate-finds zero i start count j i0 s f lo hi fit at room = absurd (omega arith)
  rotate-finds (suc rounds) i start count j i0 s f lo hi fit at room =
      let here = (start + i) % 2 ^ 64 % count in
      elim (Bool-cases (is_empty (child here s).0)) [
        | inr found ↦ ground arith
        | inl nothing ↦ elim (Bool-cases (leb i0 i)) [
          | inl now ↦
              let place : start + i ≡ start + i0 = ground arith in
              let same : here ≡ j =
                ap (λ x. x % 2 ^ 64 % count) place ∙ ap (λ x. x % count) (mod-eq_of_lt fit) ∙ at in
              let found : is_empty (child j s).0 ≡ false = f s (λ c. omega (arith, room c)) in
              absurd (disagree (rw same at nothing) found)
          | inr ahead ↦
              let later : is_empty (rotate child rounds (i + 1) start count (child here s).1).0
                  ≡ false =
                rotate-finds rounds (i + 1) start count j i0 (child here s).1 f (ground arith)
                  (omega arith) fit at (λ c. omega (arith, room c, each here s c)) in
              ground arith
        ]
      ]

  least-finds :
      (i l cell : ℕ) (cs : List Candidate) (s : Counters)
      → Answers child k i
      → HasRoom (1 + k + k) s
      → is_empty (least child ((i, l) ∷ cs) cell s).0 ≡ false
  unfolding least any_candidate
  least-finds i l cell cs s f room =
      let ties = tied (min_load l cs) ((i, l) ∷ cs) in
      let s1 = (tick cell s).1 in
      let j = get_or ties ((tick cell s).0 % length ties) 0 in
      let s2 = (child j s1).1 in
      let later : is_empty (child i s2).0 ≡ false =
        f s2 (λ c. omega (arith, room c, tick-Within cell s c, each j s1 c)) in
      ground arith

start_fits :
    (cell : ℕ) (s : Counters) (count i0 : ℕ)
    → HasRoom (1 + count) s
    → i0 < count
    → (tick cell s).0 + i0 < 2 ^ 64
unfolding tick
start_fits cell s count i0 room h = omega (arith, room cell)

twice : (n k : ℕ) → 0 < n → k + k ≤ times (suc n) k
unfolding times
twice zero k h = absurd (omega arith)
twice (suc n) k h = omega arith

any_available-append :
    (sel : Selection) (xs ys : List Bytes)
    → any_available sel (xs ++ ys) ≡ (any_available sel xs || any_available sel ys)
unfolding any_available
any_available-append sel [] ys = refl
any_available-append sel (x ∷ xs) ys = ground (arith, any_available-append sel xs ys)

has_prefix-some : (p : Bytes) → has_prefix p (codes "out") ≡ true → is_empty p ≡ false
unfolding has_prefix
has_prefix-some [] h = cc
has_prefix-some (x ∷ p) h = refl

available_under-ports :
    (sel : Selection) (d : Dest) → IsTree d → available_under sel d ≡ any_available sel (ports d)
unfolding available_under any_available
available_under-ports sel (leaf p) v = ground arith
available_under-ports sel (node k cs cached cell) v = ap (any_available sel) v.0

module _ (sel : Selection) where
  -- The first child with an available port.
  record FirstFound (cs : Forest) : Type 0 where
    place : ℕ
    inside : place < size cs
    load_there : ℕ
    others : ℕ → List Candidate
    listed : (i n : ℕ) → n ≡ i + place → candidates sel cs i ≡ (n, load_there) ∷ others i
    finds : Answers (pick_nth sel cs) (reach_all cs) place

  mutual
    unfolding pick reach times candidates any_available

    pub pick-finds :
        (d : Dest) (s : Counters)
        → IsTree d
        → any_available sel (ports d) ≡ true
        → HasRoom (reach d) s
        → is_empty (pick sel d s).0 ≡ false
    pick-finds (leaf p) s v a room = ground (arith, has_prefix-some p v)
    pick-finds (node failover cs cached cell) s v a room =
        pick_first-finds cs s v.2 a (λ c. omega (arith, room c))
    pick-finds (node round_robin cs cached cell) s v a room =
        let first = child-finds cs v.2 a in
        let (i0, small, at) = turn (tick cell s).0 (size cs) first.place first.inside in
        rotate-finds (pick_nth sel cs) (reach_all cs) (pick_nth-Within sel cs) (size cs) 0
          (tick cell s).0 (size cs) first.place i0 (tick cell s).1 first.finds (omega arith)
          (omega arith) (start_fits cell s (size cs) i0 (λ c. omega (arith, room c)) small) at
          (λ c. omega (arith, room c, tick-Within cell s c))
    pick-finds (node least_loaded cs cached cell) s v a room =
        let first = child-finds cs v.2 a in
        rw (first.listed 0 first.place (omega arith)) (
          least-finds (pick_nth sel cs) (reach_all cs) (pick_nth-Within sel cs) first.place
            first.load_there cell (first.others 0) s first.finds
            (λ c. omega (arith, room c, twice (size cs) (reach_all cs) v.1)))

    pick_first-finds :
        (cs : Forest) (s : Counters)
        → IsForest cs
        → any_available sel (ports_all cs) ≡ true
        → HasRoom (reach_all cs) s
        → is_empty (pick_first sel cs s).0 ≡ false
    pick_first-finds nil s v a room = cc
    pick_first-finds (cons d cs) s v a room = elim (Bool-cases (is_empty (pick sel d s).0)) [
      | inr found ↦ ground arith
      | inl nothing ↦ elim (Bool-cases (any_available sel (ports d))) [
        | inl here ↦
            absurd (disagree nothing (pick-finds d s v.0 here (λ c. omega (arith, room c))))
        | inr none_here ↦
            let rest : any_available sel (ports_all cs) ≡ true =
              ground (arith, any_available-append sel (ports d) (ports_all cs)) in
            let later =
              pick_first-finds cs (pick sel d s).1 v.1 rest
                (λ c. omega (arith, room c, pick-Within sel d s c)) in
            ground arith
      ]
    ]

    child-finds :
        (cs : Forest) → IsForest cs → any_available sel (ports_all cs) ≡ true → FirstFound cs
    child-finds nil v a = cc
    child-finds (cons d cs) v a = elim (Bool-cases (any_available sel (ports d))) [
      | inl here ↦ record {
        place = 0;
        inside = omega arith;
        load_there = subtree_load sel d;
        others = λ i. candidates sel cs (i + 1);
        listed = λ i n e.
            let same : n ≡ i = omega arith in
            rw (same, available_under-ports sel d v.0 ∙ here) refl;
        finds = λ s room. pick-finds d s v.0 here (λ c. omega (arith, room c));
      }
      | inr none_here ↦
          let rest : any_available sel (ports_all cs) ≡ true =
            ground (arith, any_available-append sel (ports d) (ports_all cs)) in
          let first = child-finds cs v.1 rest in
          record {
            place = suc first.place;
            inside = omega (arith, first.inside);
            load_there = first.load_there;
            others = λ i. first.others (i + 1);
            listed = λ i n e.
                rw (available_under-ports sel d v.0 ∙ none_here)
                  (first.listed (i + 1) n (omega arith));
            finds = λ s room. first.finds s (λ c. omega (arith, room c));
          }
    ]
