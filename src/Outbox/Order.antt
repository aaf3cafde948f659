-- ===== src/Outbox/Order.antt =====
-- Subject order: a drain with any bus, and with no other goroutine at work, settles the messages
-- of each subject in the order in which they were parked, and loses none.
use fluxrig.Prelude.{
  List-cases, not, length-append, ◌<◌, ℕ, zero, suc, ◌+◌, ◌≡◌, refl, sym, ap, ◌∙◌, Bool, true,
  false, not, List, [], ◌∷◌, ◌++◌, append_assoc, append-nil, Option, some, arith, Bytes, equal,
  equal_iff, equal_refl, length, if◌then◌else◌, All, All-append, All-append_inv, Bool-cases, inl,
  inr, ◌⊎◌, ◌==◌,
}
use mathlib.Core.Path.{ap₂}
use fluxrig.Outbox.{
  Item, Outbox, BusState, same, same_pointer, contains, holds, remove_first, remove, set_bus_state,
  end_drain, up, down,
}
use fluxrig.Outbox.Drain.{
  World, Answer, accepted, invalid, refused, Outcome, sent, evicted, dropped_invalid, kept, others,
  apply_calls, after_answer, publish_with_retries, mem_subject, run_pass, run_drain,
}

-- The settled items (forwarded, or dropped as invalid) in order, and a clock.
pub record Log : Type 0 where
  pub settled : List Item
  pub tick : ℕ

abbrev pub settle : Answer → List Item → Item → List Item
settle refused settled it = settled
settle _ settled it = settled ++ (it ∷ [])

-- The answers of the bus and the end of the context depend on the clock in any way.
abbrev pub quiet_world : (ℕ → Item → Answer) → (ℕ → Bool) → World
quiet_world bus done = record {
  Env = Log;
  done = λ e. done e.tick;
  send = λ e it.
      (record { settled = settle (bus e.tick it) e.settled it; tick = e.tick + 1 }, bus e.tick it);
  turn = λ e o. (record e { tick = e.tick + 1 }, []);
}

-- The items of one subject, in order.
abbrev pub on : Bytes → List Item → List Item
on s [] = []
on s (it ∷ its) = if equal it.subject s then it ∷ on s its else on s its

-- No emission stands twice in the queue.
abbrev pub Distinct : List Item → Type 0
Distinct [] = Unit
Distinct (it ∷ its) = All (λ x. same it x ≡ false) its × Distinct its

on-append : (s : Bytes) (xs ys : List Item) → on s (xs ++ ys) ≡ on s xs ++ on s ys
on-append s [] ys = refl
on-append s (x ∷ xs) ys = ground (arith, on-append s xs ys)

same_pointer_refl : (p : Option ℕ) → same_pointer p p ≡ true
unfolding same_pointer
same_pointer_refl Option.none = refl
same_pointer_refl (some p) = ground arith

pub same_refl : (it : Item) → same it it ≡ true
unfolding same
same_refl it = rw (same_pointer_refl it.msg, same_pointer_refl it.event)

pub contains_mid :
    (k : List Item) (it : Item) (its : List Item) → contains (k ++ (it ∷ its)) it ≡ true
unfolding contains
contains_mid [] it its = rw (same_refl it)
contains_mid (x ∷ k) it its = ground (arith, contains_mid k it its)

remove_first_mid :
    (k : List Item) (it : Item) (its : List Item)
    → Distinct (k ++ (it ∷ its))
    → (remove_first (k ++ (it ∷ its)) it ≡ k ++ its) × Distinct (k ++ its)
unfolding remove_first
remove_first_mid [] it its d = (rw (same_refl it), d.1)
remove_first_mid (x ∷ k) it its (a, d) =
    let (e, d') = remove_first_mid k it its d in
    let (ak, aits) = All-append_inv (λ y. same x y ≡ false) k (it ∷ its) a in
    (rw (aits.0, e) refl, (All-append (λ y. same x y ≡ false) k its ak aits.1, d'))

-- What is held keeps its whole subject back.
on_held :
    (k : List Item) (held : List Bytes) (it : Item) (s : Bytes)
    → All (λ x. mem_subject x.subject held ≡ true) k
    → mem_subject it.subject held ≡ false
    → equal it.subject s ≡ true
    → on s k ≡ []
on_held [] held it s a n e = refl
on_held (x ∷ k) held it s (m, a) n e =
    ground (arith, on_held k held it s a n e, equal_iff it.subject s, equal_iff x.subject s)

mem_subject_more :
    (k : List Item) (held : List Bytes) (t : Bytes)
    → All (λ x. mem_subject x.subject held ≡ true) k
    → All (λ x. mem_subject x.subject (t ∷ held) ≡ true) k
mem_subject_more [] held t a = tt
mem_subject_more (x ∷ k) held t (m, a) = (ground arith, mem_subject_more k held t a)

-- The log after an attempt at `it`.
abbrev Tried : Outcome → List Item → Item → List Item → Type 0
Tried sent l it l' = l' ≡ l ++ (it ∷ [])
Tried dropped_invalid l it l' = l' ≡ l ++ (it ∷ [])
Tried kept l it l' = l' ≡ l
Tried evicted l it l' = ⊥

set_bus_state_keeps :
    (st : BusState) (o : Outbox)
    → ((set_bus_state st o).items ≡ o.items)
      × ((set_bus_state st o).ordered ≡ o.ordered)
      × ((set_bus_state st o).again ≡ o.again)
unfolding set_bus_state
set_bus_state_keeps st o = ground arith

-- Settling an item in front of which no item of its subject stands.
settle_step :
    (t : Bytes) (l k : List Item) (it : Item) (its : List Item) (held : List Bytes)
    → All (λ x. mem_subject x.subject held ≡ true) k
    → mem_subject it.subject held ≡ false
    → on t (l ++ (it ∷ [])) ++ on t (k ++ its) ≡ on t l ++ on t (k ++ (it ∷ its))
settle_step t l k it its held a n = elim (Bool-cases (equal it.subject t)) [
  | inl e ↦ simp (on-append, on_held k held it t a n e, e, append_assoc)
  | inr e ↦ simp (on-append, e, append-nil)
]

remove_mid :
    (k : List Item) (it : Item) (its : List Item) (drop : Bool) (o : Outbox)
    → o.items ≡ k ++ (it ∷ its)
    → Distinct (k ++ (it ∷ its))
    → ((remove it drop o).items ≡ k ++ its)
      × ((remove it drop o).ordered ≡ o.ordered)
      × ((remove it drop o).again ≡ o.again)
unfolding remove
remove_mid k it its drop o q d = ground (arith, contains_mid k it its, remove_first_mid k it its d)

Answer-cases : (a : Answer) → (a ≡ accepted) ⊎ (a ≡ invalid) ⊎ (a ≡ refused)
Answer-cases accepted = inl refl
Answer-cases invalid = inr (inl refl)
Answer-cases refused = inr (inr refl)

module _ (bus : ℕ → Item → Answer) (done : ℕ → Bool) where
  abbrev W : World
  W = quiet_world bus done

  -- What an attempt at an item of the queue does.
  abbrev Attempt : Item → Log → Outbox → (Log × Outbox) × Outcome → Type 0
  Attempt it e o r =
      Tried r.1 e.settled it r.0.0.settled
      × (r.0.1.items ≡ o.items)
      × (r.0.1.ordered ≡ o.ordered)
      × (r.0.1.again ≡ o.again)

  tries :
      (n : ℕ) (it : Item) (e : Log) (o : Outbox)
      → contains o.items it ≡ true
      → Attempt it e o (publish_with_retries W n it (e, o))
  unfolding publish_with_retries others apply_calls after_answer holds
  tries zero it e o h = (refl, refl, refl, refl)
  tries (suc n) it e o h =
      let a = bus (e.tick + 1) it in
      let e3 : Log = record { settled = settle a e.settled it; tick = e.tick + 1 + 1 + 1 } in
      ground (
        arith,
        set_bus_state_keeps up o,
        set_bus_state_keeps down o,
        tries n it e3 (set_bus_state down o),
      )

Outcome-cases : (r : Outcome) → (r ≡ sent) ⊎ (r ≡ dropped_invalid) ⊎ (r ≡ kept) ⊎ (r ≡ evicted)
Outcome-cases sent = inl refl
Outcome-cases dropped_invalid = inr (inl refl)
Outcome-cases kept = inr (inr (inl refl))
Outcome-cases evicted = inr (inr (inr refl))

module _ (bus : ℕ → Item → Answer) (done : ℕ → Bool) (t : Bytes) where
  abbrev V : World
  V = quiet_world bus done

  -- The end of a pass, from a number of forwarded items, a log, a queue and an outbox.
  record Settles (n : ℕ) (l q : List Item) (o : Outbox) (r : (Log × Outbox) × ℕ × Bool)
      : Type 0 where
    subject : on t r.0.0.settled ++ on t r.0.1.items ≡ on t l ++ on t q
    distinct : Distinct r.0.1.items
    ordered_kept : r.0.1.ordered ≡ o.ordered
    again_kept : r.0.1.again ≡ o.again
    count : r.1 + length r.0.1.items ≡ n + length q

  Settles-from :
      {n n' : ℕ} {l q l' q' : List Item} (o o' : Outbox) {r : (Log × Outbox) × ℕ × Bool}
      → n' + length q' ≡ n + length q
      → on t l' ++ on t q' ≡ on t l ++ on t q
      → o'.ordered ≡ o.ordered
      → o'.again ≡ o.again
      → Settles n' l' q' o' r
      → Settles n l q o r
  Settles-from o o' f p b c h = record {
    subject = h.subject ∙ p;
    distinct = h.distinct;
    ordered_kept = h.ordered_kept ∙ b;
    again_kept = h.again_kept ∙ c;
    count = h.count ∙ f;
  }

  passes :
      (its k : List Item) (held : List Bytes) (n : ℕ) (e : Log) (o : Outbox)
      → o.items ≡ k ++ its
      → Distinct (k ++ its)
      → All (λ x. mem_subject x.subject held ≡ true) k
      → Settles n e.settled (k ++ its) o (run_pass V its true held n (e, o))
  unfolding run_pass others apply_calls
  passes [] k held n e o q d a = record {
    subject = rw q refl;
    distinct = rw q d;
    ordered_kept = refl;
    again_kept = refl;
    count = ap (λ x. n + length x) q;
  }
  passes (it ∷ its) k held n e o q d a = elim (Bool-cases (done e.tick)) [
    | inl ended ↦ rw ended (record {
      subject = rw q refl;
      distinct = rw q d;
      ordered_kept = refl;
      again_kept = refl;
      count = ap (λ x. n + length x) q;
    })
    | inr live ↦ elim (Bool-cases (mem_subject it.subject held)) [
      | inl m ↦
          rw (live, m)
            (rw one at (
              passes its (k ++ (it ∷ [])) held n e o (q ∙ sym one) (rw one d)
                (All-append (λ x. mem_subject x.subject held ≡ true) k (it ∷ []) a (m, tt))))
      | inr m ↦
          let r = publish_with_retries V (suc o.retries) it (e, o) in
          let (log, items, ord, ag) : Attempt bus done it e o r =
            tries bus done (suc o.retries) it e o (rw q (contains_mid k it its)) in
          let s1 = r.0 in
          let e2 : Log = record s1.0 { tick = s1.0.tick + 1 } in
          let d' = (remove_first_mid k it its d).1 in
          elim (Outcome-cases r.1) [
            | inl x ↦
                let (q', b, c) = remove_mid k it its false s1.1 (items ∙ q) d in
                rw (live, m, x)
                  (Settles-from o (remove it false s1.1) fewer
                    (ap (λ l. on t l ++ on t (k ++ its)) (rw x at log)
                      ∙ settle_step t e.settled k it its held a m)
                    (b ∙ ord) (c ∙ ag)
                    (passes its k held (n + 1) e2 (remove it false s1.1) q' d' a))
            | inr (inl x) ↦
                let (q', b, c) = remove_mid k it its true s1.1 (items ∙ q) d in
                rw (live, m, x)
                  (Settles-from o (remove it true s1.1) fewer
                    (ap (λ l. on t l ++ on t (k ++ its)) (rw x at log)
                      ∙ settle_step t e.settled k it its held a m)
                    (b ∙ ord) (c ∙ ag) (passes its k held (n + 1) e2 (remove it true s1.1) q' d' a))
            | inr (inr (inl x)) ↦
                rw (live, m, x)
                  (Settles-from o s1.1 (ap (λ x. n + length x) one)
                    (ap₂ (λ l q. on t l ++ on t q) (rw x at log) one) ord ag
                    (passes its (k ++ (it ∷ [])) (it.subject ∷ held) n s1.0 s1.1
                      (items ∙ q ∙ sym one) (rw one d)
                      (All-append (λ x. mem_subject x.subject (it.subject ∷ held) ≡ true) k
                        (it ∷ []) (mem_subject_more k held it.subject a)
                        (rw (equal_refl it.subject) refl, tt))))
            | inr (inr (inr x)) ↦ absurd (rw x at log)
          ]
    ]
  ]
    where
      one : (k ++ (it ∷ [])) ++ its ≡ k ++ (it ∷ its)
      one = append_assoc k (it ∷ []) its

      fewer : n + 1 + length (k ++ its) ≡ n + length (k ++ (it ∷ its))
      fewer = omega (arith, length-append k its, length-append k (it ∷ its))

  -- A drain that starts with subject order and no request waiting ends in at most one pass for
  -- each item and one more. Then the settled items of any subject (forwarded, or dropped because
  -- the bus can never take them) followed by what is still queued of it are exactly the items of
  -- that subject in the order in which they were parked: none is lost, doubled or overtaken,
  -- however the bus answers and whenever the context ends.
  pub run_drain-in_order :
      (fuel : ℕ) (quiet : Bool) (e : Log) (o : Outbox)
      → o.ordered ≡ true
      → o.again ≡ false
      → Distinct o.items
      → length o.items < fuel
      → (r : (Log × Outbox) × Bool) × (run_drain V fuel quiet (e, o) ≡ (r.0, some r.1))
        × (on t r.0.0.settled ++ on t r.0.1.items ≡ on t e.settled ++ on t o.items)
  unfolding run_drain others apply_calls end_drain
  run_drain-in_order zero quiet e o od ag d f = absurd (omega arith)
  run_drain-in_order (suc fuel) quiet e o od ag d f = elim (Bool-cases (done e.tick)) [
    | inl ended ↦ (((e1, end_drain o), false), ground arith, refl)
    | inr live ↦ elim (List-cases o.items) [
      | inl none_left ↦ (((e1, end_drain o), false), ground arith, refl)
      | inr (x, xs, some_left) ↦
          let p = run_pass V o.items true [] 0 (e1, o) in
          let s : Settles 0 e.settled o.items o p = passes o.items [] [] 0 e1 o refl d tt in
          let s3 : Log = record p.0.0 { tick = p.0.0.tick + 1 } in
          elim (Bool-cases p.2) [
            | inl cut ↦ (((s3, end_drain p.0.1), false), ground arith, s.subject)
            | inr whole ↦ elim (Bool-cases (p.1 == 0)) [
              | inl idle ↦
                  (((s3, end_drain p.0.1), not quiet), ground (arith, s.again_kept ∙ ag), s.subject)
              | inr busy ↦
                  let (r, done, order) =
                    run_drain-in_order fuel quiet p.0.0 p.0.1 (s.ordered_kept ∙ od)
                      (s.again_kept ∙ ag) s.distinct (ground (arith, s.count)) in
                  (r, ground (arith, done), order ∙ s.subject)
            ]
          ]
    ]
  ]
    where
      e1 : Log
      e1 = record e { tick = e.tick + 1 }
