-- ===== src/Lane/Stranded.antt =====
-- A message that comes to the queue of a subscription that has ended, lane.go: a publisher took its
-- snapshot of the subscribers before `Unsubscribe`, and reaches `enqueue` after it.
use mathlib.Core.Path.{subst}
use fluxrig.Prelude.{
  ℕ, zero, suc, ◌<◌, ◌≡◌, ap, ◌∙◌, sym, refl, true, false, Bool, List, [], ◌∷◌, ◌++◌, some, Bytes,
  length, length-append, append_assoc, append-nil, arith, All, inl, inr, Option-cases,
}
use fluxrig.Prelude.Int.{ℤ}
use fluxrig.Lane.{
  stopped, Subscription, Lane, configure, new_lane, new_subscription, Action, aims, enters, queues,
  gives_up, sees_done, takes, finishes, stops, closes, unregisters, drops, counts_drop, returns,
  Change, pull, act, Event, subscribes, configures, acts, act_at, step, run, is_pending,
}
use fluxrig.Lane.Account.{load_all, run-IsAccounted}

-- What the subscription at a place of the list has.
abbrev pub HasAt : (Subscription → Type 0) → ℕ → List Subscription → Type 0
HasAt P i [] = ⊥
HasAt P zero (s ∷ ss) = P s
HasAt P (suc i) (s ∷ ss) = HasAt P i ss

-- The worker has returned, and so has every `Unsubscribe`; since the subscription was as given, it has
-- accepted the item and maybe more, all of them are in its queue behind what was there, and nothing
-- was taken off.
pub record IsStranded (old : Subscription) (item : Bytes) (s : Subscription) : Type 0 where
  pub ended : (s.worker ≡ stopped) × (s.unsubscribing ≡ 0)
  pub more : List Bytes
  pub queued : s.queue ≡ old.queue ++ (item ∷ []) ++ more
  pub accepted_all : s.accepted ≡ old.accepted ++ (item ∷ []) ++ more
  pub none_taken : s.taken ≡ old.taken

abbrev is_close : Action → Bool
is_close closes = true
is_close _ = false

-- The event is no new call of `Unsubscribe` on the subscription at the place.
abbrev pub IsOther : ℕ → Event → Type 0
IsOther i (subscribes subject) = Unit
IsOther i (configures size timeout) = Unit
IsOther i (acts k a) = k ≡ i → is_close a ≡ false

module _ (old : Subscription) (item : Bytes) where
  queues-IsStranded :
      (k : ℕ) (s s' : Subscription) (c : Change)
      → IsStranded old item s
      → act (queues k) s ≡ some (s', c)
      → IsStranded old item s'
  unfolding act
  queues-IsStranded k s s' c v h = elim (Option-cases (pull k s.sending)) [
    | inl e ↦ absurd (ground arith)
    | inr ((x, rest), e) ↦
        let worker : s'.worker ≡ s.worker = ground arith in
        let unsubscribing : s'.unsubscribing ≡ s.unsubscribing = ground arith in
        let queue : s'.queue ≡ s.queue ++ (x ∷ []) = ground arith in
        let accepted : s'.accepted ≡ s.accepted ++ (x ∷ []) = ground arith in
        let taken : s'.taken ≡ s.taken = ground arith in
        record {
          ended = (worker ∙ v.ended.0, unsubscribing ∙ v.ended.1);
          more = v.more ++ (x ∷ []);
          queued =
              queue
              ∙ ap (λ q. q ++ (x ∷ [])) v.queued
              ∙ append_assoc (old.queue ++ (item ∷ [])) v.more (x ∷ []);
          accepted_all =
              accepted
              ∙ ap (λ q. q ++ (x ∷ [])) v.accepted_all
              ∙ append_assoc (old.accepted ++ (item ∷ [])) v.more (x ∷ []);
          none_taken = taken ∙ v.none_taken;
        }
  ]

  -- Any other action leaves these parts of the subscription alone.
  IsStranded-same :
      (s s' : Subscription)
      → IsStranded old item s
      → (s'.worker ≡ s.worker)
        × (s'.unsubscribing ≡ s.unsubscribing)
        × (s'.queue ≡ s.queue)
        × (s'.accepted ≡ s.accepted)
        × (s'.taken ≡ s.taken)
      → IsStranded old item s'
  IsStranded-same s s' v (w, u, q, a, t) = record {
    ended = (w ∙ v.ended.0, u ∙ v.ended.1);
    more = v.more;
    queued = q ∙ v.queued;
    accepted_all = a ∙ v.accepted_all;
    none_taken = t ∙ v.none_taken;
  }

  act-IsStranded :
      (a : Action) (s s' : Subscription) (c : Change)
      → is_close a ≡ false
      → IsStranded old item s
      → act a s ≡ some (s', c)
      → IsStranded old item s'
  unfolding act
  act-IsStranded (aims x) s s' c q v h = IsStranded-same s s' v (ground arith)
  act-IsStranded (enters k) s s' c q v h = IsStranded-same s s' v (ground arith)
  act-IsStranded (queues k) s s' c q v h = queues-IsStranded k s s' c v h
  act-IsStranded (gives_up k) s s' c q v h = IsStranded-same s s' v (ground arith)
  act-IsStranded (sees_done k) s s' c q v h = IsStranded-same s s' v (ground arith)
  act-IsStranded takes s s' c q v h = absurd (ground (arith, v.ended))
  act-IsStranded finishes s s' c q v h = absurd (ground (arith, v.ended))
  act-IsStranded stops s s' c q v h = IsStranded-same s s' v (ground (arith, v.ended))
  act-IsStranded closes s s' c q v h = cc
  act-IsStranded unregisters s s' c q v h = IsStranded-same s s' v (ground arith)
  act-IsStranded drops s s' c q v h = absurd (ground (arith, v.ended))
  act-IsStranded counts_drop s s' c q v h = IsStranded-same s s' v (ground arith)
  act-IsStranded returns s s' c q v h = absurd (ground (arith, v.ended))

  act_at-IsStranded :
      (i k : ℕ) (a : Action) (ss ss' : List Subscription) (c : Change)
      → IsOther i (acts k a)
      → HasAt (IsStranded old item) i ss
      → act_at k a ss ≡ some (ss', c)
      → HasAt (IsStranded old item) i ss'
  unfolding act_at
  act_at-IsStranded i k a [] ss' c q v h = absurd v
  act_at-IsStranded zero zero a (s ∷ ss) ss' c q v h = elim (Option-cases (act a s)) [
    | inl e ↦ absurd (ground arith)
    | inr ((s', c'), e) ↦
        let new : (s' ∷ ss) ≡ ss' = ground arith in
        rw (← new) (act-IsStranded a s s' c' (q refl) v e)
  ]
  act_at-IsStranded (suc i) zero a (s ∷ ss) ss' c q v h = elim (Option-cases (act a s)) [
    | inl e ↦ absurd (ground arith)
    | inr ((s', c'), e) ↦ let new : (s' ∷ ss) ≡ ss' = ground arith in rw (← new) v
  ]
  act_at-IsStranded zero (suc k) a (s ∷ ss) ss' c q v h = elim (Option-cases (act_at k a ss)) [
    | inl e ↦ absurd (ground arith)
    | inr ((ts, c'), e) ↦ let new : (s ∷ ts) ≡ ss' = ground arith in rw (← new) v
  ]
  act_at-IsStranded (suc i) (suc k) a (s ∷ ss) ss' c q v h = elim (Option-cases (act_at k a ss)) [
    | inl e ↦ absurd (ground arith)
    | inr ((ts, c'), e) ↦
        let new : (s ∷ ts) ≡ ss' = ground arith in
        rw (← new) (act_at-IsStranded i k a ss ts c' (λ p. q (ap suc p)) v e)
  ]

  HasAt-append :
      (P : Subscription → Type 0) (i : ℕ) (ss ts : List Subscription)
      → HasAt P i ss
      → HasAt P i (ss ++ ts)
  HasAt-append P i [] ts v = absurd v
  HasAt-append P zero (s ∷ ss) ts v = v
  HasAt-append P (suc i) (s ∷ ss) ts v = HasAt-append P i ss ts v

  step-IsStranded :
      (i : ℕ) (ev : Event) (l : Lane)
      → IsOther i ev
      → HasAt (IsStranded old item) i l.subs
      → HasAt (IsStranded old item) i (step ev l).subs
  unfolding step
  step-IsStranded i (subscribes subject) l q v =
      HasAt-append (IsStranded old item) i l.subs (new_subscription subject l.queue_size ∷ []) v
  step-IsStranded i (configures size timeout) l q v = unfold configure in v
  step-IsStranded i (acts k a) l q v = elim (Option-cases (act_at k a l.subs)) [
    | inl n ↦ rw (step, n) v
    | inr ((ts, c), n) ↦ rw (step, n) (act_at-IsStranded i k a l.subs ts c q v n)
  ]

  run-later :
      (i : ℕ) (evs : List Event) (l : Lane)
      → All (IsOther i) evs
      → HasAt (IsStranded old item) i l.subs
      → HasAt (IsStranded old item) i (run evs l).subs
  unfolding run
  run-later i [] l q v = v
  run-later i (ev ∷ evs) l (q, qs) v = run-later i evs (step ev l) qs (step-IsStranded i ev l q v)

  length-IsStranded :
      (i : ℕ) (ss : List Subscription) → HasAt (IsStranded old item) i ss → 0 < load_all ss
  length-IsStranded i [] v = absurd v
  length-IsStranded zero (s ∷ ss) v = omega (
    arith,
    ap length v.queued,
    length-append (old.queue ++ (item ∷ [])) v.more,
    length-append old.queue (item ∷ []),
  )
  length-IsStranded (suc i) (s ∷ ss) v = omega (arith, length-IsStranded i ss v)

  queues-strands :
      (k : ℕ) (rest : List Bytes) (s' : Subscription) (c : Change)
      → old.worker ≡ stopped
      → old.unsubscribing ≡ 0
      → pull k old.sending ≡ some (item, rest)
      → act (queues k) old ≡ some (s', c)
      → IsStranded old item s'
  unfolding act
  queues-strands k rest s' c w u p h =
      let worker : s'.worker ≡ old.worker = ground arith in
      let unsubscribing : s'.unsubscribing ≡ old.unsubscribing = ground arith in
      let queue : s'.queue ≡ old.queue ++ (item ∷ []) = ground arith in
      let accepted : s'.accepted ≡ old.accepted ++ (item ∷ []) = ground arith in
      record {
        ended = (worker ∙ w, unsubscribing ∙ u);
        more = [];
        queued = queue ∙ sym (append-nil (old.queue ++ (item ∷ [])));
        accepted_all = accepted ∙ sym (append-nil (old.accepted ++ (item ∷ [])));
        none_taken = ground arith;
      }

  queues-succeeds :
      (k : ℕ) (rest : List Bytes)
      → pull k old.sending ≡ some (item, rest)
      → length old.queue < old.size
      → (s' : Subscription) × (c : Change) × (act (queues k) old ≡ some (s', c))
  unfolding act
  queues-succeeds k rest p room = elim (Option-cases (act (queues k) old)) [
    | inl e ↦ absurd (ground arith)
    | inr ((s', c), e) ↦ (s', c, e)
  ]

  act_at-strands :
      (i : ℕ) (a : Action) (s' : Subscription) (c : Change) (ss : List Subscription)
      → HasAt (λ s. s ≡ old) i ss
      → act a old ≡ some (s', c)
      → IsStranded old item s'
      → (ss' : List Subscription) × (act_at i a ss ≡ some (ss', c))
        × HasAt (IsStranded old item) i ss'
  unfolding act_at
  act_at-strands i a s' c [] v h st = absurd v
  act_at-strands zero a s' c (s ∷ ss) v h st = (s' ∷ ss, ground arith, st)
  act_at-strands (suc i) a s' c (s ∷ ss) v h st =
      let (ss', e, w) = act_at-strands i a s' c ss v h st in (s ∷ ss', ground arith, w)

run-append : (xs ys : List Event) (l : Lane) → run (xs ++ ys) l ≡ run ys (run xs l)
unfolding run
run-append [] ys l = refl
run-append (x ∷ xs) ys l = run-append xs ys (step x l)

-- After any schedule of a new lane, let the worker of a subscription have returned and every
-- `Unsubscribe` on it too, and let a publisher that counted its item before find room in the queue. The
-- item is accepted without an error; whatever happens then, as long as no one calls `Unsubscribe` on
-- that subscription again, nothing is taken off the queue any more, so the item stays in it, and the
-- lane counts something as pending.
pub run-IsStranded :
    (before : List Event) (size timeout : ℤ) (i k : ℕ) (s : Subscription) (item : Bytes)
    (rest : List Bytes) (after : List Event)
    → HasAt (λ x. x ≡ s) i (run before (new_lane size timeout)).subs
    → s.worker ≡ stopped
    → s.unsubscribing ≡ 0
    → pull k s.sending ≡ some (item, rest)
    → length s.queue < s.size
    → All (IsOther i) after
    → HasAt
        (IsStranded s item)
        i
        (run (before ++ (acts i (queues k) ∷ after)) (new_lane size timeout)).subs
      × (is_pending (run (before ++ (acts i (queues k) ∷ after)) (new_lane size timeout)) ≡ true)
unfolding run
run-IsStranded before size timeout i k s item rest after at w u p room q = (stranded, pending)
  where
    l : Lane
    l = run before (new_lane size timeout)

    end : Lane
    end = run (before ++ (acts i (queues k) ∷ after)) (new_lane size timeout)

    entered : HasAt (IsStranded s item) i (step (acts i (queues k)) l).subs
    entered =
        let (s', c, e) = queues-succeeds s item k rest p room in
        let (ss, e', v) =
          act_at-strands s item i (queues k) s' c l.subs at e
            (queues-strands s item k rest s' c w u p e) in
        rw (step, e') v

    stranded : HasAt (IsStranded s item) i end.subs
    stranded =
        subst (λ l. HasAt (IsStranded s item) i l.subs)
          (sym (run-append before (acts i (queues k) ∷ after) (new_lane size timeout)))
          (run-later s item i after (step (acts i (queues k)) l) q entered)

    pending : is_pending end ≡ true
    pending = ground (
      arith,
      (run-IsAccounted (before ++ (acts i (queues k) ∷ after)) size timeout).0,
      length-IsStranded s item i end.subs stranded,
    )
