-- ===== src/Lane/Account.antt =====
-- The count of pending items, and the order of a subscription.
use fluxrig.Prelude.{
  ℕ, zero, suc, ◌+◌, ◌≤◌, ◌≡◌, ◌⊎◌, refl, sym, ap, ◌∙◌, Bool, true, false, List, [], ◌∷◌, ◌++◌,
  append_assoc, some, Bytes, length, length-append, arith, All, inl, inr, Option-cases,
  if◌then◌else◌,
}
use fluxrig.Prelude.Int.{ℤ}
use fluxrig.Lane.{
  Subscription, Lane, configure, new_lane, new_subscription, Action, aims, enters, queues, gives_up,
  sees_done, takes, finishes, stops, closes, unregisters, drops, counts_drop, returns, Change, up,
  same, down, change, pull, is_handling, act, Event, subscribes, configures, acts, act_at, step,
  run,
}

-- The items of a subscription that are counted: those of its senders, in its queue, with its handler,
-- and taken off by an `Unsubscribe` that has not counted them yet.
abbrev pub load : Subscription → ℕ
load s = length s.sending + length s.queue + (if is_handling s.worker then 1 else 0) + s.dropping

abbrev pub load_all : List Subscription → ℕ
load_all [] = 0
load_all (s ∷ ss) = load s + load_all ss

-- What is changed from one number to the other.
abbrev pub IsChange : Change → ℕ → ℕ → Type 0
IsChange up m n = n ≡ m + 1
IsChange same m n = n ≡ m
IsChange down m n = m ≡ n + 1

length-pull :
    (k : ℕ) (xs : List Bytes) {y : Bytes} {ys : List Bytes}
    → pull k xs ≡ some (y, ys)
    → length xs ≡ suc (length ys)
unfolding pull
length-pull k [] h = cc
length-pull zero (x ∷ xs) h = ground arith
length-pull (suc k) (x ∷ xs) h = elim (Option-cases (pull k xs)) [
  | inl e ↦ absurd (ground arith)
  | inr ((z, zs), e) ↦ ground (arith, length-pull k xs e)
]

act-IsChange :
    (a : Action) (s s' : Subscription) (c : Change)
    → act a s ≡ some (s', c)
    → IsChange c (load s) (load s')
unfolding act
act-IsChange (aims item) s s' c h = ground arith
act-IsChange (enters k) s s' c h = elim (Option-cases (pull k s.aiming)) [
  | inl e ↦ absurd (ground arith)
  | inr ((item, rest), e) ↦ ground arith
]
act-IsChange (queues k) s s' c h = elim (Option-cases (pull k s.sending)) [
  | inl e ↦ absurd (ground arith)
  | inr ((item, rest), e) ↦
      ground (arith, length-pull k s.sending e, length-append s.queue (item ∷ []))
]
act-IsChange (gives_up k) s s' c h = elim (Option-cases (pull k s.sending)) [
  | inl e ↦ absurd (ground arith)
  | inr ((item, rest), e) ↦ ground (arith, length-pull k s.sending e)
]
act-IsChange (sees_done k) s s' c h = elim (Option-cases (pull k s.sending)) [
  | inl e ↦ absurd (ground arith)
  | inr ((item, rest), e) ↦ ground (arith, length-pull k s.sending e)
]
act-IsChange takes s s' c h = ground arith
act-IsChange finishes s s' c h = ground arith
act-IsChange stops s s' c h = ground arith
act-IsChange closes s s' c h = ground arith
act-IsChange unregisters s s' c h = ground arith
act-IsChange drops s s' c h = ground arith
act-IsChange counts_drop s s' c h = ground arith
act-IsChange returns s s' c h = ground arith

-- The items that were taken off a queue, in order.
abbrev pub items : List (Bytes × Bool) → List Bytes
items [] = []
items ((item, was_handled) ∷ xs) = item ∷ items xs

items-append :
    (xs : List (Bytes × Bool)) (item : Bytes) (b : Bool)
    → items (xs ++ ((item, b) ∷ [])) ≡ items xs ++ (item ∷ [])
items-append [] item b = refl
items-append ((x, c) ∷ xs) item b = ap (λ ys. x ∷ ys) (items-append xs item b)

-- What was accepted is what was taken and then what is queued, and the queue is within its size.
abbrev pub IsOrdered : Subscription → Type 0
IsOrdered s = (s.accepted ≡ items s.taken ++ s.queue) × (length s.queue ≤ s.size)

queue-cases : (xs : List Bytes) → (xs ≡ []) ⊎ ((x : Bytes) × (ys : List Bytes) × (xs ≡ x ∷ ys))
queue-cases [] = inl refl
queue-cases (x ∷ xs) = inr (x, xs, refl)

-- The first item of the queue is taken.
moved :
    (accepted : List Bytes) (taken : List (Bytes × Bool)) (item : Bytes) (rest : List Bytes)
    (b : Bool)
    → accepted ≡ items taken ++ (item ∷ rest)
    → accepted ≡ items (taken ++ ((item, b) ∷ [])) ++ rest
moved accepted taken item rest b h =
    h
    ∙ sym (
        ap (λ xs. xs ++ rest) (items-append taken item b)
        ∙ append_assoc (items taken) (item ∷ []) rest)

act-IsOrdered :
    (a : Action) (s s' : Subscription) (c : Change)
    → IsOrdered s
    → act a s ≡ some (s', c)
    → IsOrdered s'
unfolding act
act-IsOrdered (aims item) s s' c v h = ground (arith, v)
act-IsOrdered (enters k) s s' c v h = elim (Option-cases (pull k s.aiming)) [
  | inl e ↦ absurd (ground arith)
  | inr ((item, rest), e) ↦ ground (arith, v)
]
act-IsOrdered (queues k) s s' c v h = elim (Option-cases (pull k s.sending)) [
  | inl e ↦ absurd (ground arith)
  | inr ((item, rest), e) ↦ ground (
    arith,
    v,
    append_assoc (items s.taken) s.queue (item ∷ []),
    length-append s.queue (item ∷ []),
  )
]
act-IsOrdered (gives_up k) s s' c v h = elim (Option-cases (pull k s.sending)) [
  | inl e ↦ absurd (ground arith)
  | inr ((item, rest), e) ↦ ground (arith, v)
]
act-IsOrdered (sees_done k) s s' c v h = elim (Option-cases (pull k s.sending)) [
  | inl e ↦ absurd (ground arith)
  | inr ((item, rest), e) ↦ ground (arith, v)
]
act-IsOrdered takes s s' c v h = elim (queue-cases s.queue) [
  | inl e ↦ absurd (ground arith)
  | inr (item, rest, e) ↦
      let was : s.accepted ≡ items s.taken ++ (item ∷ rest) =
        v.0 ∙ ap (λ q. items s.taken ++ q) e in
      ground (arith, v, moved s.accepted s.taken item rest true was)
]
act-IsOrdered finishes s s' c v h = ground (arith, v)
act-IsOrdered stops s s' c v h = ground (arith, v)
act-IsOrdered closes s s' c v h = ground (arith, v)
act-IsOrdered unregisters s s' c v h = ground (arith, v)
act-IsOrdered drops s s' c v h = elim (queue-cases s.queue) [
  | inl e ↦ absurd (ground arith)
  | inr (item, rest, e) ↦
      let was : s.accepted ≡ items s.taken ++ (item ∷ rest) =
        v.0 ∙ ap (λ q. items s.taken ++ q) e in
      ground (arith, v, moved s.accepted s.taken item rest false was)
]
act-IsOrdered counts_drop s s' c v h = ground (arith, v)
act-IsOrdered returns s s' c v h = ground (arith, v)

load_all-append : (ss ts : List Subscription) → load_all (ss ++ ts) ≡ load_all ss + load_all ts
load_all-append [] ts = omega arith
load_all-append (s ∷ ss) ts = omega (arith, load_all-append ss ts)

act_at-IsChange :
    (k : ℕ) (a : Action) (ss ss' : List Subscription) (c : Change)
    → act_at k a ss ≡ some (ss', c)
    → IsChange c (load_all ss) (load_all ss')
unfolding act_at
act_at-IsChange k a [] ss' c h = cc
act_at-IsChange zero a (s ∷ ss) ss' c h = elim (Option-cases (act a s)) [
  | inl e ↦ absurd (ground arith)
  | inr ((s', c'), e) ↦ ground (arith, act-IsChange a s s' c' e)
]
act_at-IsChange (suc k) a (s ∷ ss) ss' c h = elim (Option-cases (act_at k a ss)) [
  | inl e ↦ absurd (ground arith)
  | inr ((ts, c'), e) ↦ ground (arith, act_at-IsChange k a ss ts c' e)
]

act_at-IsOrdered :
    (k : ℕ) (a : Action) (ss ss' : List Subscription) (c : Change)
    → All IsOrdered ss
    → act_at k a ss ≡ some (ss', c)
    → All IsOrdered ss'
unfolding act_at
act_at-IsOrdered k a [] ss' c v h = cc
act_at-IsOrdered zero a (s ∷ ss) ss' c (w, v) h = elim (Option-cases (act a s)) [
  | inl e ↦ absurd (ground arith)
  | inr ((s', c'), e) ↦
      let at : s' ∷ ss ≡ ss' = ground arith in rw (← at) (act-IsOrdered a s s' c' w e, v)
]
act_at-IsOrdered (suc k) a (s ∷ ss) ss' c (w, v) h = elim (Option-cases (act_at k a ss)) [
  | inl e ↦ absurd (ground arith)
  | inr ((ts, c'), e) ↦
      let at : s ∷ ts ≡ ss' = ground arith in rw (← at) (w, act_at-IsOrdered k a ss ts c' v e)
]

All-append :
    (ss : List Subscription) (s : Subscription)
    → All IsOrdered ss
    → IsOrdered s
    → All IsOrdered (ss ++ (s ∷ []))
All-append [] s v w = (w, tt)
All-append (r ∷ ss) s (x, v) w = (x, All-append ss s v w)

change-IsChange : (c : Change) (p m n : ℕ) → p ≡ m → IsChange c m n → change c p ≡ n
unfolding change
change-IsChange up p m n e h = omega arith
change-IsChange same p m n e h = omega arith
change-IsChange down p m n e h = omega arith

-- The invariant of the lane.
abbrev pub IsAccounted : Lane → Type 0
IsAccounted l = (l.pending ≡ load_all l.subs) × All IsOrdered l.subs

step-IsAccounted : (ev : Event) (l : Lane) → IsAccounted l → IsAccounted (step ev l)
unfolding step
step-IsAccounted (subscribes subject) l (p, v) =
    unfold new_subscription in
    (
      omega (arith, p, load_all-append l.subs (new_subscription subject l.queue_size ∷ [])),
      All-append l.subs (new_subscription subject l.queue_size) v (refl, omega arith),
    )
step-IsAccounted (configures size timeout) l v = unfold configure in v
step-IsAccounted (acts k a) l (p, v) = elim (Option-cases (act_at k a l.subs)) [
  | inl e ↦ rw (step, e) (p, v)
  | inr ((ss, c), e) ↦
      rw (step, e)
        (
          change-IsChange c l.pending (load_all l.subs) (load_all ss) p
              (act_at-IsChange k a l.subs ss c e),
          act_at-IsOrdered k a l.subs ss c v e,
        )
]

pub run-keeps : (evs : List Event) (l : Lane) → IsAccounted l → IsAccounted (run evs l)
unfolding run
run-keeps [] l v = v
run-keeps (ev ∷ evs) l v = run-keeps evs (step ev l) (step-IsAccounted ev l v)

-- Under any schedule of a new lane, the pending count is the number of items that are on their way to a
-- queue, in a queue, with a handler, or taken off by an `Unsubscribe` and not counted yet; the items
-- that a subscription accepted are those taken from its queue and those still in it, in the order of
-- acceptance; and no queue is longer than its size.
pub run-IsAccounted :
    (evs : List Event) (size timeout : ℤ) → IsAccounted (run evs (new_lane size timeout))
unfolding new_lane configure
run-IsAccounted evs size timeout = run-keeps evs (new_lane size timeout) (refl, tt)
