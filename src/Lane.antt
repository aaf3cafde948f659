-- ===== src/Lane.antt =====
-- pkg/runtime/lane.go: the lane between the gears of one rack. A goroutine's steps between two accesses
-- to shared data are one action, and a schedule is a list of actions; an action that cannot happen
-- leaves the lane as it is. A sender of `publish` first aims at a subscription (the snapshot of the
-- subscribers), then enters `enqueue`, and then its item is queued or given up; timers and contexts end
-- at any time. The worker is `run`. What was accepted and what was taken off the queue are recorded
-- beside the state. Items are their encoded bytes; decoding and logging are left out.
pub mod Account
pub mod Stranded
use fluxrig.Prelude.{
  ℕ, zero, suc, ◌+◌, ◌-◌, Bool, true, false, not, ◌&&◌, List, [], ◌∷◌, ◌++◌, Option, none, some,
  Bytes, length, ltb, ◌==◌, if◌then◌else◌,
}
use fluxrig.Prelude.Int.{ℤ, pos, negsuc}

-- The goroutine that feeds the handler: it waits, hands over an item, or has returned.
pub data Worker : Type 0 where
  idle handling stopped : Worker

-- `registered` says that the lane's map has it, `unsubscribing` counts the calls of `Unsubscribe` that
-- have not returned, and `dropping` the items they took off the queue and have not counted yet.
-- An item taken off the queue is recorded with whether the worker took it.
pub record Subscription : Type 0 where
  pub subject : Bytes
  pub size : ℕ
  pub queue : List Bytes
  pub registered : Bool
  pub is_done : Bool
  pub worker : Worker
  pub unsubscribing : ℕ
  pub dropping : ℕ
  pub aiming : List Bytes
  pub sending : List Bytes
  pub accepted : List Bytes
  pub taken : List (Bytes × Bool)

pub record Lane : Type 0 where
  pub subs : List Subscription
  pub queue_size : ℕ
  pub send_timeout : ℕ
  pub pending : ℕ

-- `configure`.
abbrev pub positive_or : ℕ → ℤ → ℕ
positive_or default (pos n) = if ltb 0 n then n else default
positive_or default (negsuc n) = default

unfoldable pub configure : ℤ → ℤ → Lane → Lane
configure size timeout l = record l {
  queue_size = positive_or 1024 size;
  send_timeout = positive_or 5000000000 timeout;
}

unfoldable pub new_lane : ℤ → ℤ → Lane
unfolding configure
new_lane size timeout =
    configure size timeout (record { subs = []; queue_size = 0; send_timeout = 0; pending = 0 })

unfoldable pub new_subscription : Bytes → ℕ → Subscription
new_subscription subject size = record {
  subject = subject;
  size = size;
  queue = [];
  registered = true;
  is_done = false;
  worker = idle;
  unsubscribing = 0;
  dropping = 0;
  aiming = [];
  sending = [];
  accepted = [];
  taken = [];
}

pub data Action : Type 0 where
  aims : Bytes → Action
  enters queues gives_up sees_done : ℕ → Action
  takes finishes stops : Action
  closes unregisters drops counts_drop returns : Action

-- What an action does to `pending`.
pub data Change : Type 0 where
  up same down : Change

unfoldable pub change : Change → ℕ → ℕ
change up n = n + 1
change same n = n
change down n = n - 1

-- The goroutine at a place, and the others.
unfoldable pub pull : ℕ → List Bytes → Option (Bytes × List Bytes)
pull k [] = none
pull zero (x ∷ xs) = some (x, xs)
pull (suc k) (x ∷ xs) = elim (pull k xs) [ none ↦ none | some (y, ys) ↦ some (y, x ∷ ys) ]

abbrev pub is_idle : Worker → Bool
is_idle idle = true
is_idle _ = false

abbrev pub is_handling : Worker → Bool
is_handling handling = true
is_handling _ = false

abbrev pub when : Bool → Subscription × Change → Option (Subscription × Change)
when test r = if test then some r else none

abbrev pub Result : Type 0
Result = Option (Subscription × Change)

-- The snapshot of the subscribers in `publish`.
abbrev pub aim : Bytes → Subscription → Result
aim item s = when s.registered (record s { aiming = item ∷ s.aiming }, same)

-- `enqueue`: it counts the item; there is room; the timer or the context ends; or `done` is closed.
abbrev pub enter : ℕ → Subscription → Result
enter k s = elim (pull k s.aiming) [
  | none ↦ none
  | some (item, rest) ↦ some (record s { aiming = rest; sending = item ∷ s.sending }, up)
]

abbrev pub enqueue : ℕ → Subscription → Result
enqueue k s = elim (pull k s.sending) [
  | none ↦ none
  | some (item, rest) ↦ when (ltb (length s.queue) s.size) (
    record s {
      sending = rest;
      queue = s.queue ++ (item ∷ []);
      accepted = s.accepted ++ (item ∷ []);
    },
    same,
  )
]

abbrev pub give_up : ℕ → Subscription → Result
give_up k s = elim (pull k s.sending) [
  | none ↦ none
  | some (item, rest) ↦ some (record s { sending = rest }, down)
]

abbrev pub see_done : ℕ → Subscription → Result
see_done k s = elim (pull k s.sending) [
  | none ↦ none
  | some (item, rest) ↦ when s.is_done (record s { sending = rest }, down)
]

-- `run`: an item is received; it was handed to the handler, and is counted; `done` is seen. When an
-- item is there and `done` is closed, either may be chosen.
abbrev pub take_item : Subscription → Result
take_item s = elim s.queue [
  | [] ↦ none
  | item ∷ rest ↦
      when (is_idle s.worker)
        (record s { worker = handling; queue = rest; taken = s.taken ++ ((item, true) ∷ []) }, same)
]

abbrev pub finish : Subscription → Result
finish s = when (is_handling s.worker) (record s { worker = idle }, down)

abbrev pub stop : Subscription → Result
stop s = when (is_idle s.worker && s.is_done) (record s { worker = stopped }, same)

-- `Unsubscribe`: `done` is closed, the lane forgets the subscription, and after a wait that may have
-- given up the queue is emptied, until it is empty.
abbrev pub close_done : Subscription → Result
close_done s = some (record s { is_done = true; unsubscribing = s.unsubscribing + 1 }, same)

abbrev pub unregister : Subscription → Result
unregister s = when s.is_done (record s { registered = false }, same)

abbrev pub drop_item : Subscription → Result
drop_item s = elim s.queue [
  | [] ↦ none
  | item ∷ rest ↦ when (ltb s.dropping s.unsubscribing && not s.registered) (
    record s { queue = rest; dropping = s.dropping + 1; taken = s.taken ++ ((item, false) ∷ []) },
    same,
  )
]

abbrev pub count_drop : Subscription → Result
count_drop s = when (ltb 0 s.dropping) (record s { dropping = s.dropping - 1 }, down)

abbrev pub return_from : Subscription → Result
return_from s = elim s.queue [
  | [] ↦
      when (ltb s.dropping s.unsubscribing && not s.registered)
        (record s { unsubscribing = s.unsubscribing - 1 }, same)
  | item ∷ rest ↦ none
]

unfoldable pub act : Action → Subscription → Result
unfolding pull
act (aims item) s = aim item s
act (enters k) s = enter k s
act (queues k) s = enqueue k s
act (gives_up k) s = give_up k s
act (sees_done k) s = see_done k s
act takes s = take_item s
act finishes s = finish s
act stops s = stop s
act closes s = close_done s
act unregisters s = unregister s
act drops s = drop_item s
act counts_drop s = count_drop s
act returns s = return_from s

-- A call of `subscribe`, a new configuration, or an action at the subscription at a place.
pub data Event : Type 0 where
  subscribes : Bytes → Event
  configures : ℤ → ℤ → Event
  acts : ℕ → Action → Event

unfoldable pub act_at : ℕ → Action → List Subscription → Option (List Subscription × Change)
unfolding act
act_at k a [] = none
act_at zero a (s ∷ ss) = elim (act a s) [ none ↦ none | some (s', c) ↦ some (s' ∷ ss, c) ]
act_at (suc k) a (s ∷ ss) = elim (act_at k a ss) [ none ↦ none | some (ss', c) ↦ some (s ∷ ss', c) ]

unfoldable pub step : Event → Lane → Lane
unfolding new_subscription configure act_at change
step (subscribes subject) l = record l {
  subs = l.subs ++ (new_subscription subject l.queue_size ∷ []);
}
step (configures size timeout) l = configure size timeout l
step (acts k a) l = elim (act_at k a l.subs) [
  | none ↦ l
  | some (subs', c) ↦ record l { subs = subs'; pending = change c l.pending }
]

unfoldable pub run : List Event → Lane → Lane
unfolding step
run [] l = l
run (ev ∷ evs) l = run evs (step ev l)

-- `quiesce` goes on as long as this holds.
abbrev pub is_pending : Lane → Bool
is_pending l = ltb 0 l.pending
