-- ===== src/Outbox/Emit.antt =====
-- The callers of the outbox in pkg/runtime/runtime.go: the bus leg of an emission, `publishEvent`
-- and `kickDrain`, and the wait of pkg/runtime/outbox.go in front of them. Between two locked
-- sections other goroutines may change the outbox: `between` is all that they do meanwhile.
use fluxrig.Prelude.{
  ℕ, Bool, true, false, not, ◌||◌, List, [], ◌∷◌, Bytes, length, ltb, if◌then◌else◌,
}
use fluxrig.Outbox.{
  Outbox, down, is_state, held, park, park_event, park_event_if_held, park_if_held, begin_drain,
  has_events,
}

-- Why `waitClear` returns.
pub data WaitEnd : Type 0 where
  no_wait clear timed_out cancelled unfinished : WaitEnd

-- What its `select` meets: the channel that was signalled, the timer, or the context.
pub data Wake : Type 0 where
  moved_wake timer_wake done_wake : Wake

-- The test under the lock.
unfoldable pub must_wait : Bytes → Outbox → Bool
must_wait s o = not (not o.ordered || not (held s o) || not o.draining || is_state o.bus_state down)

-- The loop: the outbox as each round finds it, with what the round's `select` then meets.
unfoldable pub wait_loop : Bytes → List (Outbox × Wake) → WaitEnd
unfolding must_wait
wait_loop s [] = unfinished
wait_loop s ((o, wake) ∷ rounds) = elim (must_wait s o) [
  | false ↦ clear
  | true ↦ elim wake [
    | moved_wake ↦ wait_loop s rounds
    | timer_wake ↦ timed_out
    | done_wake ↦ cancelled
  ]
]

unfoldable pub wait_clear : ℕ → Bytes → List (Outbox × Wake) → WaitEnd
unfolding wait_loop
wait_clear wait s rounds = if ltb 0 wait then wait_loop s rounds else no_wait

-- What the bus says to a direct publish: `errNoBus`, or any other error.
pub data Published : Type 0 where
  took no_bus failed : Published

-- `reached`: the bus took it. `error`: the caller gets an error. `started`: a drain's goroutine
-- was started.
pub record Emission : Type 0 where
  pub outbox : Outbox
  pub reached : Bool
  pub error : Bool
  pub started : Bool

-- `kickDrain`.
unfoldable pub kick_drain : Bool → Bool → Bool → Outbox → Emission
unfolding begin_drain
kick_drain quiet reached error o =
    let (o', started) = begin_drain quiet o in
    record { outbox = o'; reached = reached; error = error; started = started }

abbrev pub ended : Bool → Bool → Outbox → Emission
ended reached error o = record { outbox = o; reached = reached; error = error; started = false }

-- `if m.outbox.len() > 0 { m.kickDrain(true) }`.
unfoldable pub kick_if_parked : Outbox → Emission
unfolding kick_drain
kick_if_parked o =
    if ltb 0 (length o.items) then kick_drain true true false o else ended true false o

-- The bus leg of an emission, behind `waitClear`.
unfoldable pub emit : Bytes → ℕ → Published → (Outbox → Outbox) → Outbox → Emission
unfolding park_if_held kick_drain kick_if_parked
emit s msg answer between o =
    let (o1, behind) = park_if_held s msg o in
    if behind then kick_drain true false false o1 else elim answer [
      | took ↦ kick_if_parked (between o1)
      | no_bus ↦ ended false true (between o1)
      | failed ↦ ended false false (park s msg (between o1))
    ]

-- `publishEvent`, behind `waitClear`. For an event no bus is an error like any other. The loop
-- that `retryParkedEvents` starts is `retry_tick`.
unfoldable pub publish_event : Bytes → ℕ → Published → (Outbox → Outbox) → Outbox → Emission
unfolding park_event_if_held park_event kick_drain kick_if_parked
publish_event s ev answer between o =
    let (o1, behind, parked) = park_event_if_held s ev o in
    if behind then kick_drain true false (not parked) o1 else elim answer [
      | took ↦ kick_if_parked (between o1)
      | _ ↦ (let (o2, parked') = park_event s ev (between o1) in ended false (not parked') o2)
    ]

-- One tick of the loop of `retryParkedEvents`: it ends, or requests a drain.
unfoldable pub retry_tick : Outbox → Emission × Bool
unfolding has_events kick_drain
retry_tick o =
    if not (has_events o)
    then (ended false false o, false)
    else (kick_drain true false false o, true)
