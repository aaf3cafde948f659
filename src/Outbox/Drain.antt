-- ===== src/Outbox/Drain.antt =====
-- `runDrain` and `publishWithRetries`. What the source does not decide is a `World`: the context,
-- the bus, and the calls that other goroutines make on the outbox whenever the lock is free. The
-- configuration is set before a drain starts, so `retries` is read once for each item.
use fluxrig.Prelude.{
  ℕ, zero, suc, ◌+◌, Bool, true, false, not, ◌&&◌, ◌||◌, List, [], ◌∷◌, Option, none, some, Bytes,
  equal, ◌==◌,
}
use fluxrig.Outbox.{
  Item, Outbox, up, down, held, park, park_event, park_event_if_held, park_if_held, begin_drain,
  holds, remove, set_bus_state, end_drain,
}

-- The bus took the message, says that it can never take it (`bus.ErrInvalidMessage`), or did not
-- take it (any other error).
pub data Answer : Type 0 where
  accepted invalid refused : Answer

-- The calls that other goroutines make: emissions and drain requests.
pub data Call : Type 0 where
  park_call park_if_held_call park_event_call park_event_if_held_call : Bytes → ℕ → Call
  begin_drain_call : Bool → Call

unfoldable pub apply_call : Call → Outbox → Outbox
apply_call (park_call s p) o = park s p o
apply_call (park_if_held_call s p) o = (park_if_held s p o).0
apply_call (park_event_call s p) o = (park_event s p o).0
apply_call (park_event_if_held_call s p) o = (park_event_if_held s p o).0
apply_call (begin_drain_call quiet) o = (begin_drain quiet o).0

unfoldable pub apply_calls : List Call → Outbox → Outbox
apply_calls [] o = o
apply_calls (c ∷ cs) o = apply_calls cs (apply_call c o)

-- `done` is `ctx.Err() != nil`; `send` is `publish` or `sendEvent`; `turn` is what other goroutines
-- do while the drain does not hold the lock.
pub record World : Type 1 where
  pub Env : Type 0
  pub done : Env → Bool
  pub send : Env → Item → Env × Answer
  pub turn : Env → Outbox → Env × List Call

-- What `publishWithRetries` returns; `kept` is any error but the other two, the context's included.
pub data Outcome : Type 0 where
  sent evicted dropped_invalid kept : Outcome

abbrev pub mem_subject : Bytes → List Bytes → Bool
mem_subject s [] = false
mem_subject s (t ∷ ts) = equal t s || mem_subject s ts

module _ (w : World) where
  open w use {Env, done, send, turn}

  abbrev pub State : Type 0
  State = Env × Outbox

  unfoldable pub others : State → State
  unfolding apply_calls
  others (e, o) = let (e', calls) = turn e o in (e', apply_calls calls o)

  -- One round after the bus has answered; the flag says whether the loop goes on.
  unfoldable pub after_answer : Answer → State → State × Option Outcome
  after_answer accepted (e, o) = ((e, set_bus_state up o), some sent)
  after_answer invalid (e, o) = ((e, set_bus_state up o), some dropped_invalid)
  after_answer refused (e, o) = ((e, set_bus_state down o), none)

  -- The loop of `publishWithRetries`, on the attempts that are left. Its `select` on the context or
  -- the timer is the test of the context at the head of the next round.
  unfoldable pub publish_with_retries : ℕ → Item → State → State × Outcome
  publish_with_retries zero it (e, o) = ((e, o), kept)
  publish_with_retries (suc n) it (e, o) = elim (done e) [
    | true ↦ ((e, o), kept)
    | false ↦
        let (e1, o1) = others (e, o) in
        elim (holds o1 it) [
          | false ↦ ((e1, o1), evicted)
          | true ↦
              let (e2, answer) = send e1 it in
              let (s, outcome) = after_answer answer (others (e2, o1)) in
              elim outcome [ some r ↦ (s, r) | none ↦ publish_with_retries n it s ]
        ]
  ]

  -- The `for` over one pass: the rest of the snapshot, the subjects held in this pass, and how many
  -- items were forwarded. The flag of the result is set when the context has ended.
  unfoldable pub run_pass : List Item → Bool → List Bytes → ℕ → State → State × ℕ × Bool
  run_pass [] ordered held forwarded s = (s, forwarded, false)
  run_pass (it ∷ its) ordered held forwarded (e, o) = elim (done e) [
    | true ↦ ((e, o), forwarded, true)
    | false ↦ elim (ordered && mem_subject it.subject held) [
      | true ↦ run_pass its ordered held forwarded (e, o)
      | false ↦
          let ((e1, o1), outcome) = publish_with_retries (suc o.retries) it (e, o) in
          elim outcome [
            | evicted ↦ run_pass its ordered held forwarded (e1, o1)
            | sent ↦
                let (e2, o2) = others (e1, o1) in
                run_pass its ordered held (forwarded + 1) (e2, remove it false o2)
            | dropped_invalid ↦
                let (e2, o2) = others (e1, o1) in
                run_pass its ordered held (forwarded + 1) (e2, remove it true o2)
            | kept ↦ run_pass its ordered (it.subject ∷ held) forwarded (e1, o1)
          ]
    ]
  ]

  abbrev pub stop : State → State
  stop s = let (e, o) = others s in (e, end_drain o)

  -- The loop of `runDrain`, for at most so many rounds, with the state that it reaches. The second
  -- result is `none` if the rounds ran out, else whether the drain ends with the warning.
  unfoldable pub run_drain : ℕ → Bool → State → State × Option Bool
  run_drain zero quiet s = (s, none)
  run_drain (suc fuel) quiet (e, o) = elim (done e) [
    | true ↦ (stop (e, o), some false)
    | false ↦
        let (e1, o1) = others (e, o) in
        elim o1.items [
          | [] ↦ ((e1, end_drain o1), some false)
          | x ∷ xs ↦
              let (s2, forwarded, ended) = run_pass o1.items o1.ordered [] 0 (e1, o1) in
              elim ended [
                | true ↦ (stop s2, some false)
                | false ↦ elim (forwarded == 0) [
                  | false ↦ run_drain fuel quiet s2
                  | true ↦
                      let (e3, o3) = others s2 in
                      elim o3.again [
                        | true ↦
                            run_drain fuel (quiet && not o3.again_loud)
                              (e3, record o3 { again = false; again_loud = false })
                        | false ↦ ((e3, end_drain o3), some (not quiet))
                      ]
                ]
              ]
        ]
  ]

  -- `drain`: nothing when one already runs.
  unfoldable pub drain : ℕ → Bool → State → Option State
  drain fuel quiet (e, o) =
      let (o', started) = begin_drain quiet o in
      elim started [
        | false ↦ some (e, o')
        | true ↦
            let (s, ending) = run_drain fuel quiet (e, o') in
            elim ending [ none ↦ none | some warned ↦ some s ]
      ]
