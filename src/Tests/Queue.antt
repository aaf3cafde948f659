-- ===== src/Tests/Queue.antt =====
-- The outbox: a queue with two messages and an event, and a bus that refuses at first.
use fluxrig.Prelude.{
  ℕ, ◌+◌, ◌≤◌, ◌≡◌, refl, Bool, true, false, List, [], ◌∷◌, ◌++◌, ◌⊎◌, some, arith, codes, equal,
  length, ltb, if◌then◌else◌,
}
use fluxrig.Outbox.{
  Item, Outbox, unknown, message, event_item, park, held, has_events, contains, remove,
  without_event, same, same_pointer, make_room, holds, set_bus_state,
}
use fluxrig.Outbox.Drain.{
  Answer, accepted, refused, park_call, run_drain, World, others, apply_call, run_pass,
  publish_with_retries, after_answer,
}
use fluxrig.Outbox.Emit.{emit, publish_event, failed}
use fluxrig.Outbox.Order.{Log, quiet_world, on, Distinct, run_drain-in_order}
use fluxrig.Outbox.Balance.{IsBalanced, run_drain-IsBalanced, length-park}
use fluxrig.Outbox.Evict.{
  messages, park-keeps_messages, park-drops_oldest, emit-behind, emit-accounted,
  publish_event-accounted,
}

abbrev in_a : ℕ → Item
in_a msg = message (codes "a") msg

abbrev in_b : ℕ → Item
in_b msg = message (codes "b") msg

abbrev empty_outbox : Outbox
empty_outbox = record {
  items = [];
  max = 3;
  retries = 1;
  ordered = true;
  draining = false;
  again = false;
  again_loud = false;
  bus_state = unknown;
  moved = 0;
  wait = 0;
  dropped = 0;
  parked = 0;
  drained = 0;
}

abbrev full_outbox : Outbox
full_outbox = record empty_outbox {
  items = in_a 1 ∷ event_item (codes "b") 2 ∷ in_a 3 ∷ [];
  parked = 3;
}

abbrev plain_outbox : Outbox
plain_outbox = record empty_outbox { items = in_a 1 ∷ in_b 2 ∷ in_a 3 ∷ []; parked = 3 }

-- A bus that refuses until the clock shows 4, and a context that never ends.
abbrev slow_bus : ℕ → Item → Answer
slow_bus tick it = if ltb tick 4 then refused else accepted

abbrev slow_world : World
slow_world = quiet_world slow_bus (λ tick. false)

abbrev log : Log
log = record { settled = []; tick = 0 }

full_outbox-Distinct : Distinct full_outbox.items
unfolding same same_pointer
full_outbox-Distinct = ((refl, (refl, tt)), ((refl, tt), (tt, tt)))

run_drain-in_order_example :
    (r : (Log × Outbox) × Bool) × (run_drain slow_world 4 true (log, full_outbox) ≡ (r.0, some r.1))
    × (on (codes "a") r.0.0.settled ++ on (codes "a") r.0.1.items
        ≡ on (codes "a") [] ++ on (codes "a") full_outbox.items)
run_drain-in_order_example =
    run_drain-in_order slow_bus (λ tick. false) (codes "a") 4 true log full_outbox refl refl
      full_outbox-Distinct (omega arith)

full_outbox-IsBalanced : IsBalanced full_outbox
full_outbox-IsBalanced = record { positive = omega arith; fits = omega arith; balance = refl }

-- A bus that takes everything, and another goroutine that parks a message whenever the queue has
-- one item left.
abbrev busy_world : World
busy_world = record {
  Env = ℕ;
  done = λ e. false;
  send = λ e it. (e, accepted);
  turn = λ e o. (e + 1, if ltb e 2 then park_call (codes "b") (10 + e) ∷ [] else []);
}

busy_run : (run_drain busy_world 4 true (0, plain_outbox)).1 ≡ some false
unfolding run_drain others apply_call park make_room run_pass publish_with_retries holds same
    after_answer remove set_bus_state
busy_run = refl

plain_outbox-IsBalanced : IsBalanced plain_outbox
plain_outbox-IsBalanced = record { positive = omega arith; fits = omega arith; balance = refl }

run_drain-IsBalanced_example : IsBalanced (run_drain busy_world 4 true (0, plain_outbox)).0.1
run_drain-IsBalanced_example =
    run_drain-IsBalanced busy_world 4 true (0, plain_outbox) plain_outbox-IsBalanced

length-park_run : length (park (codes "a") 9 full_outbox).items ≤ 3
length-park_run = length-park (codes "a") 9 full_outbox (omega arith)

park-keeps_messages_run :
    messages (park (codes "a") 9 full_outbox).items ≡ in_a 1 ∷ in_a 3 ∷ in_a 9 ∷ []
unfolding has_events without_event
park-keeps_messages_run = park-keeps_messages (codes "a") 9 full_outbox refl refl

park-drops_oldest_run : (park (codes "a") 9 plain_outbox).items ≡ in_b 2 ∷ in_a 3 ∷ in_a 9 ∷ []
unfolding has_events without_event
park-drops_oldest_run =
    park-drops_oldest (codes "a") 9 plain_outbox (in_a 1) (in_b 2 ∷ in_a 3 ∷ []) refl refl refl

emit-behind_run :
    ((emit (codes "b") 9 failed (λ o. o) full_outbox).reached ≡ false)
    × ((emit (codes "b") 9 failed (λ o. o) full_outbox).error ≡ false)
    × ((q : List Item) × ((emit (codes "b") 9 failed (λ o. o) full_outbox).outbox.items
          ≡ q ++ (in_b 9 ∷ [])))
unfolding held equal
emit-behind_run = emit-behind (codes "b") 9 failed (λ o. o) full_outbox refl refl

emit-accounted_example :
    ((emit (codes "c") 9 failed (λ o. o) full_outbox).reached ≡ true)
    ⊎ (contains
          (emit (codes "c") 9 failed (λ o. o) full_outbox).outbox.items
          (message (codes "c") 9)
        ≡ true)
unfolding emit held equal
emit-accounted_example = emit-accounted (codes "c") 9 failed (λ o. o) full_outbox refl

publish_event-accounted_example :
    ((publish_event (codes "c") 9 failed (λ o. o) full_outbox).reached ≡ true)
    ⊎ (contains
          (publish_event (codes "c") 9 failed (λ o. o) full_outbox).outbox.items
          (event_item (codes "c") 9)
        ≡ true)
    ⊎ (((publish_event (codes "c") 9 failed (λ o. o) full_outbox).error ≡ true)
        × ((publish_event (codes "c") 9 failed (λ o. o) full_outbox).outbox.max
            ≤ length (publish_event (codes "c") 9 failed (λ o. o) full_outbox).outbox.items))
publish_event-accounted_example = publish_event-accounted (codes "c") 9 failed (λ o. o) full_outbox
