-- ===== src/Tests/Lanes.antt =====
-- Schedules of a lane with one subscription.
use fluxrig.Prelude.{◌≡◌, refl, true, false, arith, List, [], ◌∷◌, ◌++◌, codes}
use fluxrig.Prelude.Int.{pos}
use fluxrig.Lane.{
  new_lane, configure, new_subscription, act, act_at, pull, change, aims, enters, takes, finishes,
  closes, unregisters, stops, drops, returns, queues, stopped, Subscription, Event, subscribes,
  acts, step, run, is_pending,
}
use fluxrig.Lane.Account.{IsAccounted, run-IsAccounted}
use fluxrig.Lane.Stranded.{HasAt, IsStranded, run-IsStranded}

-- A message is accepted and handled.
abbrev delivery : List Event
delivery =
    subscribes (codes "a.in")
    ∷ acts 0 (aims (codes "m"))
    ∷ acts 0 (enters 0)
    ∷ acts 0 (queues 0)
    ∷ acts 0 takes
    ∷ acts 0 finishes
    ∷ []

delivery-run : (run delivery (new_lane (pos 2) (pos 0))).pending ≡ 0
unfolding run step new_lane configure new_subscription act_at act pull change
delivery-run = refl

run-IsAccounted_example : IsAccounted (run delivery (new_lane (pos 2) (pos 0)))
run-IsAccounted_example = run-IsAccounted delivery (pos 2) (pos 0)

-- A publisher has the subscription in its snapshot when this ends, and only then counts its item.
abbrev ended : List Event
ended =
    subscribes (codes "a.in")
    ∷ acts 0 (aims (codes "m"))
    ∷ acts 0 closes
    ∷ acts 0 unregisters
    ∷ acts 0 stops
    ∷ acts 0 returns
    ∷ acts 0 (enters 0)
    ∷ []

abbrev ended_subscription : Subscription
ended_subscription = record {
  subject = codes "a.in";
  size = 2;
  queue = [];
  registered = false;
  is_done = true;
  worker = stopped;
  unsubscribing = 0;
  dropping = 0;
  aiming = [];
  sending = codes "m" ∷ [];
  accepted = [];
  taken = [];
}

ended-run : (run ended (new_lane (pos 2) (pos 0))).subs ≡ ended_subscription ∷ []
unfolding run step new_lane configure new_subscription act_at act pull change
ended-run = refl

-- Afterwards a drop is tried.
abbrev late : List Event
late = acts 0 takes ∷ acts 0 drops ∷ acts 0 returns ∷ []

run-IsStranded_example :
    HasAt
      (IsStranded ended_subscription (codes "m"))
      0
      (run (ended ++ (acts 0 (queues 0) ∷ late)) (new_lane (pos 2) (pos 0))).subs
    × (is_pending (run (ended ++ (acts 0 (queues 0) ∷ late)) (new_lane (pos 2) (pos 0))) ≡ true)
unfolding pull
run-IsStranded_example =
    run-IsStranded ended (pos 2) (pos 0) 0 0 ended_subscription (codes "m") [] late
      (rw ended-run refl) refl refl refl (omega arith)
      ((λ e. refl), ((λ e. refl), ((λ e. refl), tt)))
