-- ===== src/Tests/Tickets.antt =====
-- Tickets of the correlation engine: parked, answered, answered again, and timed out.
use fluxrig.Prelude.{
  ℕ, ◌≡◌, refl, false, List, [], ◌∷◌, none, some, codes, equal, ◌<◌, ◌+◌, ltb, length, arith,
}
use fluxrig.Prelude.Int.{pos}
use fluxrig.Prelude.Map.{find, put, erase, occurrences}
use fluxrig.Valet.{
  Config, Engine, running, new, ParkRequest, ticket_at, park, open_new, insert_ticket,
  effective_ttl, take_ticket, close_ticket, dec_open, redeem, redeemed, failed, already_redeemed,
  replayed, expire,
}
use fluxrig.Valet.History.{
  Call, park_call, redeem_call, expire_call, made, answered, timed_out, step, run,
}
use fluxrig.Valet.Once.{run-once, makings, settlings, one}
use fluxrig.Valet.Rule.{IsConsistent}
use fluxrig.Valet.Consistent.{run-IsConsistent}
use fluxrig.Valet.Replies.{redeem-replay}

abbrev config : Config
config = record {
  default_ttl = pos 0;
  max_ttl = pos 0;
  max_in_flight = pos 2;
  retain_after_close = pos 0;
  on_expire = false;
}

abbrev fresh : Engine
fresh = record {
  default_ttl = 60000000000;
  max_ttl = 0;
  max_in_flight = 2;
  retain = 5000000000;
  on_expire = false;
  tickets = [];
  store = [];
  retained = [];
  status = running;
  open_count = 0;
  dest_counts = λ d. 0;
}

fresh_run : new config ≡ some fresh
unfolding new
fresh_run = refl

abbrev request : ParkRequest
request = record {
  key = codes "1:7";
  destination = codes "out1";
  request = none;
  return_ctx = [];
  ttl = pos 0;
}

abbrev other_request : ParkRequest
other_request = record {
  key = codes "1:8";
  destination = codes "out1";
  request = none;
  return_ctx = [];
  ttl = pos 9;
}

-- Two requests are parked; the first is answered, and the second times out.
abbrev calls : List (ℕ × Call)
calls =
    (1, park_call request)
    ∷ (2, park_call other_request)
    ∷ (3, redeem_call (codes "1:7") none)
    ∷ (11, expire_call 1)
    ∷ []

run-IsConsistent_example : IsConsistent (run calls fresh).0
run-IsConsistent_example = run-IsConsistent config calls fresh_run

run-once_example :
    (makings 1 (run calls fresh).1 ≡ one (ltb 1 (length (run calls fresh).0.tickets)))
    × (settlings 1 (run calls fresh).1 + occurrences 1 (run calls fresh).0.store
        ≡ makings 1 (run calls fresh).1)
run-once_example = run-once config calls 1 fresh_run

-- The second ticket times out, and is the last that was open.
calls-run :
    ((run calls fresh).1 ≡ made 0 ∷ made 1 ∷ answered 0 ∷ timed_out 1 ∷ [])
    × ((run calls fresh).0.open_count ≡ 0)
unfolding run step park open_new insert_ticket effective_ttl find put erase equal redeem take_ticket
    close_ticket dec_open expire
calls-run = (refl, refl)

-- One request is parked.
abbrev waiting : Engine
waiting = (run ((1, park_call request) ∷ []) fresh).0

waiting-IsConsistent : IsConsistent waiting
waiting-IsConsistent = run-IsConsistent config ((1, park_call request) ∷ []) fresh_run

abbrev answered_one : Engine
answered_one = (redeem 3 request.key none waiting).0

redeem_run : redeem 3 request.key none waiting ≡ (answered_one, redeemed 0)
unfolding run step park open_new insert_ticket effective_ttl find put erase equal redeem take_ticket
    close_ticket dec_open
redeem_run = refl

waiting_retain : 0 < waiting.retain
unfolding run step park open_new insert_ticket effective_ttl find put erase equal
waiting_retain = omega arith

redeem-replay_example :
    ((ticket_at answered_one.tickets 0).key ≡ request.key)
    × ((ticket_at answered_one.tickets 0).outcome ≡ none)
    × ((ticket_at answered_one.tickets 0).request ≡ (ticket_at waiting.tickets 0).request)
    × ((ticket_at answered_one.tickets 0).return_ctx ≡ (ticket_at waiting.tickets 0).return_ctx)
    × (redeem 5 request.key none answered_one ≡ (answered_one, failed already_redeemed))
    × (park 5 request answered_one ≡ (answered_one, replayed 0))
redeem-replay_example =
    redeem-replay 3 5 request none none waiting answered_one 0 waiting-IsConsistent waiting_retain
      redeem_run
