-- ===== src/Valet/History.antt =====
-- Histories: the calls on an engine, with their times, and what happens to tickets.
use fluxrig.Prelude.{ℕ, List, [], ◌∷◌, ◌++◌, Option, none, some, Bytes, if◌then◌else◌}
use fluxrig.Prelude.Map.{Map, find}
use fluxrig.Message.{Message}
use fluxrig.Valet.{
  Engine, Error, ParkRequest, Parking, parked, Redemption, redeemed, is_closed, park, redeem,
  release, expire, purge, begin_drain, close,
}

-- The two timers' calls are made by the environment, at any time and with any address.
pub data Call : Type 0 where
  park_call : ParkRequest → Call
  redeem_call : Bytes → Option Message → Call
  release_call : Bytes → Call
  expire_call : ℕ → Call
  purge_call : Bytes → ℕ → Call
  drain_call close_call : Call

-- A ticket is made; it is answered, it times out, its park is undone, or it is dropped by `Close`.
pub data Event : Type 0 where
  made answered timed_out undone dropped : ℕ → Event

abbrev pub of_park : Parking → List Event
of_park (parked a) = made a ∷ []
of_park _ = []

abbrev pub of_redeem : Redemption → List Event
of_redeem (redeemed a) = answered a ∷ []
of_redeem _ = []

abbrev pub drops : Map → List Event
drops [] = []
drops ((k, a) ∷ m) = dropped a ∷ drops m

-- The ticket that a release takes is the one under the key.
abbrev pub of_release : Option ℕ → List Event
of_release none = []
of_release (some a) = undone a ∷ []

abbrev pub taken : Option Error → Option ℕ → List Event
taken none found = of_release found
taken (some err) found = []

unfoldable pub step : ℕ → Call → Engine → Engine × List Event
unfolding find
step now (park_call pr) e = let (e', r) = park now pr e in (e', of_park r)
step now (redeem_call key reply) e = let (e', r) = redeem now key reply e in (e', of_redeem r)
step now (release_call key) e = let (e', r) = release key e in (e', taken r (find key e.store))
step now (expire_call a) e =
    let (e', expired) = expire a e in (e', if expired then timed_out a ∷ [] else [])
step now (purge_call key a) e = (purge key a e, [])
step now drain_call e = ((begin_drain e).0, [])
step now close_call e = (close e, if is_closed e.status then [] else drops e.store)

unfoldable pub run : List (ℕ × Call) → Engine → Engine × List Event
unfolding step
run [] e = (e, [])
run ((now, c) ∷ cs) e =
    let (e1, evs) = step now c e in let (e2, later) = run cs e1 in (e2, evs ++ later)
