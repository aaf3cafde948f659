-- ===== src/Outbox/Balance.antt =====
-- The counters and the bound of the queue, under every call and through a whole drain.
use fluxrig.Prelude.{
  ℕ, zero, suc, ◌+◌, ◌%◌, ◌^◌, ◌≤◌, ◌<◌, ◌≡◌, Bool, true, false, List, [], ◌∷◌, some, inl, inr,
  arith, length, length-append, Bytes, leb, Option-cases, Bool-cases,
}
use fluxrig.Outbox.{
  Item, Outbox, BusState, increment, without_event, evict, make_room, push_back, park, message,
  park_event, park_event_if_held, park_if_held, begin_drain, contains, remove_first, remove,
  set_bus_state, end_drain,
}
use fluxrig.Outbox.Drain.{
  Call, park_call, park_if_held_call, park_event_call, park_event_if_held_call, begin_drain_call,
  apply_call, World, run_drain, State,
}
use fluxrig.Outbox.Rule.{Keeps, run_drain-keeps}

-- Every parked emission is still queued, or was counted once as dropped or as drained; and the
-- queue is within its bound.
pub record IsBalanced (o : Outbox) : Type 0 where
  pub positive : 0 < o.max
  pub fits : length o.items ≤ o.max
  pub balance : o.parked ≡ (length o.items + o.dropped + o.drained) % 2 ^ 64

pub length-without_event :
    (its rest : List Item) → without_event its ≡ some rest → length its ≡ suc (length rest)
unfolding without_event
length-without_event [] rest e = cc
length-without_event (it ∷ its) rest e = elim (Option-cases (without_event its)) [
  | inl n ↦ ground arith
  | inr (r, s) ↦ ground (arith, length-without_event its r s)
]

pub length-evict : (its : List Item) → 0 < length its → suc (length (evict its)) ≡ length its
unfolding evict
length-evict [] h = absurd (omega arith)
length-evict (it ∷ its) h = elim (Option-cases (without_event (it ∷ its))) [
  | inl n ↦ ground arith
  | inr (r, s) ↦ ground (arith, length-without_event (it ∷ its) r s)
]

-- What the loop of `parkLocked` leaves, from any length of the queue.
pub record HasRoom (o o' : Outbox) : Type 0 where
  pub room : length o'.items < o.max
  pub max_kept : o'.max ≡ o.max
  pub parked_kept : o'.parked ≡ o.parked
  pub drained_kept : o'.drained ≡ o.drained
  pub sum_kept : (length o'.items + o'.dropped) % 2 ^ 64 ≡ (length o.items + o.dropped) % 2 ^ 64

make_room-HasRoom :
    (fuel : ℕ) (o : Outbox) → 0 < o.max → length o.items ≤ fuel → HasRoom o (make_room fuel o)
unfolding make_room
make_room-HasRoom zero o p h = omega arith
make_room-HasRoom (suc fuel) o p h = elim (Bool-cases (leb o.max (length o.items))) [
  | inl full ↦
      let o1 = record o { items = evict o.items; dropped = increment o.dropped } in
      let shorter = length-evict o.items (ground arith) in
      let ih = make_room-HasRoom fuel o1 p (omega arith) in
      rw full (record {
        room = ih.room;
        max_kept = ih.max_kept;
        parked_kept = ih.parked_kept;
        drained_kept = ih.drained_kept;
        sum_kept = omega (arith, ih.sum_kept);
      })
  | inr roomy ↦ rw roomy (ground arith)
]

-- Whatever the length before, a park leaves the queue within its bound.
pub length-park : (s : Bytes) (p : ℕ) (o : Outbox) → 0 < o.max → length (park s p o).items ≤ o.max
unfolding park
length-park s p o h = omega (
  arith,
  make_room-HasRoom (length o.items) o h (omega arith),
  length-append (make_room (length o.items) o).items (message s p ∷ []),
)

push_back-IsBalanced :
    (it : Item) (o : Outbox) → IsBalanced o → length o.items < o.max → IsBalanced (push_back it o)
unfolding push_back
push_back-IsBalanced it o b h = record {
  positive = b.positive;
  fits = omega (arith, length-append o.items (it ∷ []));
  balance = omega (arith, b.balance, length-append o.items (it ∷ []));
}

make_room-IsBalanced :
    (fuel : ℕ) (o : Outbox) → IsBalanced o → length o.items ≤ fuel → IsBalanced (make_room fuel o)
make_room-IsBalanced fuel o b h =
    let r = make_room-HasRoom fuel o b.positive h in
    record {
      positive = omega (arith, r.max_kept);
      fits = omega (arith, r.max_kept, r.room);
      balance = omega (arith, b.balance, r.sum_kept, r.parked_kept, r.drained_kept);
    }

park-IsBalanced : (s : Bytes) (p : ℕ) (o : Outbox) → IsBalanced o → IsBalanced (park s p o)
unfolding park
park-IsBalanced s p o b =
    let r = make_room-HasRoom (length o.items) o b.positive (omega arith) in
    push_back-IsBalanced (message s p) _ (make_room-IsBalanced (length o.items) o b (omega arith))
      (omega (arith, r.room, r.max_kept))

park_event-IsBalanced :
    (s : Bytes) (p : ℕ) (o : Outbox) → IsBalanced o → IsBalanced (park_event s p o).0
unfolding park_event
park_event-IsBalanced s p o b = elim (Bool-cases (leb o.max (length o.items))) [
  | inl full ↦ rw full b
  | inr roomy ↦ rw roomy (push_back-IsBalanced _ o b (ground arith))
]

apply_call-IsBalanced : (c : Call) (o : Outbox) → IsBalanced o → IsBalanced (apply_call c o)
unfolding apply_call park_if_held park_event_if_held begin_drain
apply_call-IsBalanced (park_call s p) o b = park-IsBalanced s p o b
apply_call-IsBalanced (park_if_held_call s p) o b = ground (arith, park-IsBalanced s p o b)
apply_call-IsBalanced (park_event_call s p) o b = park_event-IsBalanced s p o b
apply_call-IsBalanced (park_event_if_held_call s p) o b =
    ground (arith, park_event-IsBalanced s p o b)
apply_call-IsBalanced (begin_drain_call quiet) o b = ground arith

length-remove_first :
    (its : List Item) (it : Item)
    → contains its it ≡ true
    → suc (length (remove_first its it)) ≡ length its
unfolding contains remove_first
length-remove_first [] it h = cc
length-remove_first (x ∷ xs) it h = ground (arith, length-remove_first xs it)

remove-IsBalanced :
    (it : Item) (drop : Bool) (o : Outbox) → IsBalanced o → IsBalanced (remove it drop o)
unfolding remove
remove-IsBalanced it drop o b = elim (Bool-cases (contains o.items it)) [
  | inl found ↦ removed drop (length-remove_first o.items it found) found
  | inr lost ↦ rw lost b
]
  where
    removed :
        (drop : Bool)
        → suc (length (remove_first o.items it)) ≡ length o.items
        → contains o.items it ≡ true
        → IsBalanced (remove it drop o)
    removed true shorter found = rw found (record {
      positive = b.positive;
      fits = omega (arith, b.fits);
      balance = omega (arith, b.balance);
    })
    removed false shorter found = rw found (record {
      positive = b.positive;
      fits = omega (arith, b.fits);
      balance = omega (arith, b.balance);
    })

set_bus_state-IsBalanced :
    (st : BusState) (o : Outbox) → IsBalanced o → IsBalanced (set_bus_state st o)
unfolding set_bus_state
set_bus_state-IsBalanced st o b = ground arith

end_drain-IsBalanced : (o : Outbox) → IsBalanced o → IsBalanced (end_drain o)
unfolding end_drain
end_drain-IsBalanced o b = record { positive = b.positive; fits = b.fits; balance = b.balance }

Keeps-IsBalanced : Keeps IsBalanced
Keeps-IsBalanced = record {
  call = apply_call-IsBalanced;
  state = set_bus_state-IsBalanced;
  removal = remove-IsBalanced;
  ending = end_drain-IsBalanced;
  clearing = λ o b. record { positive = b.positive; fits = b.fits; balance = b.balance };
}

-- From a balanced outbox, any number of rounds of a drain, finished or not, leave the queue within
-- its bound and every parked emission accounted for: still queued, or counted once as dropped or as
-- drained (the counters wrap at 2^64), for any bus, any end of the context, and any calls of other
-- goroutines between the drain's locked sections.
pub run_drain-IsBalanced :
    (w : World) (fuel : ℕ) (quiet : Bool) (s : State w)
    → IsBalanced s.1
    → IsBalanced (run_drain w fuel quiet s).0.1
run_drain-IsBalanced w = run_drain-keeps w IsBalanced Keeps-IsBalanced
