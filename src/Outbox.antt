-- ===== src/Outbox.antt =====
-- pkg/runtime/outbox.go: the bounded queue of emissions that the bus refused, and the two setters
-- of pkg/runtime/runtime.go that configure it. Every function here is one locked section of the
-- source, so it is one atomic step; the drain, which takes the lock again and again, is in Drain.
-- A message or an event is its pointer's address, which is all that the queue compares. The
-- channel `moved`, closed and made anew at each signal, is the number of its generation.
-- The telemetry counters that mirror the three counters here are left out.
pub mod Drain
pub mod Rule
pub mod Order
pub mod Balance
pub mod Emit
pub mod Evict
use fluxrig.Prelude.{
  ℕ, zero, suc, ◌+◌, ◌%◌, ◌^◌, Bool, true, false, not, ◌&&◌, ◌||◌, List, [], ◌∷◌, ◌++◌, Option,
  none, some, Bytes, equal, length, leb, ◌==◌, if◌then◌else◌, codes,
}
use fluxrig.Prelude.Int.{ℤ, positive_or, nonnegative_or}

-- `outboxItem`: of `msg` and `event` one is nil.
pub record Item : Type 0 where
  pub subject : Bytes
  pub msg : Option ℕ
  pub event : Option ℕ

pub data BusState : Type 0 where
  unknown up down : BusState

pub record Outbox : Type 0 where
  pub items : List Item
  pub max : ℕ
  pub retries : ℕ
  pub ordered : Bool
  pub draining : Bool
  pub again : Bool
  pub again_loud : Bool
  pub bus_state : BusState
  pub moved : ℕ
  pub wait : ℕ
  pub dropped : ℕ
  pub parked : ℕ
  pub drained : ℕ

-- `++` on a uint64.
abbrev pub increment : ℕ → ℕ
increment n = (n + 1) % 2 ^ 64

abbrev pub default_max : ℕ
default_max = 10000

abbrev pub default_retries : ℕ
default_retries = 3

-- A second, in nanoseconds.
abbrev pub default_wait : ℕ
default_wait = 1000000000

unfoldable pub new_outbox : ℤ → ℤ → Outbox
new_outbox max_messages drain_retries = record {
  items = [];
  max = positive_or max_messages default_max;
  retries = positive_or drain_retries default_retries;
  ordered = true;
  draining = false;
  again = false;
  again_loud = false;
  bus_state = unknown;
  moved = 0;
  wait = default_wait;
  dropped = 0;
  parked = 0;
  drained = 0;
}

abbrev pub order_subject : Bytes
order_subject = codes "subject"

abbrev pub order_none : Bytes
order_none = codes "none"

-- `ValidateOutboxOrder`: is it no error?
unfoldable pub validate_order : Bytes → Bool
unfolding equal
validate_order order = equal order [] || equal order order_subject || equal order order_none

-- `SetOutboxConfig`; `none` is the error.
unfoldable pub set_config : ℤ → ℤ → Bytes → Outbox → Option Outbox
unfolding validate_order
set_config max_messages drain_retries order o =
    if validate_order order
    then some (record o {
      max = positive_or max_messages default_max;
      retries = positive_or drain_retries default_retries;
      ordered = equal (if equal order [] then order_subject else order) order_subject;
    })
    else none

unfoldable pub set_backpressure : ℤ → Outbox → Outbox
set_backpressure wait o = record o { wait = nonnegative_or wait default_wait }

-- Equality of pointers.
unfoldable pub same_pointer : Option ℕ → Option ℕ → Bool
same_pointer none none = true
same_pointer (some p) (some q) = p == q
same_pointer _ _ = false

unfoldable pub same : Item → Item → Bool
unfolding same_pointer
same it other = same_pointer it.msg other.msg && same_pointer it.event other.event

unfoldable pub signal_moved : Outbox → Outbox
signal_moved o = record o { moved = o.moved + 1 }

unfoldable pub on_subject : Bytes → List Item → Bool
on_subject subject [] = false
on_subject subject (it ∷ its) = equal it.subject subject || on_subject subject its

unfoldable pub held : Bytes → Outbox → Bool
unfolding on_subject
held subject o = on_subject subject o.items

abbrev pub is_event : Item → Bool
is_event it = elim it.event [ none ↦ false | some _ ↦ true ]

-- `oldestEventLocked`, with the queue that is left when that element is removed.
unfoldable pub without_event : List Item → Option (List Item)
without_event [] = none
without_event (it ∷ its) =
    let rest = without_event its in
    if is_event it then some its else elim rest [ none ↦ none | some r ↦ some (it ∷ r) ]

unfoldable pub has_events : Outbox → Bool
unfolding without_event
has_events o = elim (without_event o.items) [ none ↦ false | some _ ↦ true ]

abbrev pub without_front : List Item → List Item
without_front [] = []
without_front (it ∷ its) = its

-- The queue without the victim: the oldest event, or else the front.
unfoldable pub evict : List Item → List Item
unfolding without_event
evict its = elim (without_event its) [ none ↦ without_front its | some rest ↦ rest ]

-- The loop of `parkLocked`. It removes one item a round, so the length of the queue is fuel
-- enough. (An empty queue at `max = 0`, where the source would fault, is never met: `max` is
-- positive.)
unfoldable pub make_room : ℕ → Outbox → Outbox
unfolding evict
make_room zero o = o
make_room (suc fuel) o =
    let room = make_room fuel (record o { items = evict o.items; dropped = increment o.dropped }) in
    if leb o.max (length o.items) then room else o

unfoldable pub push_back : Item → Outbox → Outbox
push_back it o = record o { items = o.items ++ (it ∷ []); parked = increment o.parked }

abbrev pub message : Bytes → ℕ → Item
message subject msg = record { subject = subject; msg = some msg; event = none }

abbrev pub event_item : Bytes → ℕ → Item
event_item subject event = record { subject = subject; msg = none; event = some event }

-- `park`, `parkLocked`.
unfoldable pub park : Bytes → ℕ → Outbox → Outbox
unfolding push_back
park subject msg o = push_back (message subject msg) (make_room (length o.items) o)

-- `parkEvent`, `parkEventLocked`.
unfoldable pub park_event : Bytes → ℕ → Outbox → Outbox × Bool
unfolding push_back
park_event subject event o =
    if leb o.max (length o.items)
    then (o, false)
    else (push_back (event_item subject event) o, true)

-- `parkEventIfHeld`: the results are `held` and `parked`.
unfoldable pub park_event_if_held : Bytes → ℕ → Outbox → Outbox × Bool × Bool
unfolding park_event
park_event_if_held subject event o =
    if not o.ordered || not (held subject o)
    then (o, false, false)
    else (let (o', done) = park_event subject event o in (o', true, done))

unfoldable pub park_if_held : Bytes → ℕ → Outbox → Outbox × Bool
park_if_held subject msg o =
    if not o.ordered || not (held subject o) then (o, false) else (park subject msg o, true)

unfoldable pub begin_drain : Bool → Outbox → Outbox × Bool
begin_drain quiet o =
    if o.draining
    then (record o { again = true; again_loud = o.again_loud || not quiet }, false)
    else (record o { draining = true; bus_state = unknown }, true)

unfoldable pub contains : List Item → Item → Bool
contains [] it = false
contains (x ∷ xs) it = same x it || contains xs it

unfoldable pub holds : Outbox → Item → Bool
unfolding contains
holds o it = contains o.items it

unfoldable pub remove_first : List Item → Item → List Item
remove_first [] it = []
remove_first (x ∷ xs) it = let rest = remove_first xs it in if same x it then xs else x ∷ rest

-- `remove`: the flag counts the item as dropped, or else as drained.
unfoldable pub remove : Item → Bool → Outbox → Outbox
unfolding contains remove_first signal_moved
remove it drop o =
    if contains o.items it
    then signal_moved (record o {
      items = remove_first o.items it;
      dropped = if drop then increment o.dropped else o.dropped;
      drained = if drop then o.drained else increment o.drained;
    })
    else o

abbrev pub is_state : BusState → BusState → Bool
is_state unknown unknown = true
is_state up up = true
is_state down down = true
is_state _ _ = false

unfoldable pub set_bus_state : BusState → Outbox → Outbox
unfolding signal_moved
set_bus_state st o =
    if not (is_state o.bus_state st) then signal_moved (record o { bus_state = st }) else o

-- What a drain writes when it ends.
unfoldable pub end_drain : Outbox → Outbox
unfolding signal_moved
end_drain o =
    signal_moved
      (record o { draining = false; bus_state = unknown; again = false; again_loud = false })
