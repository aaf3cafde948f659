-- ===== src/Valet.antt =====
-- pkg/valet: the correlation engine (engine.go), its tickets (ticket.go) and the store in memory
-- (memory.go). A ticket is an object that the store, the retained outcomes, the timers and the callers
-- share, so the tickets stand in a heap and are named by their addresses. Each method is one locked
-- section, and one step; the time is an argument. A timer that fires is a call of `expire` or `purge`
-- by the environment, which may also come after `Stop`, as a goroutine that waits for the lock does.
-- The store in memory never fails, so the branches for its other errors are left out, as is the
-- logging. Times and durations are nanoseconds and do not wrap.
pub mod History
pub mod Once
pub mod Objects
pub mod Rule
mod Leaving
pub mod Consistent
pub mod Replies
use fluxrig.Prelude.{
  ℕ, zero, suc, ◌+◌, ◌-◌, ◌*◌, Bool, true, false, not, ◌&&◌, ◌||◌, List, [], ◌∷◌, ◌++◌, Option,
  none, some, Bytes, equal, length, get_elem?, get_or, ltb, leb, ◌==◌, if◌then◌else◌,
}
use fluxrig.Prelude.Int.{ℤ, pos, negsuc}
use fluxrig.Prelude.Map.{Map, find, put, erase}
use fluxrig.Message.{Message, Metadata}

pub data TicketState : Type 0 where
  open_ticket closed_ticket expired_ticket released_ticket : TicketState

-- The timer of a ticket: none, armed to expire it or to purge it at a time, or stopped.
pub data Timer : Type 0 where
  no_timer stopped : Timer
  expires purges : ℕ → Timer

pub record Ticket : Type 0 where
  pub key : Bytes
  pub destination : Bytes
  pub return_ctx : Metadata
  pub request : Option Message
  pub outcome : Option Message
  pub parked_at : ℕ
  pub deadline : ℕ
  pub closed_at : ℕ
  pub status : TicketState
  pub timer : Timer

pub data EngineState : Type 0 where
  running draining closed : EngineState

-- `on_expire` tells whether the callback is set.
pub record Engine : Type 0 where
  pub default_ttl : ℕ
  pub max_ttl : ℕ
  pub max_in_flight : ℕ
  pub retain : ℕ
  pub on_expire : Bool
  pub tickets : List Ticket
  pub store : Map
  pub retained : Map
  pub status : EngineState
  pub open_count : ℕ
  pub dest_counts : Bytes → ℕ

-- The numbers of `Config`.
pub record Config : Type 0 where
  pub default_ttl : ℤ
  pub max_ttl : ℤ
  pub max_in_flight : ℤ
  pub retain_after_close : ℤ
  pub on_expire : Bool

abbrev pub second : ℕ
second = 1000000000

abbrev pub nonnegative : ℤ → Option ℕ
nonnegative (pos n) = some n
nonnegative (negsuc n) = none

-- `RetainAfterClose`: 0 is the default, a negative value disables it.
abbrev pub retention : ℤ → ℕ
retention (pos n) = if n == 0 then 5 * second else n
retention (negsuc n) = 0

-- `New`; `none` is an error. The store is the one in memory.
unfoldable pub new : Config → Option Engine
new cfg = elim (nonnegative cfg.default_ttl) [
  | none ↦ none
  | some given ↦ elim (nonnegative cfg.max_ttl) [
    | none ↦ none
    | some cap ↦ elim (nonnegative cfg.max_in_flight) [
      | none ↦ none
      | some bound ↦
          let ttl = if given == 0 then 60 * second else given in
          if ltb 0 cap && ltb cap ttl
          then none
          else some (record {
            default_ttl = ttl;
            max_ttl = cap;
            max_in_flight = bound;
            retain = retention cfg.retain_after_close;
            on_expire = cfg.on_expire;
            tickets = [];
            store = [];
            retained = [];
            status = running;
            open_count = 0;
            dest_counts = λ d. 0;
          })
    ]
  ]
]

pub record ParkRequest : Type 0 where
  pub key : Bytes
  pub destination : Bytes
  pub request : Option Message
  pub return_ctx : Metadata
  pub ttl : ℤ

pub data Error : Type 0 where
  empty_key engine_closed engine_draining overloaded unmatched already_redeemed : Error

-- The result of `Park`, with the ticket's address.
pub data Parking : Type 0 where
  parked attached replayed : ℕ → Parking
  refused : Error → Parking

-- The result of `Redeem`.
pub data Redemption : Type 0 where
  redeemed : ℕ → Redemption
  failed : Error → Redemption

-- The ticket at an address. No address is out of range.
abbrev pub blank : Ticket
blank = record {
  key = [];
  destination = [];
  return_ctx = [];
  request = none;
  outcome = none;
  parked_at = 0;
  deadline = 0;
  closed_at = 0;
  status = open_ticket;
  timer = no_timer;
}

abbrev pub ticket_at : List Ticket → ℕ → Ticket
ticket_at ts a = get_or ts a blank

-- A write to the object at an address.
abbrev pub update : (Ticket → Ticket) → ℕ → List Ticket → List Ticket
update f a [] = []
update f zero (t ∷ ts) = f t ∷ ts
update f (suc a) (t ∷ ts) = t ∷ update f a ts

abbrev pub is_empty : Bytes → Bool
is_empty [] = true
is_empty (b ∷ bs) = false

abbrev pub is_closed : EngineState → Bool
is_closed closed = true
is_closed _ = false

abbrev pub is_draining : EngineState → Bool
is_draining draining = true
is_draining _ = false

-- The deadline's distance: the request's own, or the default, under the cap.
abbrev pub requested : ℤ → ℕ → ℕ
requested (pos n) default = if ltb 0 n then n else default
requested (negsuc n) default = default

unfoldable pub effective_ttl : ℤ → Engine → ℕ
effective_ttl ttl e =
    let asked = requested ttl e.default_ttl in
    if ltb 0 e.max_ttl && ltb e.max_ttl asked then e.max_ttl else asked

-- `Insert` of the store in memory: the existing ticket, or none and the map with the new one.
unfoldable pub insert_ticket : Bytes → ℕ → Map → Map × Option ℕ
unfolding find put
insert_ticket key a m = elim (find key m) [ some b ↦ (m, some b) | none ↦ (put key a m, none) ]

-- `Take` of the store in memory.
unfoldable pub take_ticket : Bytes → Map → Option (ℕ × Map)
unfolding find erase
take_ticket key m = elim (find key m) [ none ↦ none | some a ↦ some (a, erase key m) ]

abbrev pub new_ticket : ℕ → ParkRequest → ℕ → Ticket
new_ticket now pr ttl = record {
  key = pr.key;
  destination = pr.destination;
  return_ctx = pr.return_ctx;
  request = pr.request;
  outcome = none;
  parked_at = now;
  deadline = now + ttl;
  closed_at = 0;
  status = open_ticket;
  timer = expires (now + ttl);
}

-- The last part of `Park`: the ticket is made, stored, counted and given its timer.
unfoldable pub open_new : ℕ → ParkRequest → Engine → Engine × Parking
unfolding insert_ticket
open_new now pr e =
    let a = length e.tickets in
    let (store', existing) = insert_ticket pr.key a e.store in
    elim existing [
      | some b ↦ (e, attached b)
      | none ↦ (
        record e {
          tickets = e.tickets ++ (new_ticket now pr (effective_ttl pr.ttl e) ∷ []);
          store = store';
          open_count = e.open_count + 1;
          dest_counts =
              λ d. if equal pr.destination d then e.dest_counts d + 1 else e.dest_counts d;
        },
        parked a,
      )
    ]

-- `Park`.
unfoldable pub park : ℕ → ParkRequest → Engine → Engine × Parking
unfolding find open_new
park now pr e =
    if is_empty pr.key
    then (e, refused empty_key)
    else if is_closed e.status
    then (e, refused engine_closed)
    else elim (find pr.key e.store) [
      | some a ↦ (e, attached a)
      | none ↦ elim (find pr.key e.retained) [
        | some a ↦ (e, replayed a)
        | none ↦
            if is_draining e.status
            then (e, refused engine_draining)
            else if ltb 0 e.max_in_flight && leb e.max_in_flight e.open_count
            then (e, refused overloaded)
            else open_new now pr e
      ]
    ]

-- `decOpenLocked`. The count of open tickets is positive whenever it is called.
unfoldable pub dec_open : Bytes → Engine → Engine
dec_open destination e = record e {
  open_count = e.open_count - 1;
  dest_counts = λ d.
      if equal destination d
      then (if leb (e.dest_counts d) 1 then 0 else e.dest_counts d - 1)
      else e.dest_counts d;
}

-- `Redeem` once the ticket is taken.
unfoldable pub close_ticket : ℕ → Bytes → Option Message → ℕ → Engine → Engine
unfolding put dec_open
close_ticket now key reply a e =
    let t = ticket_at e.tickets a in
    let keeps = ltb 0 e.retain in
    let redeem_ticket = λ (u : Ticket). record u {
      outcome = reply;
      closed_at = now;
      status = closed_ticket;
      timer = if keeps then purges (now + e.retain) else stopped;
    } in
    dec_open t.destination (record e {
      tickets = update redeem_ticket a e.tickets;
      retained = if keeps then put key a e.retained else e.retained;
    })

unfoldable pub redeem : ℕ → Bytes → Option Message → Engine → Engine × Redemption
unfolding find take_ticket close_ticket
redeem now key reply e =
    if is_empty key
    then (e, failed empty_key)
    else if is_closed e.status
    then (e, failed engine_closed)
    else elim (take_ticket key e.store) [
      | none ↦ elim (find key e.retained) [
        | some a ↦ (e, failed already_redeemed)
        | none ↦ (e, failed unmatched)
      ]
      | some (a, store') ↦ (close_ticket now key reply a (record e { store = store' }), redeemed a)
    ]

-- `Release`; no error is `none`.
unfoldable pub release : Bytes → Engine → Engine × Option Error
unfolding take_ticket dec_open
release key e =
    if is_empty key
    then (e, some empty_key)
    else if is_closed e.status
    then (e, some engine_closed)
    else elim (take_ticket key e.store) [
      | none ↦ (e, some unmatched)
      | some (a, store') ↦ (
        dec_open (ticket_at e.tickets a).destination (record e {
          tickets =
              update (λ u. record u { status = released_ticket; timer = stopped }) a e.tickets;
          store = store';
        }),
        none,
      )
    ]

-- `expire`: the flag says that the ticket expired; then the callback, if it is set, is given it.
unfoldable pub expire : ℕ → Engine → Engine × Bool
unfolding find erase dec_open
expire a e =
    let t = ticket_at e.tickets a in
    if is_closed e.status then (e, false) else elim (find t.key e.store) [
      | none ↦ (e, false)
      | some b ↦
          if b == a
          then (
            dec_open t.destination (record e {
              tickets = update (λ u. record u { status = expired_ticket }) a e.tickets;
              store = erase t.key e.store;
            }),
            true,
          )
          else (e, false)
    ]

unfoldable pub purge : Bytes → ℕ → Engine → Engine
unfolding find erase
purge key a e = elim (find key e.retained) [
  | none ↦ e
  | some b ↦ if b == a then record e { retained = erase key e.retained } else e
]

-- `InFlight`, `InFlightTo` and `Retained`.
abbrev pub in_flight : Engine → ℕ
in_flight e = e.open_count

abbrev pub in_flight_to : Bytes → Engine → ℕ
in_flight_to d e = e.dest_counts d

-- `Drain` up to its wait; the flag is not set if the engine is closed.
unfoldable pub begin_drain : Engine → Engine × Bool
begin_drain e = if is_closed e.status then (e, false) else (record e { status = draining }, true)

-- Why `Drain` returns: all tickets are clear, or that many are open.
pub data DrainEnd : Type 0 where
  clear : DrainEnd
  interrupted : ℕ → DrainEnd
  waits : DrainEnd

-- Its wait: the engine as each round finds it, with whether the context has ended.
unfoldable pub drain_loop : List (Engine × Bool) → DrainEnd
drain_loop [] = waits
drain_loop ((e, ended) ∷ rounds) =
    let rest = drain_loop rounds in
    if ltb 0 e.open_count && (not ended && is_draining e.status)
    then rest
    else if ltb 0 e.open_count
    then interrupted e.open_count
    else clear

-- The timers that `Close` stops.
abbrev pub stop_all : Map → List Ticket → List Ticket
stop_all [] ts = ts
stop_all ((k, a) ∷ m) ts = stop_all m (update (λ u. record u { timer = stopped }) a ts)

unfoldable pub close : Engine → Engine
close e = if is_closed e.status then e else record e {
  status = closed;
  tickets = stop_all e.retained (stop_all e.store e.tickets);
  store = [];
  retained = [];
  open_count = 0;
  dest_counts = λ d. 0;
}
