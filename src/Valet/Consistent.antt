-- ===== src/Valet/Consistent.antt =====
-- Parks, the other calls, and any calls one after another keep the invariant.
use fluxrig.Prelude.{
  ℕ, ◌+◌, ◌≡◌, refl, ap, false, ◌&&◌, List, [], ◌∷◌, ◌++◌, none, some, equal, equal_iff, arith,
  length, length-append, ltb, leb, if◌then◌else◌, inl, inr, Bool-cases, Option-cases,
}
use fluxrig.Prelude.Map.{find, put, put-IsMap, find-put, length-put, put-Entries}
use fluxrig.Valet.{
  Ticket, open_ticket, closed_ticket, Engine, Config, new, ParkRequest, parked, is_closed, park,
  open_new, insert_ticket, begin_drain, close, ticket_at, new_ticket, effective_ttl,
}
use fluxrig.Valet.Objects.{
  ticket_at-append_end, Holds, append-Holds, bound_for-put, bound_for-append,
}
use fluxrig.Valet.History.{
  Call, park_call, redeem_call, release_call, expire_call, purge_call, drain_call, close_call, step,
  run,
}
use fluxrig.Valet.Rule.{IsConsistent, new-IsConsistent}
use fluxrig.Valet.Leaving.{
  redeem-IsConsistent, release-IsConsistent, expire-IsConsistent, purge-IsConsistent,
}

abbrev pub opened : ℕ → ParkRequest → Engine → Engine
opened now pr e = record e {
  tickets = e.tickets ++ (new_ticket now pr (effective_ttl pr.ttl e) ∷ []);
  store = put pr.key (length e.tickets) e.store;
  open_count = e.open_count + 1;
  dest_counts = λ d. if equal pr.destination d then e.dest_counts d + 1 else e.dest_counts d;
}

pub open_new-opened :
    (now : ℕ) (pr : ParkRequest) (e : Engine)
    → find pr.key e.store ≡ none
    → open_new now pr e ≡ (opened now pr e, parked (length e.tickets))
unfolding open_new insert_ticket
open_new-opened now pr e s = ground arith

opened-IsConsistent :
    (now : ℕ) (pr : ParkRequest) (e : Engine)
    → IsConsistent e
    → find pr.key e.store ≡ none
    → find pr.key e.retained ≡ none
    → (ltb 0 e.max_in_flight && leb e.max_in_flight e.open_count) ≡ false
    → IsConsistent (open_new now pr e).0
opened-IsConsistent now pr e v s r room = rw (open_new-opened now pr e s) (record {
  store_map = put-IsMap pr.key a e.store v.store_map;
  retained_map = v.retained_map;
  open_tickets =
      put-Entries (Holds (e.tickets ++ (t ∷ [])) open_ticket) pr.key a e.store
        (
          omega (arith, length-append e.tickets (t ∷ [])),
          ap (λ u. u.key) made,
          ap (λ u. u.status) made,
        )
        (append-Holds e.tickets (t ∷ []) open_ticket e.store v.open_tickets);
  closed_tickets = append-Holds e.tickets (t ∷ []) closed_ticket e.retained v.closed_tickets;
  apart = λ j. elim (v.apart j) [
    | inl m ↦ ground (arith, find-put pr.key j a e.store, equal_iff pr.key j)
    | inr m ↦ inr m
  ];
  counted = omega (arith, v.counted, length-put a pr.key e.store s);
  by_destination = λ d. ground (
    arith,
    v.by_destination d,
    bound_for-put d (e.tickets ++ (t ∷ [])) pr.key a e.store s,
    bound_for-append d e.tickets (t ∷ []) open_ticket e.store v.open_tickets,
    ap (λ (u : Ticket). u.destination) made,
  );
  bounded = ground (arith, v.bounded);
})
  where
    t : Ticket
    t = new_ticket now pr (effective_ttl pr.ttl e)

    a : ℕ
    a = length e.tickets

    made : ticket_at (e.tickets ++ (t ∷ [])) a ≡ t
    made = ticket_at-append_end e.tickets t

pub park-IsConsistent :
    (now : ℕ) (pr : ParkRequest) (e : Engine) → IsConsistent e → IsConsistent (park now pr e).0
unfolding park
park-IsConsistent now pr e v = elim (Option-cases (find pr.key e.store)) [
  | inr (a, s) ↦ ground arith
  | inl s ↦ elim (Option-cases (find pr.key e.retained)) [
    | inr (a, r) ↦ ground arith
    | inl r ↦ elim (Bool-cases (ltb 0 e.max_in_flight && leb e.max_in_flight e.open_count)) [
      | inl full ↦ rw (s, r, full) (ground arith)
      | inr room ↦
          let opened = opened-IsConsistent now pr e v s r room in
          rw (s, r, room) (ground (arith, opened))
    ]
  ]
]

close-IsConsistent : (e : Engine) → IsConsistent e → IsConsistent (close e)
unfolding close find
close-IsConsistent e v = elim (Bool-cases (is_closed e.status)) [
  | inl already ↦ rw already v
  | inr not_yet ↦ rw not_yet (record {
    store_map = tt;
    retained_map = tt;
    open_tickets = tt;
    closed_tickets = tt;
    apart = λ k. inl refl;
    counted = refl;
    by_destination = λ d. refl;
    bounded = inr (omega arith);
  })
]

drain-IsConsistent : (e : Engine) → IsConsistent e → IsConsistent (begin_drain e).0
unfolding begin_drain
drain-IsConsistent e v = elim (Bool-cases (is_closed e.status)) [
  | inl already ↦ rw already v
  | inr not_yet ↦ rw not_yet (record {
    store_map = v.store_map;
    retained_map = v.retained_map;
    open_tickets = v.open_tickets;
    closed_tickets = v.closed_tickets;
    apart = v.apart;
    counted = v.counted;
    by_destination = v.by_destination;
    bounded = v.bounded;
  })
]

pub step-IsConsistent :
    (now : ℕ) (c : Call) (e : Engine) → IsConsistent e → IsConsistent (step now c e).0
unfolding step
step-IsConsistent now (park_call pr) e v = park-IsConsistent now pr e v
step-IsConsistent now (redeem_call key reply) e v = redeem-IsConsistent now key reply e v
step-IsConsistent now (release_call key) e v = release-IsConsistent key e v
step-IsConsistent now (expire_call a) e v = expire-IsConsistent a e v
step-IsConsistent now (purge_call key a) e v = purge-IsConsistent key a e v
step-IsConsistent now drain_call e v = drain-IsConsistent e v
step-IsConsistent now close_call e v = close-IsConsistent e v

history-IsConsistent :
    (cs : List (ℕ × Call)) (e : Engine) → IsConsistent e → IsConsistent (run cs e).0
unfolding run
history-IsConsistent [] e v = v
history-IsConsistent ((now, c) ∷ cs) e v =
    history-IsConsistent cs (step now c e).0 (step-IsConsistent now c e v)

-- After any calls on a new engine, whenever its timers fire, no two open tickets have one key, no key
-- is open and retained at once, the number in flight and the number to each destination are those of
-- the open tickets, and the bound on them is kept.
pub run-IsConsistent :
    (cfg : Config) (cs : List (ℕ × Call)) {e : Engine}
    → new cfg ≡ some e
    → IsConsistent (run cs e).0
run-IsConsistent cfg cs {e} h = history-IsConsistent cs e (new-IsConsistent cfg h)
