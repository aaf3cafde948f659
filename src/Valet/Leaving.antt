-- ===== src/Valet/Leaving.antt =====
-- The calls by which a ticket leaves the store, or its outcome is purged, keep the invariant.
use fluxrig.Prelude.{
  ℕ, ◌+◌, ◌≡◌, refl, ap, ◌∙◌, Option, none, some, Bytes, equal_iff, equal_refl, arith, ltb, ◌==◌,
  inl, inr, Bool-cases, Option-cases,
}
use fluxrig.Prelude.Map.{
  find, put, erase, put-IsMap, erase-IsMap, find-put, find-erase, length-erase, put-Entries,
  erase-Entries, find-Entries,
}
use fluxrig.Message.{Message}
use fluxrig.Valet.{
  Ticket, open_ticket, closed_ticket, released_ticket, expired_ticket, purges, stopped, Timer,
  Engine, update, take_ticket, redeem, close_ticket, release, expire, purge, dec_open, ticket_at,
}
use fluxrig.Valet.Once.{length-update}
use fluxrig.Valet.Objects.{ticket_at-update, Holds, update-Holds, bound_for-erase, bound_for-update}
use fluxrig.Valet.Rule.{IsConsistent}

-- A ticket leaves the store: what `Redeem`, `Release` and `expire` have in common.
module _ (e : Engine) (v : IsConsistent e) (k : Bytes) (a : ℕ) (found : find k e.store ≡ some a)
    (f : Ticket → Ticket) (same : (u : Ticket) → (f u).destination ≡ u.destination) where
  abbrev left : Engine
  left =
      dec_open (ticket_at e.tickets a).destination
        (record e { tickets = update f a e.tickets; store = erase k e.store })

  here : Holds e.tickets open_ticket k a
  here = find-Entries (Holds e.tickets open_ticket) k a e.store found v.open_tickets

  gone : find k (erase k e.store) ≡ none
  gone = ground (arith, find-erase k k e.store v.store_map, equal_refl k)

  not_retained : find k e.retained ≡ none
  not_retained = elim (v.apart k) [ inl n ↦ absurd (ground arith) | inr n ↦ n ]

  left-IsConsistent : IsConsistent left
  unfolding dec_open
  left-IsConsistent = record {
    store_map = erase-IsMap k e.store v.store_map;
    retained_map = v.retained_map;
    open_tickets =
        update-Holds f e.tickets open_ticket a (erase k e.store) (rw here.1 gone)
          (erase-Entries (Holds e.tickets open_ticket) k e.store v.open_tickets);
    closed_tickets =
        update-Holds f e.tickets closed_ticket a e.retained (rw here.1 not_retained)
          v.closed_tickets;
    apart = λ j. elim (v.apart j) [
      | inl n ↦ inl (ground (arith, find-erase k j e.store v.store_map))
      | inr n ↦ inr n
    ];
    counted = omega (arith, v.counted, length-erase a k e.store found);
    by_destination = λ d. ground (
      arith,
      v.by_destination d,
      bound_for-erase d e.tickets k a e.store found,
      bound_for-update d f a e.tickets (erase k e.store) same,
    );
    bounded = elim v.bounded [ inl n ↦ inl n | inr n ↦ inr (omega arith) ];
  }

-- An outcome is retained.
kept-IsConsistent :
    (e : Engine) (k : Bytes) (a : ℕ)
    → IsConsistent e
    → find k e.store ≡ none
    → Holds e.tickets closed_ticket k a
    → IsConsistent (record e { retained = put k a e.retained })
kept-IsConsistent e k a v n w = record {
  store_map = v.store_map;
  retained_map = put-IsMap k a e.retained v.retained_map;
  open_tickets = v.open_tickets;
  closed_tickets = put-Entries (Holds e.tickets closed_ticket) k a e.retained w v.closed_tickets;
  apart = λ j. elim (v.apart j) [
    | inl m ↦ inl m
    | inr m ↦ ground (arith, find-put k j a e.retained, equal_iff k j)
  ];
  counted = v.counted;
  by_destination = v.by_destination;
  bounded = v.bounded;
}

close_ticket-IsConsistent :
    (now : ℕ) (key : Bytes) (reply : Option Message) (e : Engine) (a : ℕ)
    → IsConsistent e
    → find key e.store ≡ some a
    → IsConsistent (close_ticket now key reply a (record e { store = erase key e.store }))
unfolding close_ticket dec_open
close_ticket-IsConsistent now key reply e a v s = elim (Bool-cases (ltb 0 e.retain)) [
  | inl keeps ↦ rw keeps (
      kept-IsConsistent (left e v key a s (closing (purges (now + e.retain))) (λ u. refl)) key a
        (left-IsConsistent e v key a s (closing (purges (now + e.retain))) (λ u. refl))
        (gone e v key a s (closing (purges (now + e.retain))) (λ u. refl))
        (shut (closing (purges (now + e.retain))) (λ u. refl) (λ u. refl)))
  | inr forgets ↦ rw forgets (left-IsConsistent e v key a s (closing stopped) (λ u. refl))
]
  where
    closing : Timer → Ticket → Ticket
    closing timer u = record u {
      outcome = reply;
      closed_at = now;
      status = closed_ticket;
      timer = timer;
    }

    shut :
        (f : Ticket → Ticket)
        → ((u : Ticket) → (f u).key ≡ u.key)
        → ((u : Ticket) → (f u).status ≡ closed_ticket)
        → Holds (update f a e.tickets) closed_ticket key a
    shut f same closes =
        let w = find-Entries (Holds e.tickets open_ticket) key a e.store s v.open_tickets in
        let at = ticket_at-update f a e.tickets w.0 in
        (
          omega (arith, w.0, length-update f a e.tickets),
          ap (λ u. u.key) at ∙ same (ticket_at e.tickets a) ∙ w.1,
          ap (λ u. u.status) at ∙ closes (ticket_at e.tickets a),
        )

pub redeem-IsConsistent :
    (now : ℕ) (key : Bytes) (reply : Option Message) (e : Engine)
    → IsConsistent e
    → IsConsistent (redeem now key reply e).0
unfolding redeem take_ticket
redeem-IsConsistent now key reply e v = elim (Option-cases (find key e.store)) [
  | inl s ↦ ground arith
  | inr (a, s) ↦ ground (arith, close_ticket-IsConsistent now key reply e a v s)
]

pub release-IsConsistent :
    (key : Bytes) (e : Engine) → IsConsistent e → IsConsistent (release key e).0
unfolding release take_ticket
release-IsConsistent key e v = elim (Option-cases (find key e.store)) [
  | inl s ↦ ground arith
  | inr (a, s) ↦ ground (
    arith,
    left-IsConsistent e v key a s
        (λ (u : Ticket). record u { status = released_ticket; timer = stopped })
        (λ (u : Ticket). refl),
  )
]

pub expire-IsConsistent : (a : ℕ) (e : Engine) → IsConsistent e → IsConsistent (expire a e).0
unfolding expire
expire-IsConsistent a e v = elim (Option-cases (find (ticket_at e.tickets a).key e.store)) [
  | inl s ↦ ground arith
  | inr (b, s) ↦ elim (Bool-cases (b == a)) [
    | inl same ↦
        let at : b ≡ a = ground arith in
        let s' : find (ticket_at e.tickets a).key e.store ≡ some a = s ∙ ap some at in
        ground (
          arith,
          left-IsConsistent e v (ticket_at e.tickets a).key a s'
              (λ (u : Ticket). record u { status = expired_ticket }) (λ (u : Ticket). refl),
        )
    | inr other ↦ ground arith
  ]
]

pub purge-IsConsistent :
    (key : Bytes) (a : ℕ) (e : Engine) → IsConsistent e → IsConsistent (purge key a e)
unfolding purge
purge-IsConsistent key a e v = elim (Option-cases (find key e.retained)) [
  | inl s ↦ rw (s, purge) v
  | inr (b, s) ↦ elim (Bool-cases (b == a)) [
    | inr other ↦ rw (s, purge, other) v
    | inl same ↦
        rw (s, purge, same)
          (record {
            store_map = v.store_map;
            retained_map = erase-IsMap key e.retained v.retained_map;
            open_tickets = v.open_tickets;
            closed_tickets =
                erase-Entries (Holds e.tickets closed_ticket) key e.retained v.closed_tickets;
            apart = λ j. elim (v.apart j) [
              | inl m ↦ inl m
              | inr m ↦ inr (ground (arith, find-erase key j e.retained v.retained_map))
            ];
            counted = v.counted;
            by_destination = v.by_destination;
            bounded = v.bounded;
          })
  ]
]
