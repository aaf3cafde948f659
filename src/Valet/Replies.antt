-- ===== src/Valet/Replies.antt =====
-- Duplicates: a second reply, a request that is sent again, and a reply that is late.
use fluxrig.Prelude.{
  ℕ, ◌+◌, ◌<◌, ◌≡◌, refl, ap, ◌∙◌, true, false, Option, none, some, Bytes, equal_refl, arith, ltb,
  if◌then◌else◌, inl, inr, Option-cases,
}
use fluxrig.Prelude.Map.{find, erase, find-put, find-erase, find-Entries}
use fluxrig.Message.{Message}
use fluxrig.Valet.{
  Ticket, open_ticket, closed_ticket, Timer, purges, stopped, Engine, ParkRequest, replayed,
  redeemed, failed, unmatched, already_redeemed, is_empty, is_closed, ticket_at, park, redeem,
  take_ticket, close_ticket, dec_open, expire,
}
use fluxrig.Valet.Objects.{ticket_at-update, Holds}
use fluxrig.Valet.Rule.{IsConsistent}

-- What a redemption says of the engine before and after it.
record Redeemed (now : ℕ) (key : Bytes) (reply : Option Message) (a : ℕ) (e e' : Engine)
    : Type 0 where
  taken : find key e.store ≡ some a
  not_empty : is_empty key ≡ false
  open_still : is_closed e'.status ≡ false
  after : e' ≡ close_ticket now key reply a (record e { store = erase key e.store })

redeem-Redeemed :
    (now : ℕ) (key : Bytes) (reply : Option Message) (e e' : Engine) (a : ℕ)
    → redeem now key reply e ≡ (e', redeemed a)
    → Redeemed now key reply a e e'
unfolding redeem take_ticket close_ticket dec_open
redeem-Redeemed now key reply e e' a h = elim (Option-cases (find key e.store)) [
  | inl s ↦ absurd (ground arith)
  | inr (b, s) ↦ record {
    taken = ground arith;
    not_empty = ground arith;
    open_still = ground arith;
    after = ground arith;
  }
]

abbrev closing : ℕ → Option Message → Timer → Ticket → Ticket
closing now reply timer u = record u {
  outcome = reply;
  closed_at = now;
  status = closed_ticket;
  timer = timer;
}

-- The ticket that is redeemed was open for its key, and is as it was but for its end.
record Closed (now : ℕ) (key : Bytes) (reply : Option Message) (a : ℕ) (e e' : Engine)
    : Type 0 where
  keyed : (ticket_at e.tickets a).key ≡ key
  not_open : find key e'.store ≡ none
  written :
      ticket_at e'.tickets a
      ≡ closing now reply
          (if ltb 0 e.retain then purges (now + e.retain) else stopped)
          (ticket_at e.tickets a)

redeem-Closed :
    (now : ℕ) (key : Bytes) (reply : Option Message) (e e' : Engine) (a : ℕ)
    → IsConsistent e
    → Redeemed now key reply a e e'
    → Closed now key reply a e e'
unfolding close_ticket dec_open
redeem-Closed now key reply e e' a v r =
    let w = find-Entries (Holds e.tickets open_ticket) key a e.store r.taken v.open_tickets in
    let store_after : e'.store ≡ erase key e.store = ap (λ x. x.store) r.after in
    record {
      keyed = w.1;
      not_open =
          ground (arith, store_after, find-erase key key e.store v.store_map, equal_refl key);
      written =
          ap (λ x. ticket_at x.tickets a) r.after
          ∙ ticket_at-update
              (closing now reply (if ltb 0 e.retain then purges (now + e.retain) else stopped)) a
              e.tickets w.0;
    }

pub redeem-closes :
    (now : ℕ) (key : Bytes) (reply : Option Message) (e e' : Engine) (a : ℕ)
    → IsConsistent e
    → redeem now key reply e ≡ (e', redeemed a)
    → (find key e.store ≡ some a)
      × (find key e'.store ≡ none)
      × ((ticket_at e'.tickets a).status ≡ closed_ticket)
      × ((ticket_at e'.tickets a).outcome ≡ reply)
redeem-closes now key reply e e' a v h =
    let r = redeem-Redeemed now key reply e e' a h in
    let c = redeem-Closed now key reply e e' a v r in
    (r.taken, c.not_open, ap (λ u. u.status) c.written, ap (λ u. u.outcome) c.written)

-- A redemption hands out the ticket of the key with its request and return context as they were
-- parked, and the reply as its outcome. After it, within the retention window, a second reply for the
-- key is refused as a duplicate, and the request that is sent again is answered with that ticket;
-- neither changes the engine.
pub redeem-replay :
    (now later : ℕ) (pr : ParkRequest) (reply again : Option Message) (e e' : Engine) (a : ℕ)
    → IsConsistent e
    → 0 < e.retain
    → redeem now pr.key reply e ≡ (e', redeemed a)
    → ((ticket_at e'.tickets a).key ≡ pr.key)
      × ((ticket_at e'.tickets a).outcome ≡ reply)
      × ((ticket_at e'.tickets a).request ≡ (ticket_at e.tickets a).request)
      × ((ticket_at e'.tickets a).return_ctx ≡ (ticket_at e.tickets a).return_ctx)
      × (redeem later pr.key again e' ≡ (e', failed already_redeemed))
      × (park later pr e' ≡ (e', replayed a))
unfolding park redeem take_ticket
redeem-replay now later pr reply again e e' a v keeps h = (
  ap (λ u. u.key) c.written ∙ c.keyed,
  ap (λ u. u.outcome) c.written,
  ap (λ u. u.request) c.written,
  ap (λ u. u.return_ctx) c.written,
  ground (arith, r.not_empty, r.open_still, c.not_open, retained),
  ground (arith, r.not_empty, r.open_still, c.not_open, retained),
)
  where
    r : Redeemed now pr.key reply a e e'
    r = redeem-Redeemed now pr.key reply e e' a h

    c : Closed now pr.key reply a e e'
    c = redeem-Closed now pr.key reply e e' a v r

    long : ltb 0 e.retain ≡ true
    long = ground arith

    retained : find pr.key e'.retained ≡ some a
    retained =
        ap (λ x. find pr.key x.retained) r.after
        ∙ (unfold close_ticket dec_open in
            rw long (find-put pr.key pr.key a e.retained ∙ rw (equal_refl pr.key) refl))

-- A reply that comes after its ticket has expired is unmatched, and changes nothing.
pub expire-redeem :
    (a now : ℕ) (reply : Option Message) (e e' : Engine)
    → IsConsistent e
    → expire a e ≡ (e', true)
    → is_empty (ticket_at e.tickets a).key ≡ false
    → redeem now (ticket_at e.tickets a).key reply e' ≡ (e', failed unmatched)
unfolding expire redeem take_ticket dec_open
expire-redeem a now reply e e' v h named =
    let key = (ticket_at e.tickets a).key in
    elim (Option-cases (find key e.store)) [
      | inl s ↦ absurd (ground arith)
      | inr (b, s) ↦
          let gone : find key (erase key e.store) ≡ none =
            ground (arith, find-erase key key e.store v.store_map, equal_refl key) in
          let not_retained : find key e.retained ≡ none = ground (arith, v.apart key) in
          let store_after : e'.store ≡ erase key e.store = ground arith in
          let retained_after : e'.retained ≡ e.retained = ground arith in
          let status_after : is_closed e'.status ≡ false = ground arith in
          ground (arith, gone, not_retained, store_after, retained_after, status_after)
    ]
