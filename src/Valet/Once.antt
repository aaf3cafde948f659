-- ===== src/Valet/Once.antt =====
-- Each ticket is settled once: answered, timed out, undone or dropped.
use fluxrig.Prelude.{
  ℕ, zero, suc, ◌+◌, ◌≡◌, refl, ap, Bool, List, [], ◌∷◌, ◌++◌, Option, some, Bytes, arith, length,
  length-append, ltb, ◌==◌, if◌then◌else◌, inl, inr, Option-cases,
}
use fluxrig.Prelude.Map.{Map, find, occurrences, occurrences-put, occurrences-erase}
use fluxrig.Message.{Message}
use fluxrig.Valet.{
  Ticket, Engine, Config, new, ParkRequest, update, stop_all, park, open_new, insert_ticket,
  take_ticket, redeem, close_ticket, release, expire, purge, begin_drain, close, dec_open,
  ticket_at, new_ticket, effective_ttl, closed_ticket, released_ticket, expired_ticket, purges,
  stopped,
}
use fluxrig.Valet.History.{
  Call, park_call, redeem_call, release_call, expire_call, purge_call, drain_call, close_call,
  Event, made, answered, timed_out, undone, dropped, drops, step, run,
}

abbrev pub one : Bool → ℕ
one b = if b then 1 else 0

-- How often a ticket is made, and how often it is settled.
abbrev pub makings : ℕ → List Event → ℕ
makings a [] = 0
makings a (made b ∷ evs) = one (b == a) + makings a evs
makings a (_ ∷ evs) = makings a evs

abbrev pub settlings : ℕ → List Event → ℕ
settlings a [] = 0
settlings a (made b ∷ evs) = settlings a evs
settlings a (answered b ∷ evs) = one (b == a) + settlings a evs
settlings a (timed_out b ∷ evs) = one (b == a) + settlings a evs
settlings a (undone b ∷ evs) = one (b == a) + settlings a evs
settlings a (dropped b ∷ evs) = one (b == a) + settlings a evs

makings-append : (a : ℕ) (xs ys : List Event) → makings a (xs ++ ys) ≡ makings a xs + makings a ys
makings-append a [] ys = omega arith
makings-append a (made b ∷ xs) ys = ground (arith, makings-append a xs ys)
makings-append a (answered b ∷ xs) ys = makings-append a xs ys
makings-append a (timed_out b ∷ xs) ys = makings-append a xs ys
makings-append a (undone b ∷ xs) ys = makings-append a xs ys
makings-append a (dropped b ∷ xs) ys = makings-append a xs ys

settlings-append :
    (a : ℕ) (xs ys : List Event) → settlings a (xs ++ ys) ≡ settlings a xs + settlings a ys
settlings-append a [] ys = omega arith
settlings-append a (made b ∷ xs) ys = settlings-append a xs ys
settlings-append a (answered b ∷ xs) ys = ground (arith, settlings-append a xs ys)
settlings-append a (timed_out b ∷ xs) ys = ground (arith, settlings-append a xs ys)
settlings-append a (undone b ∷ xs) ys = ground (arith, settlings-append a xs ys)
settlings-append a (dropped b ∷ xs) ys = ground (arith, settlings-append a xs ys)

drops-counted :
    (a : ℕ) (m : Map) → (settlings a (drops m) ≡ occurrences a m) × (makings a (drops m) ≡ 0)
drops-counted a [] = (refl, refl)
drops-counted a ((k, b) ∷ m) = ground (arith, drops-counted a m)

pub length-update :
    (f : Ticket → Ticket) (a : ℕ) (ts : List Ticket) → length (update f a ts) ≡ length ts
length-update f a [] = refl
length-update f zero (t ∷ ts) = refl
length-update f (suc a) (t ∷ ts) = ap suc (length-update f a ts)

length-stop_all : (m : Map) (ts : List Ticket) → length (stop_all m ts) ≡ length ts
length-stop_all [] ts = refl
length-stop_all ((k, a) ∷ m) ts =
    omega (arith, length-stop_all m (update _ a ts), length-update _ a ts)

-- What a step does to the books: a new address is made once, and a ticket that leaves the store is
-- settled.
record Books (a : ℕ) (e : Engine) (r : Engine × List Event) : Type 0 where
  fresh : one (ltb a (length e.tickets)) + makings a r.1 ≡ one (ltb a (length r.0.tickets))
  balance : occurrences a r.0.store + settlings a r.1 ≡ occurrences a e.store + makings a r.1

park-Books : (a now : ℕ) (pr : ParkRequest) (e : Engine) → Books a e (step now (park_call pr) e)
unfolding step park open_new insert_ticket
park-Books a now pr e = elim (Option-cases (find pr.key e.store)) [
  | inr (b, s) ↦ ground arith
  | inl s ↦ ground (
    arith,
    occurrences-put a (length e.tickets) pr.key e.store s,
    length-append e.tickets (new_ticket now pr (effective_ttl pr.ttl e) ∷ []),
  )
]

redeem-Books :
    (a now : ℕ) (key : Bytes) (reply : Option Message) (e : Engine)
    → Books a e (step now (redeem_call key reply) e)
unfolding step redeem take_ticket close_ticket dec_open
redeem-Books a now key reply e = elim (Option-cases (find key e.store)) [
  | inl s ↦ ground arith
  | inr (b, s) ↦ ground (
    arith,
    occurrences-erase a b key e.store s,
    length-update
        (λ (u : Ticket). record u {
          outcome = reply;
          closed_at = now;
          status = closed_ticket;
          timer = if ltb 0 e.retain then purges (now + e.retain) else stopped;
        })
        b e.tickets,
  )
]

release-Books : (a now : ℕ) (key : Bytes) (e : Engine) → Books a e (step now (release_call key) e)
unfolding step release take_ticket dec_open
release-Books a now key e = elim (Option-cases (find key e.store)) [
  | inl s ↦ ground arith
  | inr (b, s) ↦ ground (
    arith,
    occurrences-erase a b key e.store s,
    length-update (λ (u : Ticket). record u { status = released_ticket; timer = stopped }) b
        e.tickets,
  )
]

expire-Books : (a now b : ℕ) (e : Engine) → Books a e (step now (expire_call b) e)
unfolding step expire dec_open
expire-Books a now b e = elim (Option-cases (find (ticket_at e.tickets b).key e.store)) [
  | inl s ↦ ground arith
  | inr (c, s) ↦ ground (
    arith,
    occurrences-erase a c (ticket_at e.tickets b).key e.store s,
    length-update (λ (u : Ticket). record u { status = expired_ticket }) b e.tickets,
  )
]

step-Books : (a now : ℕ) (c : Call) (e : Engine) → Books a e (step now c e)
unfolding step
step-Books a now (park_call pr) e = park-Books a now pr e
step-Books a now (redeem_call key reply) e = redeem-Books a now key reply e
step-Books a now (release_call key) e = release-Books a now key e
step-Books a now (expire_call b) e = expire-Books a now b e
step-Books a now (purge_call key b) e = unfold purge in ground arith
step-Books a now drain_call e = unfold begin_drain in ground arith
step-Books a now close_call e =
    unfold close in
    ground (
      arith,
      drops-counted a e.store,
      length-stop_all e.store e.tickets,
      length-stop_all e.retained (stop_all e.store e.tickets),
    )

run-Books : (a : ℕ) (cs : List (ℕ × Call)) (e : Engine) → Books a e (run cs e)
unfolding run
run-Books a [] e = record { fresh = omega arith; balance = refl }
run-Books a ((now, c) ∷ cs) e =
    let first = step-Books a now c e in
    let s = step now c e in
    let rest = run-Books a cs s.0 in
    record {
      fresh = omega (arith, first.fresh, rest.fresh, makings-append a s.1 (run cs s.0).1);
      balance = omega (
        arith,
        first.balance,
        rest.balance,
        makings-append a s.1 (run cs s.0).1,
        settlings-append a s.1 (run cs s.0).1,
      );
    }

-- Whatever the calls on a new engine and whenever its timers fire, each ticket that a park made is,
-- in the end, either in the store once and not settled, or settled exactly once (answered, timed out,
-- undone, or dropped by `Close`) and not in the store; and only tickets that a park made are settled.
pub run-once :
    (cfg : Config) (cs : List (ℕ × Call)) (a : ℕ) {e : Engine}
    → new cfg ≡ some e
    → (makings a (run cs e).1 ≡ one (ltb a (length (run cs e).0.tickets)))
      × (settlings a (run cs e).1 + occurrences a (run cs e).0.store ≡ makings a (run cs e).1)
unfolding new
run-once cfg cs a {e} h =
    let b = run-Books a cs e in
    let no_tickets : e.tickets ≡ [] = ground arith in
    let nothing : e.store ≡ [] = ground arith in
    (ground (arith, b.fresh), ground (arith, b.balance))
