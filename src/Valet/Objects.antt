-- ===== src/Valet/Objects.antt =====
-- The heap of tickets: writes to one object, new objects, and the count of tickets to a destination.
use fluxrig.Prelude.{
  ℕ, zero, suc, ◌+◌, ◌<◌, ◌≡◌, ◌≢◌, refl, ap, List, [], ◌∷◌, ◌++◌, none, some, Bytes, equal,
  equal_iff, arith, length, length-append,
}
use fluxrig.Prelude.Map.{Map, find, put, erase, Entries}
use fluxrig.Valet.{Ticket, TicketState, update, ticket_at}
use fluxrig.Valet.Once.{one, length-update}

pub ticket_at-update :
    (f : Ticket → Ticket) (a : ℕ) (ts : List Ticket)
    → a < length ts
    → ticket_at (update f a ts) a ≡ f (ticket_at ts a)
ticket_at-update f a [] h = absurd (omega arith)
ticket_at-update f zero (t ∷ ts) h = refl
ticket_at-update f (suc a) (t ∷ ts) h = ticket_at-update f a ts (omega arith)

pub ticket_at-update_other :
    (f : Ticket → Ticket) (a b : ℕ) (ts : List Ticket)
    → a ≢ b
    → ticket_at (update f a ts) b ≡ ticket_at ts b
ticket_at-update_other f a b [] h = refl
ticket_at-update_other f zero zero (t ∷ ts) h = absurd (h refl)
ticket_at-update_other f zero (suc b) (t ∷ ts) h = refl
ticket_at-update_other f (suc a) zero (t ∷ ts) h = refl
ticket_at-update_other f (suc a) (suc b) (t ∷ ts) h =
    ticket_at-update_other f a b ts (λ e. h (ap suc e))

pub ticket_at-append :
    (ts us : List Ticket) (a : ℕ) → a < length ts → ticket_at (ts ++ us) a ≡ ticket_at ts a
ticket_at-append [] us a h = absurd (omega arith)
ticket_at-append (t ∷ ts) us zero h = refl
ticket_at-append (t ∷ ts) us (suc a) h = ticket_at-append ts us a (omega arith)

pub ticket_at-append_end :
    (ts : List Ticket) (t : Ticket) → ticket_at (ts ++ (t ∷ [])) (length ts) ≡ t
ticket_at-append_end [] t = refl
ticket_at-append_end (u ∷ ts) t = ticket_at-append_end ts t

-- An entry of a map: its address is of a ticket with its key and a status.
abbrev pub Holds : List Ticket → TicketState → Bytes → ℕ → Type 0
Holds ts st k a = (a < length ts) × ((ticket_at ts a).key ≡ k) × ((ticket_at ts a).status ≡ st)

pub append-Holds :
    (ts us : List Ticket) (st : TicketState) (m : Map)
    → Entries (Holds ts st) m
    → Entries (Holds (ts ++ us) st) m
append-Holds ts us st [] v = tt
append-Holds ts us st ((k, a) ∷ m) (w, v) =
    let same : ticket_at (ts ++ us) a ≡ ticket_at ts a = ticket_at-append ts us a w.0 in
    ((omega (arith, length-append ts us), rw same w.1, rw same w.2), append-Holds ts us st m v)

-- A write to a ticket does not touch the entries of other keys.
pub update-Holds :
    (f : Ticket → Ticket) (ts : List Ticket) (st : TicketState) (a : ℕ) (m : Map)
    → find (ticket_at ts a).key m ≡ none
    → Entries (Holds ts st) m
    → Entries (Holds (update f a ts) st) m
unfolding find
update-Holds f ts st a [] n v = tt
update-Holds f ts st a ((k, b) ∷ m) n (w, v) =
    let apart : a ≢ b = λ e.
      absurd (ground (arith, ap (λ c. (ticket_at ts c).key) e, equal_iff k (ticket_at ts a).key)) in
    let same : ticket_at (update f a ts) b ≡ ticket_at ts b =
      ticket_at-update_other f a b ts apart in
    (
      (omega (arith, length-update f a ts), rw same w.1, rw same w.2),
      update-Holds f ts st a m (ground arith) v,
    )

-- The tickets of a map that go to a destination.
abbrev pub bound_for : Bytes → List Ticket → Map → ℕ
bound_for d ts [] = 0
bound_for d ts ((k, a) ∷ m) = one (equal (ticket_at ts a).destination d) + bound_for d ts m

pub bound_for-put :
    (d : Bytes) (ts : List Ticket) (k : Bytes) (a : ℕ) (m : Map)
    → find k m ≡ none
    → bound_for d ts (put k a m) ≡ bound_for d ts m + one (equal (ticket_at ts a).destination d)
unfolding find put
bound_for-put d ts k a [] n = omega arith
bound_for-put d ts k a ((j, b) ∷ m) n = ground (arith, bound_for-put d ts k a m)

pub bound_for-erase :
    (d : Bytes) (ts : List Ticket) (k : Bytes) (a : ℕ) (m : Map)
    → find k m ≡ some a
    → bound_for d ts (erase k m) + one (equal (ticket_at ts a).destination d) ≡ bound_for d ts m
unfolding find erase
bound_for-erase d ts k a [] n = cc
bound_for-erase d ts k a ((j, b) ∷ m) n = ground (arith, bound_for-erase d ts k a m)

pub bound_for-append :
    (d : Bytes) (ts us : List Ticket) (st : TicketState) (m : Map)
    → Entries (Holds ts st) m
    → bound_for d (ts ++ us) m ≡ bound_for d ts m
bound_for-append d ts us st [] v = refl
bound_for-append d ts us st ((k, a) ∷ m) (w, v) =
    ground (arith, ticket_at-append ts us a, bound_for-append d ts us st m v)

pub bound_for-update :
    (d : Bytes) (f : Ticket → Ticket) (a : ℕ) (ts : List Ticket) (m : Map)
    → ((u : Ticket) → (f u).destination ≡ u.destination)
    → bound_for d (update f a ts) m ≡ bound_for d ts m
bound_for-update d f a ts [] same = refl
bound_for-update d f a ts ((k, b) ∷ m) same =
    ground (arith, destination_kept f a b ts same, bound_for-update d f a ts m same)
  where
    destination_kept :
        (f : Ticket → Ticket) (a b : ℕ) (ts : List Ticket)
        → ((u : Ticket) → (f u).destination ≡ u.destination)
        → (ticket_at (update f a ts) b).destination ≡ (ticket_at ts b).destination
    destination_kept f a b [] same = refl
    destination_kept f zero zero (t ∷ ts) same = same t
    destination_kept f zero (suc b) (t ∷ ts) same = refl
    destination_kept f (suc a) zero (t ∷ ts) same = refl
    destination_kept f (suc a) (suc b) (t ∷ ts) same = destination_kept f a b ts same
