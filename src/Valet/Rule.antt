-- ===== src/Valet/Rule.antt =====
-- The invariant of the engine, and that a new one has it.
use fluxrig.Prelude.{◌≤◌, ◌≡◌, ◌⊎◌, refl, [], none, some, Bytes, arith, length, inl, inr}
use fluxrig.Prelude.Map.{find, Entries, IsMap}
use fluxrig.Valet.{open_ticket, closed_ticket, Engine, Config, new}
use fluxrig.Valet.Objects.{Holds, bound_for}

-- The store and the retained outcomes are maps that share no key, from keys to tickets of that key,
-- open and closed; the counters count the tickets of the store, in all and by destination; and these
-- are within the bound, if there is one.
pub record IsConsistent (e : Engine) : Type 0 where
  pub store_map : IsMap e.store
  pub retained_map : IsMap e.retained
  pub open_tickets : Entries (Holds e.tickets open_ticket) e.store
  pub closed_tickets : Entries (Holds e.tickets closed_ticket) e.retained
  pub apart : (k : Bytes) → (find k e.store ≡ none) ⊎ (find k e.retained ≡ none)
  pub counted : e.open_count ≡ length e.store
  pub by_destination : (d : Bytes) → e.dest_counts d ≡ bound_for d e.tickets e.store
  pub bounded : (e.max_in_flight ≡ 0) ⊎ (e.open_count ≤ e.max_in_flight)

pub new-IsConsistent : (cfg : Config) {e : Engine} → new cfg ≡ some e → IsConsistent e
unfolding new find
new-IsConsistent cfg {e} h =
    let no_store : e.store ≡ [] = ground arith in
    let no_retained : e.retained ≡ [] = ground arith in
    let none_open : e.open_count ≡ 0 = ground arith in
    let none_bound : e.dest_counts ≡ (λ d. 0) = ground arith in
    record {
      store_map = rw no_store tt;
      retained_map = rw no_retained tt;
      open_tickets = rw no_store tt;
      closed_tickets = rw no_retained tt;
      apart = λ k. inl (rw no_store refl);
      counted = rw (none_open, no_store) refl;
      by_destination = λ d. rw (none_bound, no_store) refl;
      bounded = inr (omega arith);
    }
