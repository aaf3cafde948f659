-- ===== src/Conductor/Gear/Requests.antt =====
-- Requests: what leaves for the destination, and for which requests a ticket stays open.
use mathlib.Core.Path.{subst}
use fluxrig.Prelude.{
  codes, ℕ, ◌≡◌, ◌⊎◌, refl, sym, ap, ◌∙◌, Bool, true, false, List, [], ◌∷◌, none, some, Bytes,
  equal_refl, length, arith, inl, inr, All, if◌then◌else◌, Bool-cases, Option-cases,
}
use fluxrig.Prelude.Map.{find, find-put, find-erase, IsMap}
use fluxrig.Message.{Value, Fields, Message, get, get_path, split, delete_path}
use fluxrig.Message.Deletion.{get_path-delete_path, get_path-delete_path-none}
use fluxrig.Valet.{
  Engine, Parking, parked, attached, replayed, refused, Error, ParkRequest, new_ticket,
  effective_ttl, ticket_at, park, release, take_ticket, dec_open, is_closed, is_draining,
}
use fluxrig.Valet
use fluxrig.Valet.Objects.{ticket_at-append_end}
use fluxrig.Valet.Rule.{IsConsistent}
use fluxrig.Valet.Consistent.{park-IsConsistent, opened, open_new-opened}
use fluxrig.Conductor.Tree.{Counters, Selection, pick, is_empty}
use fluxrig.Conductor.Routes.{match_route}
use fluxrig.Conductor.Gear.Replies.{IsResponsePort, response_port_for-IsResponsePort}
use fluxrig.Valet.{Ticket}
use fluxrig.Conductor.Gear.{
  emit, emit_error, with_reason, port_error, response_port_for, finish_response, is_overloaded,
  Settings, Handled, delete_fields, strip_parked, set_meta, build_key, request_of, key_text,
  stamped, send_parked, replay, after_park, handle_request, snapshot,
}

delete_fields-none :
    (keys : List Bytes) (qs : List Bytes) (fs : Fields)
    → get_path qs fs ≡ none
    → get_path qs (delete_fields keys fs) ≡ none
delete_fields-none [] qs fs h = h
delete_fields-none (f ∷ keys) qs fs h =
    delete_fields-none keys qs (delete_path (split f) fs)
      (get_path-delete_path-none (split f) qs fs h)

delete_fields-All :
    (keys : List Bytes) (fs : Fields)
    → All (λ f. get_path (split f) (delete_fields keys fs) ≡ none) keys
delete_fields-All [] fs = tt
delete_fields-All (f ∷ keys) fs = (
  delete_fields-none keys (split f) (delete_path (split f) fs) (get_path-delete_path (split f) fs),
  delete_fields-All keys (delete_path (split f) fs),
)

-- A message with other metadata has the same fields.
get_fields : (f : Bytes) (m m' : Message) → m'.fields ≡ m.fields → get f m' ≡ get f m
unfolding get
get_fields f m m' e = rw e refl

All-same :
    (keys : List Bytes) (m m' : Message)
    → m'.fields ≡ m.fields
    → All (λ f. get f m ≡ none) keys
    → All (λ f. get f m' ≡ none) keys
All-same [] m m' e v = tt
All-same (f ∷ keys) m m' e (w, v) = (get_fields f m m' e ∙ w, All-same keys m m' e v)

strip_parked-none :
    (keys ks : List Bytes) (m : Message)
    → ((fs : Fields) → All (λ f. get_path (split f) (delete_fields keys fs) ≡ none) ks)
    → All (λ f. get f (strip_parked keys m) ≡ none) ks
unfolding strip_parked get
strip_parked-none keys [] m h = tt
strip_parked-none keys (f ∷ ks) m h = elim (Option-cases m.fields) [
  | inl e ↦ (rw e refl, strip_parked-none keys ks m (λ fs. (h fs).1))
  | inr (fs, e) ↦ (rw e ((h fs).0), strip_parked-none keys ks m (λ fs. (h fs).1))
]

abbrev is_absorbed : Parking → Bool
is_absorbed (parked a) = true
is_absorbed (attached a) = true
is_absorbed _ = false

-- A park of a key with no open ticket makes one, or leaves the engine as it is.
park-cases :
    (now : ℕ) (pr : ParkRequest) (e : Engine)
    → find pr.key e.store ≡ none
    → (((park now pr e).0 ≡ e) × (is_absorbed (park now pr e).1 ≡ false))
      ⊎ ((park now pr e ≡ (opened now pr e, parked (length e.tickets)))
          × (Valet.is_empty pr.key ≡ false)
          × (is_closed e.status ≡ false))
unfolding park
park-cases now pr e s = ground (arith, open_new-opened now pr e s)

-- A release of an open ticket closes its key.
release-find :
    (key : Bytes) (e : Engine) {a : ℕ}
    → IsMap e.store
    → find key e.store ≡ some a
    → Valet.is_empty key ≡ false
    → is_closed e.status ≡ false
    → find key (release key e).0.store ≡ none
unfolding release take_ticket dec_open
release-find key e v s named up = ground (arith, find-erase key key e.store v, equal_refl key)

-- A ticket is open for the key, for this request and this destination, and what was emitted is one
-- message, which the destination took, without the parked fields.
pub record IsSent (g : Settings) (key : Bytes) (m : Message) (h : Handled) : Type 0 where
  pub address : ℕ
  pub destination : Bytes
  pub out : Message
  pub is_open : find key h.engine.store ≡ some address
  pub sent : h.emitted ≡ (destination, out, true) ∷ []
  pub to_destination : (ticket_at h.engine.tickets address).destination ≡ destination
  pub for_request : (ticket_at h.engine.tickets address).request ≡ some m
  pub stripped : All (λ f. get f out ≡ none) g.park_fields

-- No ticket is open for the key, and the caller has an error, or one message was emitted, on the error
-- port or on a response port.
pub record IsRefused (g : Settings) (key : Bytes) (h : Handled) : Type 0 where
  pub not_open : find key h.engine.store ≡ none
  pub reported :
      (h.is_error ≡ true)
      ⊎ ((x : Bytes × Message × Bool) × (h.emitted ≡ x ∷ [])
          × ((x.0 ≡ port_error) ⊎ IsResponsePort g x.0))

module _ (sprint : Value → Bytes) (takes : Bytes → Message → Bool) (available : Bytes → Bool)
    (g : Settings) where
  abbrev outgoing : Message → Message
  outgoing m = stamped sprint takes available g (strip_parked g.park_fields m)

  outgoing-fields : (m : Message) → (outgoing m).fields ≡ (strip_parked g.park_fields m).fields
  unfolding set_meta
  outgoing-fields m = elim (Bool-cases (is_empty g.origin)) [
    | inl e ↦ rw e refl
    | inr e ↦ rw e refl
  ]

  outgoing-stripped : (m : Message) → All (λ f. get f (outgoing m) ≡ none) g.park_fields
  outgoing-stripped m =
      All-same g.park_fields (strip_parked g.park_fields m) (outgoing m) (outgoing-fields m)
        (strip_parked-none g.park_fields g.park_fields m (delete_fields-All g.park_fields))

  -- The result of a request: it is refused, or it was sent.
  abbrev Settled : Bytes → Message → Handled → Type 0
  Settled key m h = IsRefused g key h ⊎ IsSent g key m h

  -- What goes to the error port with no ticket open.
  reports :
      {key : Bytes} (reason : Bytes) (m : Message) (e : Engine) (s : Counters)
      → find key e.store ≡ none
      → IsRefused g key (emit_error sprint takes available g reason m e s)
  reports reason m e s fresh = record {
    not_open = fresh;
    reported =
        inr (emit sprint takes available g port_error (with_reason reason m), refl, inl refl);
  }

  send_parked-Settled :
      (now : ℕ) (key dest : Bytes) (m : Message) (e : Engine) (s : Counters)
      → IsConsistent e
      → find key e.store ≡ none
      → IsMap (opened now (request_of sprint takes available g key dest m) e).store
      → Valet.is_empty key ≡ false
      → is_closed e.status ≡ false
      → Settled key m (
          send_parked sprint takes available g key dest m
            (opened now (request_of sprint takes available g key dest m) e)
            s)
  unfolding send_parked
  send_parked-Settled now key dest m e s v fresh w named up =
      elim (Bool-cases (takes dest (outgoing m))) [
        | inr lost ↦ inl (
            rw (send_parked, lost)
              (record {
                not_open = release-find key (opened now pr e) w found named up;
                reported = inl refl;
              }))
        | inl sent ↦ inr (
            rw (send_parked, sent)
              (record {
                address = length e.tickets;
                destination = dest;
                out = outgoing m;
                is_open = found;
                sent = refl;
                to_destination = ap (λ t. t.destination) made;
                for_request = ap (λ t. t.request) made;
                stripped = outgoing-stripped m;
              }))
      ]
    where
      pr : ParkRequest
      pr = request_of sprint takes available g key dest m

      found : find key (opened now pr e).store ≡ some (length e.tickets)
      found = find-put key key (length e.tickets) e.store ∙ rw (equal_refl key) refl

      made :
          ticket_at (opened now pr e).tickets (length e.tickets)
          ≡ new_ticket now pr (effective_ttl pr.ttl e)
      made = ticket_at-append_end e.tickets (new_ticket now pr (effective_ttl pr.ttl e))

  replay-IsRefused :
      {key : Bytes} (t : Ticket) (m : Message) (e : Engine) (s : Counters)
      → find key e.store ≡ none
      → IsRefused g key (replay sprint takes available g t m e s)
  unfolding replay
  replay-IsRefused t m e s fresh = elim (Option-cases (response_port_for g t)) [
    | inl bad ↦ rw (replay, bad) (reports (codes "invalid_origin") m e s fresh)
    | inr (port, q) ↦ elim (Option-cases t.outcome) [
      | inl lost ↦ rw (replay, q, lost) (record { not_open = fresh; reported = inl refl })
      | inr (outcome, there) ↦
          rw (replay, q, there)
            (record {
              not_open = fresh;
              reported = inr (
                emit sprint takes available g port (finish_response g t outcome),
                refl,
                inr (response_port_for-IsResponsePort g t q),
              );
            })
    ]
  ]

  after_park-IsRefused :
      (key dest : Bytes) (m : Message) (e : Engine) (r : Parking) (s : Counters)
      → find key e.store ≡ none
      → is_absorbed r ≡ false
      → IsRefused g key (after_park sprint takes available g key dest m (e, r) s)
  unfolding after_park
  after_park-IsRefused key dest m e (parked a) s fresh idle = cc
  after_park-IsRefused key dest m e (attached a) s fresh idle = cc
  after_park-IsRefused key dest m e (replayed a) s fresh idle =
      replay-IsRefused (ticket_at e.tickets a) m e s fresh
  after_park-IsRefused key dest m e (refused err) s fresh idle =
      elim (Bool-cases (is_overloaded sprint takes available g err)) [
        | inl over ↦ rw (after_park, over) (reports (codes "overloaded") m e s fresh)
        | inr er ↦ rw (after_park, er) (record { not_open = fresh; reported = inl refl })
      ]

  parks-Settled :
      (now : ℕ) (key dest : Bytes) (m : Message) (e : Engine) (s : Counters)
      → IsConsistent e
      → find key e.store ≡ none
      → Settled key m (
          after_park sprint takes available g key dest m
            (park now (request_of sprint takes available g key dest m) e)
            s)
  unfolding after_park
  parks-Settled now key dest m e s v fresh =
      let pr : ParkRequest = request_of sprint takes available g key dest m in
      elim (park-cases now pr e fresh) [
        | inl (same, idle) ↦ inl (
            after_park-IsRefused key dest m (park now pr e).0 (park now pr e).1 s
              (ap (λ u. find key u.store) same ∙ fresh) idle)
        | inr (made, named, up) ↦
            let w : IsMap (opened now pr e).store =
              subst (λ r. IsMap r.0.store) made (park-IsConsistent now pr e v).store_map in
            subst (λ r. Settled key m (after_park sprint takes available g key dest m r s))
              (sym made) (send_parked-Settled now key dest m e s v fresh w named up)
      ]

  -- When a request whose key has no open ticket is handled, whatever is available and taken, one of two
  -- things holds. No ticket is open for the key, and an error is returned, or one message was emitted,
  -- on the error port or on a response port. Or a ticket is open that holds the request as it came in
  -- and its destination, and all that was emitted is the message for that destination, which took it;
  -- none of the parked fields is in that message.
  pub handle_request-Settled :
      (now : ℕ) (m : Message) (e : Engine) (s : Counters) {key : Bytes}
      → IsConsistent e
      → build_key sprint g m ≡ some key
      → find key e.store ≡ none
      → IsRefused g key (handle_request sprint takes available g now m e s)
        ⊎ IsSent g key m (handle_request sprint takes available g now m e s)
  unfolding handle_request
  handle_request-Settled now m e s {key} v built fresh =
      elim (Option-cases (match_route (key_text sprint takes available g m) g.routes)) [
        | inl q ↦ inl (rw (handle_request, built, q) (reports (codes "no_route") m e s fresh))
        | inr (rt, q) ↦
            let sel : Selection = record {
              available = available;
              load = λ port. if rt.needs_load then snapshot rt.leaf_ports e port else 0;
            } in
            elim (Bool-cases (is_empty (pick sel rt.tree s).0)) [
              | inl nowhere ↦ inl (
                  rw (handle_request, built, q, nowhere)
                    (reports (codes "no_destination") m e (pick sel rt.tree s).1 fresh))
              | inr somewhere ↦
                  rw (handle_request, built, q, somewhere)
                    (parks-Settled now key (pick sel rt.tree s).0 m e (pick sel rt.tree s).1 v
                      fresh)
            ]
      ]
