-- ===== src/Conductor/Gear/History.antt =====
-- `onExpire`, and the inputs of a conductor one after another: requests, replies, and timers that fire.
use mathlib.Core.Path.{subst}
use fluxrig.Prelude.{
  ℕ, ◌≡◌, sym, Bool, true, false, List, [], ◌∷◌, none, some, Bytes, codes, equal, arith, inl, inr,
  Bool-cases, Option-cases, if◌then◌else◌,
}
use fluxrig.Message.{Value, Message, Metadata}
use fluxrig.Valet.{
  Config, Engine, new, Ticket, ticket_at, expire, purge, park, Parking, parked, attached, replayed,
  refused, redeem, Redemption, redeemed, failed,
}
use fluxrig.Valet.History.{release_call, redeem_call, expire_call, purge_call, step}
use fluxrig.Valet.Rule.{IsConsistent, new-IsConsistent}
use fluxrig.Valet.Consistent.{step-IsConsistent, park-IsConsistent}
use fluxrig.Conductor.Tree.{Counters, Selection, pick, is_empty}
use fluxrig.Conductor.Routes.{match_route}
use fluxrig.Conductor.Gear.{
  Settings, Handled, metadata_of, meta_put, set_meta, port_error, emit, build_key, key_text,
  snapshot, request_of, stamped, strip_parked, send_parked, replay, is_overloaded, after_park,
  handle_request, after_redeem, handle_reply,
}

abbrev pub has_key : Bytes → Metadata → Bool
has_key key [] = false
has_key key ((k, v) ∷ m) = if equal k key then true else has_key key m

-- The loop of `onExpire`: an entry that the message has stays.
unfoldable pub fill : Metadata → Metadata → Metadata
unfolding meta_put equal
fill [] meta = meta
fill ((k, v) ∷ ctx) meta = fill ctx (if has_key k meta then meta else meta_put k v meta)

module _ (sprint : Value → Bytes) (takes : Bytes → Message → Bool) (available : Bytes → Bool)
    (g : Settings) where
  -- `onExpire`. A failure of the emission is only logged.
  unfoldable pub on_expire : Ticket → List (Bytes × Message × Bool)
  unfolding fill set_meta
  on_expire t = elim t.request [
    | none ↦ []
    | some m ↦
        let known : Message = record m { metadata = some (fill t.return_ctx (metadata_of m)) } in
        emit sprint takes available g port_error
          (set_meta (codes "error.reason") (codes "timeout") known)
        ∷ []
  ]

  -- A timer fires: the engine expires the ticket, and then calls back.
  unfoldable pub handle_expiry : ℕ → Engine → Counters → Handled
  unfolding expire on_expire
  handle_expiry a e s =
      let (e', expired) = expire a e in
      record {
        engine = e';
        counters = s;
        emitted = if expired then on_expire (ticket_at e'.tickets a) else [];
        is_error = false;
      }

pub data Input : Type 0 where
  arrives replies : ℕ → Message → Input
  expiry : ℕ → Input
  purging : Bytes → ℕ → Input

module _ (sprint : Value → Bytes) (takes : Bytes → Message → Bool) (available : Bytes → Bool)
    (g : Settings) where
  unfoldable pub handle : Input → Engine → Counters → Handled
  unfolding handle_request handle_reply handle_expiry purge
  handle (arrives now m) e s = handle_request sprint takes available g now m e s
  handle (replies now m) e s = handle_reply sprint takes available g now m e s
  handle (expiry a) e s = handle_expiry sprint takes available g a e s
  handle (purging key a) e s = record {
    engine = purge key a e;
    counters = s;
    emitted = [];
    is_error = false;
  }

  replay-engine :
      (t : Ticket) (m : Message) (e : Engine) (s : Counters)
      → (replay sprint takes available g t m e s).engine ≡ e
  unfolding replay
  replay-engine t m e s = ground arith

  after_redeem-engine :
      (m : Message) (e : Engine) (r : Redemption) (s : Counters)
      → (after_redeem sprint takes available g m (e, r) s).engine ≡ e
  unfolding after_redeem
  after_redeem-engine m e (failed err) s = ground arith
  after_redeem-engine m e (redeemed a) s = ground arith

  send_parked-IsConsistent :
      (key dest : Bytes) (m : Message) (e : Engine) (s : Counters)
      → IsConsistent e
      → IsConsistent (send_parked sprint takes available g key dest m e s).engine
  unfolding send_parked
  send_parked-IsConsistent key dest m e s v =
      elim (Bool-cases
        (takes dest (stamped sprint takes available g (strip_parked g.park_fields m)))) [
          | inl sent ↦ rw (send_parked, sent) v
          | inr lost ↦
              rw (send_parked, lost) (unfold step in step-IsConsistent 0 (release_call key) e v)
        ]

  after_park-IsConsistent :
      (key dest : Bytes) (m : Message) (e : Engine) (r : Parking) (s : Counters)
      → IsConsistent e
      → IsConsistent (after_park sprint takes available g key dest m (e, r) s).engine
  unfolding after_park replay
  after_park-IsConsistent key dest m e (parked a) s v = send_parked-IsConsistent key dest m e s v
  after_park-IsConsistent key dest m e (attached a) s v = v
  after_park-IsConsistent key dest m e (replayed a) s v =
      subst IsConsistent (sym (replay-engine (ticket_at e.tickets a) m e s)) v
  after_park-IsConsistent key dest m e (refused err) s v =
      elim (Bool-cases (is_overloaded sprint takes available g err)) [
        | inl over ↦ rw (after_park, over) v
        | inr er ↦ rw (after_park, er) v
      ]

  request-IsConsistent :
      (now : ℕ) (m : Message) (e : Engine) (s : Counters)
      → IsConsistent e
      → IsConsistent (handle_request sprint takes available g now m e s).engine
  unfolding handle_request
  request-IsConsistent now m e s v = elim (Option-cases (build_key sprint g m)) [
    | inl q ↦ rw (handle_request, q) v
    | inr (key, q) ↦
        elim (Option-cases (match_route (key_text sprint takes available g m) g.routes)) [
          | inl q2 ↦ rw (handle_request, q, q2) v
          | inr (rt, q2) ↦
              let sel : Selection = record {
                available = available;
                load = λ port. if rt.needs_load then snapshot rt.leaf_ports e port else 0;
              } in
              let dest = (pick sel rt.tree s).0 in
              let pr = request_of sprint takes available g key dest m in
              elim (Bool-cases (is_empty dest)) [
                | inl nowhere ↦ rw (handle_request, q, q2, nowhere) v
                | inr somewhere ↦
                    rw (handle_request, q, q2, somewhere)
                      (after_park-IsConsistent key dest m (park now pr e).0 (park now pr e).1
                        (pick sel rt.tree s).1 (park-IsConsistent now pr e v))
              ]
        ]
  ]

  reply-IsConsistent :
      (now : ℕ) (m : Message) (e : Engine) (s : Counters)
      → IsConsistent e
      → IsConsistent (handle_reply sprint takes available g now m e s).engine
  unfolding handle_reply
  reply-IsConsistent now m e s v = elim (Option-cases (build_key sprint g m)) [
    | inl q ↦ rw (handle_reply, q) v
    | inr (key, q) ↦
        let r = redeem now key (some m) e in
        rw (handle_reply, q)
          (subst IsConsistent (sym (after_redeem-engine m r.0 r.1 s))
            (unfold step in step-IsConsistent now (redeem_call key (some m)) e v))
  ]

  handle-IsConsistent :
      (i : Input) (e : Engine) (s : Counters) → IsConsistent e → IsConsistent (handle i e s).engine
  unfolding handle
  handle-IsConsistent (arrives now m) e s v = request-IsConsistent now m e s v
  handle-IsConsistent (replies now m) e s v = reply-IsConsistent now m e s v
  handle-IsConsistent (expiry a) e s v =
      unfold step handle_expiry in step-IsConsistent 0 (expire_call a) e v
  handle-IsConsistent (purging key a) e s v =
      unfold step in step-IsConsistent 0 (purge_call key a) e v

-- An input, with the emissions that succeed and the ports that are available at its time.
abbrev pub Occasion : Type 0
Occasion = (Bytes → Message → Bool) × (Bytes → Bool) × Input

module _ (sprint : Value → Bytes) (g : Settings) where
  unfoldable pub conduct : List Occasion → Engine → Counters → Engine × Counters
  unfolding handle
  conduct [] e s = (e, s)
  conduct ((takes, available, i) ∷ is) e s =
      let h = handle sprint takes available g i e s in conduct is h.engine h.counters

  conduct-keeps :
      (is : List Occasion) (e : Engine) (s : Counters)
      → IsConsistent e
      → IsConsistent (conduct is e s).0
  unfolding conduct
  conduct-keeps [] e s v = v
  conduct-keeps ((takes, available, i) ∷ is) e s v =
      let h = handle sprint takes available g i e s in
      conduct-keeps is h.engine h.counters (handle-IsConsistent sprint takes available g i e s v)

  -- A conductor that starts with a new engine keeps it consistent, whatever requests and replies come
  -- in, whenever the timers fire, whichever ports are available and whichever emissions fail.
  pub conduct-IsConsistent :
      (cfg : Config) (is : List Occasion) (s : Counters) {e : Engine}
      → new cfg ≡ some e
      → IsConsistent (conduct is e s).0
  conduct-IsConsistent cfg is s {e} h = conduct-keeps is e s (new-IsConsistent cfg h)
