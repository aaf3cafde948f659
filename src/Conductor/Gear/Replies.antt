-- ===== src/Conductor/Gear/Replies.antt =====
-- Replies: what leaves on the ports, and for which tickets.
use mathlib.Core.Path.{subst}
use fluxrig.Prelude.{
  ℕ, ◌≤◌, ◌≡◌, ◌⊎◌, refl, sym, Bool, true, false, not, List, [], ◌∷◌, ◌++◌, none, some, Bytes,
  equal, length, arith, inl, inr, All, Bool-cases, Option-cases, ◌&&◌, ◌||◌,
}
use fluxrig.Prelude.Map.{find}
use fluxrig.Message.{Value, Message}
use fluxrig.Valet.{Engine, Ticket, closed_ticket, Redemption, redeemed, failed, ticket_at, redeem}
use fluxrig.Valet.Rule.{IsConsistent}
use fluxrig.Valet.Replies.{redeem-closes}
use fluxrig.Conductor.Tree.{Counters, is_empty}
use fluxrig.Conductor.Gear.{
  Settings, port_response, port_error, all_origin_chars, response_port_for, build_key, after_redeem,
  handle_reply, is_configured, knows, is_unmatched, meta_origin, meta_value,
}

-- The plain response port, or the one of a peer, whose name has at most 128 bytes, all of them
-- letters, digits, dashes and underscores, and which is one of the known origins, if there are any.
pub data IsResponsePort (g : Settings) : Bytes → Type 0 where
  plain : IsResponsePort g port_response
  peer :
      (origin : Bytes)
      → length origin ≤ 128
      → all_origin_chars origin ≡ true
      → (g.known_origins ≡ []) ⊎ (knows g.known_origins origin ≡ true)
      → IsResponsePort g (port_response ++ (b'_' ∷ origin))

known :
    (os : List Bytes) (origin : Bytes)
    → (is_configured os && not (knows os origin)) ≡ false
    → (os ≡ []) ⊎ (knows os origin ≡ true)
known [] origin h = inl refl
known (o ∷ os) origin h = inr (ground arith)

pub response_port_for-IsResponsePort :
    (g : Settings) (t : Ticket) {port : Bytes}
    → response_port_for g t ≡ some port
    → IsResponsePort g port
unfolding response_port_for
response_port_for-IsResponsePort g t {port} h =
    let origin : Bytes = meta_value meta_origin t.return_ctx in
    elim (Bool-cases (is_empty origin || equal origin g.origin)) [
      | inl home ↦ let e : port_response ≡ port = ground arith in rw (← e) plain
      | inr away ↦
          elim (Bool-cases (is_configured g.known_origins && not (knows g.known_origins origin))) [
            | inl stranger ↦ absurd (ground arith)
            | inr fine ↦
                let e : port_response ++ (b'_' ∷ origin) ≡ port = ground arith in
                rw (← e)
                  (peer origin (ground arith) (ground arith) (known g.known_origins origin fine))
          ]
    ]

-- What is emitted on a port answers the ticket that was open for the message's key: the ticket holds
-- the reply as its outcome, and its key is open no more.
pub record IsAnswer (sprint : Value → Bytes) (g : Settings) (m : Message) (e e' : Engine)
    (port : Bytes) : Type 0 where
  pub key : Bytes
  pub address : ℕ
  pub built : build_key sprint g m ≡ some key
  pub was_open : find key e.store ≡ some address
  pub is_taken : find key e'.store ≡ none
  pub now_closed : (ticket_at e'.tickets address).status ≡ closed_ticket
  pub outcome : (ticket_at e'.tickets address).outcome ≡ some m
  pub on_port : IsResponsePort g port

module _ (sprint : Value → Bytes) (takes : Bytes → Message → Bool) (available : Bytes → Bool)
    (g : Settings) where
  after_redeem-answers :
      (now : ℕ) (m : Message) (e e' : Engine) (r : Redemption) (s : Counters) {key : Bytes}
      → IsConsistent e
      → build_key sprint g m ≡ some key
      → redeem now key (some m) e ≡ (e', r)
      → All
          (λ x. (x.0 ≡ port_error) ⊎ IsAnswer sprint g m e e' x.0)
          (after_redeem sprint takes available g m (e', r) s).emitted
        × ((after_redeem sprint takes available g m (e', r) s).engine ≡ e')
  unfolding after_redeem
  after_redeem-answers now m e e' (failed err) s v built h =
      elim (Bool-cases (is_unmatched sprint takes available g err)) [
        | inl un ↦ rw un ((inl refl, tt), refl)
        | inr er ↦ rw er (tt, refl)
      ]
  after_redeem-answers now m e e' (redeemed a) s {key} v built h =
      elim (Option-cases (response_port_for g (ticket_at e'.tickets a))) [
        | inl bad ↦ rw (after_redeem, bad) ((inl refl, tt), refl)
        | inr (port, q) ↦
            let (was, taken, shut, answered) = redeem-closes now key (some m) e e' a v h in
            rw (after_redeem, q)
              (
                (
                  inr (record {
                    key = key;
                    address = a;
                    built = built;
                    was_open = was;
                    is_taken = taken;
                    now_closed = shut;
                    outcome = answered;
                    on_port = response_port_for-IsResponsePort g (ticket_at e'.tickets a) q;
                  }),
                  tt,
                ),
                refl,
              )
      ]

  -- Whatever leaves when a reply is handled leaves on the error port, or answers the ticket that was
  -- open for the key of the reply, on a response port that is safe to name.
  pub handle_reply-IsAnswer :
      (now : ℕ) (m : Message) (e : Engine) (s : Counters)
      → IsConsistent e
      → All
          (λ x.
            (x.0 ≡ port_error)
            ⊎ IsAnswer sprint g m e (handle_reply sprint takes available g now m e s).engine x.0)
          (handle_reply sprint takes available g now m e s).emitted
  unfolding handle_reply
  handle_reply-IsAnswer now m e s v = elim (Option-cases (build_key sprint g m)) [
    | inl q ↦ rw (handle_reply, q) (inl refl, tt)
    | inr (key, q) ↦
        let p = redeem now key (some m) e in
        let (answers, same) = after_redeem-answers now m e p.0 p.1 s v q refl in
        rw (handle_reply, q)
          (subst
            (λ e'.
              All (λ x. (x.0 ≡ port_error) ⊎ IsAnswer sprint g m e e' x.0)
                (after_redeem sprint takes available g m p s).emitted)
            (sym same) answers)
  ]
