-- ===== src/Conductor/Gear.antt =====
-- pkg/gears/native/conductor/gear.go: the handlers of requests, replies and expired tickets, on top of
-- the routing table and the correlation engine (pkg/valet). A handler's result says what it emitted,
-- in order, and whether it returns an error. Whether an emission succeeds is a parameter, and so is
-- how `fmt.Sprint` renders a value. Messages here are values, so a clone is the message itself, and a
-- nil map of metadata is `none`. The semaphore around expiry emissions and the logging are left out.
pub mod Requests
pub mod Replies
pub mod Parked
pub mod History
use fluxrig.Prelude.{
  ℕ, ◌+◌, Bool, true, false, not, ◌&&◌, ◌||◌, List, [], ◌∷◌, ◌++◌, Option, none, some, Bytes, codes,
  equal, has_prefix, length, leb, ltb, ◌==◌, if◌then◌else◌,
}
use fluxrig.Prelude.Int.{pos}
use fluxrig.Frame.Bitmap.{within}
use fluxrig.Message.{
  Value, Fields, end, Metadata, Message, get, get_path, set, split, SetEnd, done, conflict, panics,
  delete_path,
}
use fluxrig.Keys.{field_to_key_part, join_keys}
use fluxrig.Valet.{
  Engine, Ticket, ticket_at, ParkRequest, Parking, parked, attached, replayed, refused, Error,
  overloaded, Redemption, redeemed, failed, unmatched, already_redeemed, park, redeem, release,
  expire,
}
use fluxrig.Conductor.Tree.{Counters, Selection, pick, is_empty}
use fluxrig.Conductor.Routes.{Route, match_route}

abbrev pub port_response : Bytes
port_response = codes "out_response"

abbrev pub port_error : Bytes
port_error = codes "error"

abbrev pub meta_origin : Bytes
meta_origin = codes "conductor.origin"

-- The parts of `Gear` that a scenario sets; no known origins are an empty list.
pub record Settings : Type 0 where
  pub origin : Bytes
  pub corr_key : List Bytes
  pub park_fields : List Bytes
  pub routes : List Route
  pub known_origins : List Bytes

-- `m[key]` on metadata, where a key that is missing is an empty text, and `m[key] = v`.
unfoldable pub meta_value : Bytes → Metadata → Bytes
unfolding equal
meta_value key [] = []
meta_value key ((k, v) ∷ m) = if equal k key then v else meta_value key m

unfoldable pub meta_put : Bytes → Bytes → Metadata → Metadata
unfolding equal
meta_put key v [] = (key, v) ∷ []
meta_put key v ((k, w) ∷ m) = if equal k key then (k, v) ∷ m else (k, w) ∷ meta_put key v m

abbrev pub metadata_of : Message → Metadata
metadata_of m = elim m.metadata [ none ↦ [] | some meta ↦ meta ]

unfoldable pub set_meta : Bytes → Bytes → Message → Message
unfolding meta_put
set_meta key v m = record m { metadata = some (meta_put key v (metadata_of m)) }

-- `emitError`: the message with its reason.
unfoldable pub with_reason : Bytes → Message → Message
unfolding set_meta
with_reason reason m = set_meta (codes "error.reason") reason m

-- `returnContext`; nil is the empty list.
unfoldable pub return_context : Metadata → Metadata
unfolding has_prefix
return_context [] = []
return_context ((k, v) ∷ m) =
    if has_prefix k (codes "iso8583.") || has_prefix k (codes "codec.")
    then return_context m
    else (k, v) ∷ return_context m

-- `stripParked`.
abbrev pub delete_fields : List Bytes → Fields → Fields
delete_fields [] fs = fs
delete_fields (f ∷ keys) fs = delete_fields keys (delete_path (split f) fs)

unfoldable pub strip_parked : List Bytes → Message → Message
unfolding delete_path split
strip_parked keys m = elim m.fields [
  | none ↦ m
  | some fs ↦ record m { fields = some (delete_fields keys fs) }
]

-- The loop of `restoreParked`; the error of `Set` is ignored, and the map is not nil.
abbrev pub after_set : SetEnd → Message → Message
after_set (done m') m = m'
after_set _ m = m

unfoldable pub restore_fields : List Bytes → Message → Message → Message
unfolding get set
restore_fields [] request reply = reply
restore_fields (f ∷ keys) request reply =
    restore_fields keys request
      (elim (get f request) [ none ↦ reply | some v ↦ after_set (set f v reply) reply ])

abbrev pub with_fields : Message → Message
with_fields m = elim m.fields [ none ↦ record m { fields = some end } | some fs ↦ m ]

unfoldable pub restore_parked : List Bytes → Option Message → Message → Message
unfolding restore_fields
restore_parked [] request reply = reply
restore_parked (f ∷ keys) none reply = reply
restore_parked (f ∷ keys) (some request) reply =
    restore_fields (f ∷ keys) request (with_fields reply)

abbrev pub merge : Metadata → Metadata → Metadata
merge [] meta = meta
merge ((k, v) ∷ ctx) meta = merge ctx (meta_put k v meta)

-- `finishResponse`.
unfoldable pub finish_response : Settings → Ticket → Message → Message
unfolding restore_parked meta_put
finish_response g t base =
    let resp = restore_parked g.park_fields t.request base in
    elim t.return_ctx [
      | [] ↦ resp
      | entry ∷ ctx ↦ record resp { metadata = some (merge (entry ∷ ctx) (metadata_of resp)) }
    ]

-- `originPattern`.
abbrev pub is_origin_char : ℕ → Bool
is_origin_char c =
    within b'A' c b'Z' || (within b'a' c b'z' || (within b'0' c b'9' || (c == b'_' || c == b'-')))

abbrev pub all_origin_chars : Bytes → Bool
all_origin_chars [] = true
all_origin_chars (c ∷ s) = is_origin_char c && all_origin_chars s

abbrev pub knows : List Bytes → Bytes → Bool
knows [] origin = false
knows (o ∷ os) origin = equal o origin || knows os origin

abbrev pub is_configured : List Bytes → Bool
is_configured [] = false
is_configured (o ∷ os) = true

-- `responsePortFor`; `none` is its error.
unfoldable pub response_port_for : Settings → Ticket → Option Bytes
unfolding meta_value equal
response_port_for g t =
    let origin = meta_value meta_origin t.return_ctx in
    if is_empty origin || equal origin g.origin
    then some port_response
    else if not (leb 1 (length origin) && leb (length origin) 128 && all_origin_chars origin)
    then none
    else if is_configured g.known_origins && not (knows g.known_origins origin)
    then none
    else some (port_response ++ (b'_' ∷ origin))

-- The parts of a key, or nothing if a field is missing.
unfoldable pub key_parts : (Value → Bytes) → List Bytes → Message → Option (List Bytes)
unfolding get field_to_key_part
key_parts sprint [] m = some []
key_parts sprint (f ∷ keys) m = elim (get f m) [
  | none ↦ none
  | some v ↦ elim (key_parts sprint keys m) [
    | none ↦ none
    | some parts ↦ some (field_to_key_part sprint v ∷ parts)
  ]
]

-- `buildKey`; `none` is its error.
unfoldable pub build_key : (Value → Bytes) → Settings → Message → Option Bytes
unfolding key_parts join_keys
build_key sprint g m = elim m.fields [
  | none ↦ none
  | some fs ↦ elim (key_parts sprint g.corr_key m) [
    | none ↦ none
    | some parts ↦ some (join_keys parts)
  ]
]

-- What a handler leaves: the engine and the counters, what it emitted and whether that was taken, and
-- whether it returns an error.
pub record Handled : Type 0 where
  pub engine : Engine
  pub counters : Counters
  pub emitted : List (Bytes × Message × Bool)
  pub is_error : Bool

-- `counts[port]` of a snapshot.
abbrev pub snapshot : List Bytes → Engine → Bytes → ℕ
snapshot leaves e port = if knows leaves port then e.dest_counts port else 0

module _ (sprint : Value → Bytes) (takes : Bytes → Message → Bool) (available : Bytes → Bool)
    (g : Settings) where
  abbrev pub emit : Bytes → Message → Bytes × Message × Bool
  emit port m = (port, m, takes port m)

  abbrev pub emit_error : Bytes → Message → Engine → Counters → Handled
  emit_error reason m e s = record {
    engine = e;
    counters = s;
    emitted = emit port_error (with_reason reason m) ∷ [];
    is_error = false;
  }

  abbrev pub key_text : Message → Bytes → Option Bytes
  key_text m f = elim (get f m) [ none ↦ none | some v ↦ some (field_to_key_part sprint v) ]

  abbrev pub stamped : Message → Message
  stamped m = if is_empty g.origin then m else set_meta meta_origin g.origin m

  -- `case valet.Parked`.
  unfoldable pub send_parked : Bytes → Bytes → Message → Engine → Counters → Handled
  unfolding strip_parked release
  send_parked key dest m e s =
      let out = stamped (strip_parked g.park_fields m) in
      elim (takes dest out) [
        | true ↦ record {
          engine = e;
          counters = s;
          emitted = (dest, out, true) ∷ [];
          is_error = false;
        }
        | false ↦ record {
          engine = (release key e).0;
          counters = s;
          emitted = (dest, out, false) ∷ [];
          is_error = true;
        }
      ]

  -- `case valet.ReplayedClosed`. A retained ticket has an outcome.
  unfoldable pub replay : Ticket → Message → Engine → Counters → Handled
  unfolding response_port_for finish_response
  replay t m e s = elim (response_port_for g t) [
    | none ↦ emit_error (codes "invalid_origin") m e s
    | some port ↦ elim t.outcome [
      | none ↦ record { engine = e; counters = s; emitted = []; is_error = true }
      | some outcome ↦
          let sent = emit port (finish_response g t outcome) in
          record { engine = e; counters = s; emitted = sent ∷ []; is_error = not sent.2 }
    ]
  ]

  abbrev pub is_overloaded : Error → Bool
  is_overloaded overloaded = true
  is_overloaded _ = false

  unfoldable pub after_park : Bytes → Bytes → Message → Engine × Parking → Counters → Handled
  unfolding send_parked replay
  after_park key dest m (e, parked a) s = send_parked key dest m e s
  after_park key dest m (e, attached a) s = record {
    engine = e;
    counters = s;
    emitted = [];
    is_error = false;
  }
  after_park key dest m (e, replayed a) s = replay (ticket_at e.tickets a) m e s
  after_park key dest m (e, refused err) s =
      if is_overloaded err
      then emit_error (codes "overloaded") m e s
      else record { engine = e; counters = s; emitted = []; is_error = true }

  abbrev pub request_of : Bytes → Bytes → Message → ParkRequest
  request_of key dest m = record {
    key = key;
    destination = dest;
    request = some m;
    return_ctx = return_context (metadata_of m);
    ttl = pos 0;
  }

  -- `handleRequest`.
  unfoldable pub handle_request : ℕ → Message → Engine → Counters → Handled
  unfolding build_key match_route pick park after_park return_context
  handle_request now m e s = elim (build_key sprint g m) [
    | none ↦ emit_error (codes "no_key") m e s
    | some key ↦ elim (match_route (key_text m) g.routes) [
      | none ↦ emit_error (codes "no_route") m e s
      | some rt ↦
          let sel : Selection = record {
            available = available;
            load = λ port. if rt.needs_load then snapshot rt.leaf_ports e port else 0;
          } in
          let (dest, s') = pick sel rt.tree s in
          elim (is_empty dest) [
            | true ↦ emit_error (codes "no_destination") m e s'
            | false ↦ after_park key dest m (park now (request_of key dest m) e) s'
          ]
    ]
  ]

  abbrev pub is_unmatched : Error → Bool
  is_unmatched unmatched = true
  is_unmatched already_redeemed = true
  is_unmatched _ = false

  unfoldable pub after_redeem : Message → Engine × Redemption → Counters → Handled
  unfolding response_port_for finish_response
  after_redeem m (e, failed err) s =
      if is_unmatched err
      then emit_error (codes "unmatched_reply") m e s
      else record { engine = e; counters = s; emitted = []; is_error = true }
  after_redeem m (e, redeemed a) s =
      let t = ticket_at e.tickets a in
      elim (response_port_for g t) [
        | none ↦ emit_error (codes "invalid_origin") m e s
        | some port ↦
            let sent = emit port (finish_response g t m) in
            record { engine = e; counters = s; emitted = sent ∷ []; is_error = not sent.2 }
      ]

  -- `handleReply`.
  unfoldable pub handle_reply : ℕ → Message → Engine → Counters → Handled
  unfolding build_key redeem after_redeem
  handle_reply now m e s = elim (build_key sprint g m) [
    | none ↦ emit_error (codes "unmatched_reply") m e s
    | some key ↦ after_redeem m (redeem now key (some m) e) s
  ]
