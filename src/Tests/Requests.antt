-- ===== src/Tests/Requests.antt =====
-- Requests and replies at a conductor with one route, one parked field and the key "stan".
use fluxrig.Prelude.{
  ◌≡◌, ◌⊎◌, refl, Bool, true, false, [], ◌∷◌, none, some, Bytes, codes, equal, All, decimal,
  decimal_loop, inl, inr, if◌then◌else◌,
}
use fluxrig.Prelude.Int.{pos}
use fluxrig.Prelude.Map.{find}
use fluxrig.Message.{Value, text, obj, end, field, Message, lookup, get, get_path, split}
use fluxrig.Keys.{field_to_key_part, join_keys}
use fluxrig.Valet.{Config, Engine, new, running, Ticket, open_ticket, no_timer}
use fluxrig.Valet.History.{run}
use fluxrig.Valet.Rule.{IsConsistent}
use fluxrig.Valet.Consistent.{run-IsConsistent}
use fluxrig.Conductor.Tree.{leaf, Counters}
use fluxrig.Conductor.Gear.{
  Settings, build_key, key_parts, handle_request, handle_reply, finish_response, Handled,
  port_error, knows,
}
use fluxrig.Conductor.Gear.Requests.{IsRefused, IsSent, handle_request-Settled}
use fluxrig.Conductor.Gear.Replies.{IsAnswer, handle_reply-IsAnswer}
use fluxrig.Conductor.Gear.History.{arrives, conduct, conduct-IsConsistent}
use fluxrig.Conductor.Gear.Parked.{finish_response-get, restored, is_open}

abbrev sprint : Value → Bytes
sprint v = []

abbrev takes : Bytes → Message → Bool
takes port m = true

abbrev available : Bytes → Bool
available port = true

abbrev settings : Settings
settings = record {
  origin = [];
  corr_key = codes "stan" ∷ [];
  park_fields = codes "pan" ∷ [];
  routes =
      record {
        name = codes "all";
        match_field = [];
        match_prefix = [];
        tree = leaf (codes "out1");
        leaf_ports = codes "out1" ∷ [];
        needs_load = false;
      }
      ∷ [];
  known_origins = [];
}

abbrev config : Config
config = record {
  default_ttl = pos 0;
  max_ttl = pos 0;
  max_in_flight = pos 2;
  retain_after_close = pos 0;
  on_expire = true;
}

abbrev fresh : Engine
fresh = record {
  default_ttl = 60000000000;
  max_ttl = 0;
  max_in_flight = 2;
  retain = 5000000000;
  on_expire = true;
  tickets = [];
  store = [];
  retained = [];
  status = running;
  open_count = 0;
  dest_counts = λ d. 0;
}

fresh_run : new config ≡ some fresh
unfolding new
fresh_run = refl

fresh-IsConsistent : IsConsistent fresh
fresh-IsConsistent = unfold run in run-IsConsistent config [] fresh_run

abbrev request : Message
request = record {
  metadata = some ((codes "rack", codes "r1") ∷ []);
  fields =
      some
        (field (codes "stan") (text (codes "7")) (field (codes "pan") (text (codes "4111")) end));
  raw_payload = [];
}

abbrev reply : Message
reply = record {
  metadata = none;
  fields = some (field (codes "stan") (text (codes "7")) end);
  raw_payload = [];
}

abbrev counters : Counters
counters c = 0

abbrev request_end : Handled
request_end = handle_request sprint takes available settings 1 request fresh counters

key_run : build_key sprint settings request ≡ some (codes "1:7")
unfolding build_key key_parts get get_path lookup split equal field_to_key_part join_keys decimal
    decimal_loop
key_run = refl

absent_run : find (codes "1:7") fresh.store ≡ none
unfolding find
absent_run = refl

handle_request-Settled_example :
    IsRefused settings (codes "1:7") request_end ⊎ IsSent settings (codes "1:7") request request_end
handle_request-Settled_example =
    handle_request-Settled sprint takes available settings 1 request fresh counters
      fresh-IsConsistent key_run absent_run

-- The engine after the request.
abbrev waiting : Engine
waiting = (conduct sprint settings ((takes, available, arrives 1 request) ∷ []) fresh counters).0

conduct-IsConsistent_example : IsConsistent waiting
conduct-IsConsistent_example =
    conduct-IsConsistent sprint settings config ((takes, available, arrives 1 request) ∷ [])
      counters fresh_run

waiting-IsConsistent : IsConsistent waiting
waiting-IsConsistent =
    conduct-IsConsistent sprint settings config ((takes, available, arrives 1 request) ∷ [])
      counters fresh_run

handle_reply-IsAnswer_example :
    All
      (λ x.
        (x.0 ≡ port_error)
        ⊎ IsAnswer sprint settings reply waiting
            (handle_reply sprint takes available settings 2 reply waiting counters).engine
            x.0)
      (handle_reply sprint takes available settings 2 reply waiting counters).emitted
handle_reply-IsAnswer_example =
    handle_reply-IsAnswer sprint takes available settings 2 reply waiting counters
      waiting-IsConsistent

abbrev ticket : Ticket
ticket = record {
  key = codes "1:7";
  destination = codes "out1";
  return_ctx = (codes "rack", codes "r1") ∷ [];
  request = some request;
  outcome = none;
  parked_at = 1;
  deadline = 9;
  closed_at = 0;
  status = open_ticket;
  timer = no_timer;
}

-- A field that is parked by its path, below a map that the reply has too.
abbrev parks_field : Settings
parks_field = record settings { park_fields = codes "iso8583.field.2" ∷ codes "pan" ∷ [] }

abbrev under_field : Bytes → Bytes → Message
under_field key v = record reply {
  fields = some (
      field (codes "iso8583") (obj (field (codes "field") (obj (field key (text v) end)) end)) end);
}

abbrev parked_ticket : Ticket
parked_ticket = record ticket { request = some (under_field (codes "2") (codes "4111")) }

finish_response-get_example :
    get
      (codes "iso8583.field.2")
      (finish_response parks_field parked_ticket (under_field (codes "39") (codes "00")))
    ≡ (if knows parks_field.park_fields (codes "iso8583.field.2")
        then restored
            (get (codes "iso8583.field.2") (under_field (codes "2") (codes "4111")))
            (is_open (codes "iso8583.field.2") (under_field (codes "39") (codes "00")))
            (get (codes "iso8583.field.2") (under_field (codes "39") (codes "00")))
        else get (codes "iso8583.field.2") (under_field (codes "39") (codes "00")))
unfolding split equal
finish_response-get_example =
    finish_response-get parks_field parked_ticket (under_field (codes "2") (codes "4111"))
      (under_field (codes "39") (codes "00")) (codes "iso8583.field.2") refl
      (inl refl, (inr refl, tt))
