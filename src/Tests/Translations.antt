-- ===== src/Tests/Translations.antt =====
-- A translation of a message, from the wire of ISO 8583 to ISO 20022.
use fluxrig.Prelude.{
  ◌≡◌, refl, true, Bool, List, [], ◌∷◌, ◌++◌, some, none, Option, Bytes, codes, equal,
  if◌then◌else◌,
}
use fluxrig.Message.{Value, text, end, field, Message, get, split}
use fluxrig.Conductor.Gear.{set_meta}
use fluxrig.Translation.Spec.{
  Protocol, Binding, Translation, Spec, entry, contains, check_translation,
}
use fluxrig.Translation.Apply.{writes, stopped, bad_amount, collect, select}
use fluxrig.Translation.Written.{missing, set_all, apply}
use fluxrig.Translation.Stops.{IsCause, collect-check_translation}
use fluxrig.Translation.Amount.{unknown_currency}
use fluxrig.Translation.Targets.{get-set_all-collect}

abbrev aliases : Bytes → Bytes → Bool
aliases message alias =
    contains
      (codes "amount"
        ∷ codes "currency"
        ∷ codes "merchant"
        ∷ codes "settlement"
        ∷ codes "settlement_currency"
        ∷ codes "reason"
        ∷ [])
      alias

abbrev currency_of : Bytes → Bytes → Option Bytes
currency_of message alias =
    if equal alias (codes "settlement") then some (codes "settlement_currency") else none

abbrev wire : Protocol
wire = record {
  id = codes "wire";
  version = codes "1.0.0";
  kind = codes "iso8583";
  has_message = λ m. true;
  has_alias = aliases;
  currency_alias = λ m a. none;
  required = λ m. [];
  source_message = λ m. codes "0200";
  set_message = λ name m. m;
}

abbrev instant : Protocol
instant = record wire {
  id = codes "instant";
  kind = codes "iso20022";
  currency_alias = currency_of;
  required = λ m. record { alias = codes "merchant_name"; path = codes "iso20022.Nm" } ∷ [];
  set_message = λ name m. set_meta (codes "iso20022.message") name m;
}

abbrev plain_binding : Binding
plain_binding = record {
  to = codes "reason";
  from = [];
  value = some (codes "01");
  lookup = [];
  generate = [];
  table = codes "reasons";
  format = [];
  currency = [];
}

abbrev amount_binding : Binding
amount_binding = record plain_binding {
  to = codes "settlement";
  from = codes "amount" ∷ [];
  value = none;
  table = [];
  format = codes "amount";
  currency = codes "currency";
}

abbrev credit : Translation
credit = record {
  name = codes "credit";
  from_spec = codes "wire";
  from = codes "0200";
  to_spec = codes "instant";
  to = codes "pacs.008";
  bindings = amount_binding ∷ plain_binding ∷ [];
  from_proto = some wire;
  to_proto = some instant;
}

abbrev document : Spec
document = record {
  id = codes "wire-instant";
  version = codes "1.0.0";
  hash = codes "ab";
  participant_id = [];
  translations = (codes "credit", credit) ∷ [];
  tables =
      (codes "reasons", record { values = (codes "01", codes "SALA") ∷ []; fallback = none }) ∷ [];
  lookups = [];
}

abbrev payment : Message
payment = record {
  fields = some (
      field (codes "amount") (text (codes "000000004250"))
        (field (codes "currency") (text (codes "858")) end));
  metadata = none;
  raw_payload = [];
}

abbrev collected : List (Bytes × Bytes)
collected =
    (codes "reason", codes "SALA")
    ∷ (codes "settlement", codes "42.50")
    ∷ (codes "settlement_currency", codes "UYU")
    ∷ []

abbrev settled : Message
settled = record payment {
  fields = some (
      field (codes "amount") (text (codes "000000004250")) (
        field (codes "currency") (text (codes "858")) (
          field (codes "reason") (text (codes "SALA")) (
            field (codes "settlement") (text (codes "42.50"))
              (field (codes "settlement_currency") (text (codes "UYU")) end)))));
}

abbrev no_text : Value → Bytes
no_text v = []

abbrev nothing : Bytes → Bytes → Bytes
nothing participant kind = []

check_run : check_translation document credit ≡ []
unfolding check_translation entry contains equal
check_run = refl

select_run : select document (codes "auto") payment ≡ some credit
unfolding select
select_run = refl

collect_run :
    collect no_text nothing document credit instant payment credit.bindings [] ≡ writes collected
unfolding collect entry get split equal
collect_run = refl

set_all_run : set_all collected payment ≡ (settled, none)
unfolding set_all split equal
set_all_run = refl

-- The name of the merchant is required and was not written.
apply_run :
    (apply no_text nothing document credit wire instant payment).findings
    ≡ missing (codes "merchant_name") ∷ []
unfolding apply entry get split equal
apply_run = refl

-- A payment in a currency that the table of currencies does not have.
abbrev foreign : Message
foreign = record payment {
  fields = some (
      field (codes "amount") (text (codes "000000004250"))
        (field (codes "currency") (text (codes "999")) end));
}

foreign_run :
    collect no_text nothing document credit instant foreign credit.bindings []
    ≡ stopped (bad_amount (codes "settlement") unknown_currency)
unfolding collect entry get split equal
foreign_run = refl

collect-check_translation_example :
    (front : List Binding) × (back : List Binding) × (b : Binding) × (credit.bindings
      ≡ front ++ (b ∷ back))
    × IsCause no_text nothing document instant foreign b
        (bad_amount (codes "settlement") unknown_currency)
collect-check_translation_example =
    collect-check_translation no_text nothing document credit wire instant foreign refl refl
      check_run foreign_run

get-set_all-collect_example : get (codes "settlement") settled ≡ some (text (codes "42.50"))
unfolding contains split equal collect entry get
get-set_all-collect_example =
    get-set_all-collect no_text nothing document credit instant payment settled collected []
      amount_binding (plain_binding ∷ []) (codes "42.50") refl collect_run set_all_run
      ((refl, (refl, tt)), ((refl, tt), (tt, tt))) (refl, tt) refl
