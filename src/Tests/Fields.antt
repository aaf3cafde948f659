-- ===== src/Tests/Fields.antt =====
-- Dotted paths of a message, and the keys that parts of it join to.
use fluxrig.Prelude.{
  ◌≡◌, refl, true, false, List, [], ◌∷◌, none, some, Bytes, codes, equal, decimal, decimal_loop,
}
use fluxrig.Message.{
  text, obj, Fields, end, field, Message, lookup, insert, get, get_path, set, set_path, split, done,
}
use fluxrig.Message.Paths.{get-set, diverge}
use fluxrig.Keys.{join_keys}
use fluxrig.Coatcheck.{deep_merge}
use fluxrig.Coatcheck.Merge.{IsObject, deep_merge-get_path}
use fluxrig.Keys.Injective.{join_keys-injective}

-- {"stan": "7", "iso8583": {"mti": "0100"}}
abbrev message : Message
message = record {
  metadata = none;
  fields = some (
      field (codes "stan") (text (codes "7"))
        (field (codes "iso8583") (obj (field (codes "mti") (text (codes "0100")) end)) end));
  raw_payload = [];
}

-- The same with iso8583.field.11 set to 7.
abbrev with_field : Message
with_field = record message {
  fields = some (
      field (codes "stan") (text (codes "7")) (
        field (codes "iso8583")
          (obj (
            field (codes "mti") (text (codes "0100"))
              (field (codes "field") (obj (field (codes "11") (text (codes "7")) end)) end)))
          end));
}

set_run : set (codes "iso8583.field.11") (text (codes "7")) message ≡ done with_field
unfolding set set_path split lookup insert equal
set_run = refl

diverge_run : diverge (split (codes "iso8583.field.11")) (split (codes "iso8583.mti")) ≡ true
unfolding split equal
diverge_run = refl

get-set_example :
    (get (codes "iso8583.field.11") with_field ≡ some (text (codes "7")))
    × (get (codes "iso8583.mti") with_field ≡ get (codes "iso8583.mti") message)
get-set_example =
    get-set (codes "iso8583.field.11") (codes "iso8583.mti") (text (codes "7")) message with_field
      set_run diverge_run

-- A colon in a part does not make two sequences one.
abbrev parts : List Bytes
parts = codes "2:ab" ∷ codes "c" ∷ []

join_run : join_keys parts ≡ codes "4:2:ab1:c"
unfolding join_keys decimal decimal_loop
join_run = refl

join_keys-injective_example : parts ≡ parts
join_keys-injective_example = join_keys-injective parts parts refl

-- {"iso8583": {"field": {"2": "4111"}}}, as it was stored.
abbrev saved : Fields
saved =
    field (codes "iso8583")
      (obj (field (codes "field") (obj (field (codes "2") (text (codes "4111")) end)) end)) end

-- {"iso8583": {"field": {"11": "7"}}}, a reply.
abbrev live : Fields
live =
    field (codes "iso8583")
      (obj (field (codes "field") (obj (field (codes "11") (text (codes "7")) end)) end)) end

abbrev pan_path : List Bytes
pan_path = codes "iso8583" ∷ codes "field" ∷ codes "2" ∷ []

merge-run : get_path pan_path (deep_merge false saved live) ≡ some (text (codes "4111"))
unfolding deep_merge get_path lookup insert equal
merge-run = refl

saved-IsObject : IsObject saved
unfolding lookup
saved-IsObject = (refl, (refl, (refl, tt, tt), tt), tt)

deep_merge-get_path_example :
    (get_path pan_path live ≡ some (text (codes "4111"))
      → get_path pan_path (deep_merge false saved live) ≡ some (text (codes "4111")))
    × (get_path pan_path saved ≡ some (text (codes "4111"))
        → get_path pan_path (deep_merge true saved live) ≡ some (text (codes "4111")))
deep_merge-get_path_example =
    deep_merge-get_path pan_path saved live (text (codes "4111")) saved-IsObject refl
