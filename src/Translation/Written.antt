-- ===== src/Translation/Written.antt =====
-- The writes of a translation and what comes behind them: the second half of `Apply`, translation.go.
use fluxrig.Prelude.{
  not, ◌&&◌, ◌||◌, List, [], ◌∷◌, ◌++◌, Option, none, some, Bytes, codes, equal, if◌then◌else◌,
}
use fluxrig.Message.{Value, text, end, Message, set, done, conflict, panics}
use fluxrig.Conductor.Gear.{meta_value, metadata_of, set_meta}
use fluxrig.Translation.Spec.{Required, Protocol, Translation, Spec, is_empty}
use fluxrig.Translation.Apply.{Stop, bad_write, writes, stopped, read_string, collect}

-- A message with both its maps.
abbrev pub with_maps : Message → Message
with_maps m = record m {
  fields = elim m.fields [ none ↦ some end | some fs ↦ some fs ];
  metadata = elim m.metadata [ none ↦ some [] | some meta ↦ some meta ];
}

-- The loop over the writes: the message, and the key that could not be written.
unfoldable pub set_all : List (Bytes × Bytes) → Message → Message × Option Bytes
unfolding set
set_all [] m = (m, none)
set_all ((k, v) ∷ ws) m = elim (set k (text v) m) [
  | done m' ↦ set_all ws m'
  | conflict ↦ (m, some k)
  | panics ↦ (m, some k)
]

pub data Finding : Type 0 where
  -- The spec that decoded the message is another one.
  decoded_with : Bytes → Bytes → Finding
  missing : Bytes → Finding

pub record Applied : Type 0 where
  pub message : Message
  pub findings : List Finding
  pub error : Option Stop

abbrev pub decoded : Protocol → Message → List Finding
decoded p m =
    let id = meta_value (codes "codec.spec_id") (metadata_of m) in
    let v = meta_value (codes "codec.spec_version") (metadata_of m) in
    if not (is_empty id) && (not (equal id p.id) || not (equal v p.version))
    then decoded_with id v ∷ []
    else []

-- What is stamped on a message that was translated.
abbrev pub stamp : Spec → Translation → Protocol → Message → Message
stamp s t q m =
    let m0 = q.set_message t.to m in
    let m1 =
      if equal q.kind (codes "iso20022") && not (is_empty s.participant_id)
      then set_meta (codes "iso20022.participant_id") s.participant_id m0
      else m0 in
    set_meta (codes "translate.name") t.name (
      set_meta (codes "translate.spec_hash") s.hash (
        set_meta (codes "translate.spec_version") s.version
          (set_meta (codes "translate.spec_id") s.id m1)))

module _ (show : Value → Bytes) (generated : Bytes → Bytes → Bytes) where
  unfoldable pub missing_fields : List Required → Message → List Finding
  unfolding read_string
  missing_fields [] m = []
  missing_fields (r ∷ rs) m =
      let rest = missing_fields rs m in
      if (not (is_empty r.alias) && not (is_empty (read_string show generated m r.alias)))
        || not (is_empty (read_string show generated m r.path))
      then rest
      else missing (if is_empty r.alias then r.path else r.alias) ∷ rest

  abbrev pub finish :
      Spec → Translation → Protocol → List Finding → Message × Option Bytes → Applied
  finish s t q found (m, some k) = record {
    message = m;
    findings = found;
    error = some (bad_write k);
  }
  finish s t q found (m, none) =
      let out = stamp s t q m in
      record {
        message = out;
        findings = found ++ missing_fields (q.required t.to) out;
        error = none;
      }

  -- `Apply`.
  unfoldable pub apply : Spec → Translation → Protocol → Protocol → Message → Applied
  unfolding collect set_all meta_value set_meta missing_fields equal
  apply s t p q m0 =
      let m = with_maps m0 in
      elim (collect show generated s t q m t.bindings []) [
        | stopped e ↦ record { message = m; findings = decoded p m; error = some e }
        | writes ws ↦ finish s t q (decoded p m) (set_all ws m)
      ]
