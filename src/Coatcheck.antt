-- ===== src/Coatcheck.antt =====
-- pkg/gears/native/coatcheck/restore.go: what a message gets back from the coat that was stored for it.
-- The extraction of the key, the store behind the bus, which answers with `Fetched`, and the identities
-- of a message are left out.
pub mod Merge
use fluxrig.Prelude.{
  Bool, true, false, ◌||◌, List, [], ◌∷◌, Option, none, some, Bytes, codes, equal, if◌then◌else◌,
}
use fluxrig.Message.{
  Value, text, binary, obj, other, Fields, end, field, Message, Metadata, lookup, insert, inner,
}

abbrev pub is_none : {A : Type 0} → Option A → Bool
is_none none = true
is_none (some a) = false

-- `deepMergeData`: the source first, for the recursion. An inner map of the target is written back.
unfoldable pub deep_merge : Bool → Fields → Fields → Fields
unfolding lookup insert
deep_merge overwrite end dst = dst
deep_merge overwrite (field k (obj sm) src) dst = elim (inner (lookup k dst)) [
  | some dm ↦ deep_merge overwrite src (insert k (obj (deep_merge overwrite sm dm)) dst)
  | none ↦
      deep_merge overwrite src
        (if overwrite || is_none (lookup k dst) then insert k (obj sm) dst else dst)
]
deep_merge overwrite (field k (text b) src) dst =
    deep_merge overwrite src
      (if overwrite || is_none (lookup k dst) then insert k (text b) dst else dst)
deep_merge overwrite (field k (binary b) src) dst =
    deep_merge overwrite src
      (if overwrite || is_none (lookup k dst) then insert k (binary b) dst else dst)
deep_merge overwrite (field k (other n) src) dst =
    deep_merge overwrite src
      (if overwrite || is_none (lookup k dst) then insert k (other n) dst else dst)

abbrev pub meta_at : Bytes → Metadata → Option Bytes
meta_at key [] = none
meta_at key ((k, v) ∷ m) = if equal k key then some v else meta_at key m

abbrev pub meta_set : Bytes → Bytes → Metadata → Metadata
meta_set key v [] = (key, v) ∷ []
meta_set key v ((k, w) ∷ m) = if equal k key then (k, v) ∷ m else (k, w) ∷ meta_set key v m

-- The loop over the saved metadata.
unfoldable pub merge_metadata : Bool → Metadata → Metadata → Metadata
unfolding equal
merge_metadata overwrite [] meta = meta
merge_metadata overwrite ((k, v) ∷ saved) meta =
    merge_metadata overwrite saved
      (if overwrite || is_none (meta_at k meta) then meta_set k v meta else meta)

pub record Policy : Type 0 where
  pub merge_strategy : Bytes
  pub on_missing : Bytes

-- What the store has: an error or nothing, bytes that are no message, or a message.
pub data Fetched : Type 0 where
  missing undecodable : Fetched
  found : Message → Fetched

pub data Restored : Type 0 where
  emitted : Message → Restored
  dropped failed : Restored

-- `handleMissing`.
unfoldable pub handle_missing : Policy → Message → Restored
unfolding equal
handle_missing p m =
    if equal p.on_missing (codes "error") || equal p.on_missing []
    then failed
    else if equal p.on_missing (codes "drop")
    then dropped
    else if equal p.on_missing (codes "forward")
    then emitted m
    else failed

abbrev pub or_empty : Option Fields → Fields
or_empty none = end
or_empty (some fs) = fs

abbrev pub or_no_metadata : Option Metadata → Metadata
or_no_metadata none = []
or_no_metadata (some meta) = meta

-- `Process`, once the key is known.
unfoldable pub restore : Policy → Fetched → Message → Restored
unfolding handle_missing deep_merge merge_metadata
restore p missing m = handle_missing p m
restore p undecodable m = failed
restore p (found saved) m =
    let overwrite = equal p.merge_strategy (codes "overwrite") in
    emitted (record m {
      metadata =
          some
            (merge_metadata overwrite (or_no_metadata saved.metadata) (or_no_metadata m.metadata));
      fields = some (deep_merge overwrite (or_empty saved.fields) (or_empty m.fields));
    })
