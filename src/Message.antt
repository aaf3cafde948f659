-- ===== src/Message.antt =====
-- The messages of pkg/fluxmsg: `FluxMsg` (struct.go), and `Get` and `Set` of helper.go; with
-- `deletePath` of pkg/gears/native/conductor/gear.go. A map from texts is a list of its entries, with
-- no order that the code depends on; a map[any]any is read like one from texts, by its text keys. The
-- identities, the flags, the trace and the hops of a message, which no code here reads, are left out.
pub mod Paths
pub mod Deletion
pub mod Open
use fluxrig.Prelude.{
  ℕ, Bool, true, false, List, [], ◌∷◌, Option, none, some, Bytes, codes, equal, ◌==◌, if◌then◌else◌,
}

-- The values under a field: a text, bytes, an object, or anything else.
mutual
  pub data Value : Type 0 where
    text : Bytes → Value
    binary : Bytes → Value
    obj : Fields → Value
    other : ℕ → Value

  pub data Fields : Type 0 where
    end : Fields
    field : Bytes → Value → Fields → Fields

abbrev pub Metadata : Type 0
Metadata = List (Bytes × Bytes)

-- `none` is a nil map.
pub record Message : Type 0 where
  pub fields : Option Fields
  pub metadata : Option Metadata
  pub raw_payload : Bytes

-- `m[key]`, `m[key] = v` and `delete(m, key)`.
unfoldable pub lookup : Bytes → Fields → Option Value
unfolding equal
lookup key end = none
lookup key (field k v fs) = if equal k key then some v else lookup key fs

unfoldable pub insert : Bytes → Value → Fields → Fields
unfolding equal
insert key v end = field key v end
insert key v (field k w fs) = if equal k key then field k v fs else field k w (insert key v fs)

unfoldable pub remove : Bytes → Fields → Fields
unfolding equal
remove key end = end
remove key (field k v fs) = if equal k key then remove key fs else field k v (remove key fs)

-- `strings.Split(s, ".")`.
abbrev pub on_first : ℕ → List Bytes → List Bytes
on_first c [] = (c ∷ []) ∷ []
on_first c (p ∷ ps) = (c ∷ p) ∷ ps

unfoldable pub split : Bytes → List Bytes
split [] = [] ∷ []
split (c ∷ s) = if c == b'.' then [] ∷ split s else on_first c (split s)

-- The map that a path goes on in.
abbrev pub inner : Option Value → Option Fields
inner (some (obj fs)) = some fs
inner _ = none

-- The same, with a new map where there is none.
abbrev pub inner_or_new : Option Value → Option Fields
inner_or_new none = some end
inner_or_new (some v) = inner (some v)

-- The loop of `Get`.
unfoldable pub get_path : List Bytes → Fields → Option Value
unfolding lookup
get_path [] fs = none
get_path (p ∷ []) fs = lookup p fs
get_path (p ∷ q ∷ ps) fs = elim (inner (lookup p fs)) [
  | none ↦ none
  | some gs ↦ get_path (q ∷ ps) gs
]

abbrev pub put_back : Bytes → Fields → Option Fields → Option Fields
put_back p fs none = none
put_back p fs (some gs) = some (insert p (obj gs) fs)

-- The loop of `Set`; `none` is a key conflict, which changes nothing.
unfoldable pub set_path : List Bytes → Value → Fields → Option Fields
unfolding lookup insert
set_path [] v fs = none
set_path (p ∷ []) v fs = some (insert p v fs)
set_path (p ∷ q ∷ ps) v fs = elim (inner_or_new (lookup p fs)) [
  | none ↦ none
  | some gs ↦ put_back p fs (set_path (q ∷ ps) v gs)
]

abbrev pub is_end : Fields → Bool
is_end end = true
is_end (field k v fs) = false

-- `deleteNested`: the container that is left. Its result is whether that is empty.
unfoldable pub delete_path : List Bytes → Fields → Fields
unfolding lookup remove insert
delete_path [] fs = fs
delete_path (p ∷ []) fs = remove p fs
delete_path (p ∷ q ∷ ps) fs = elim (inner (lookup p fs)) [
  | none ↦ fs
  | some gs ↦
      let left = delete_path (q ∷ ps) gs in
      if is_end left then remove p fs else insert p (obj left) fs
]

-- `Get`; a nil map has no field.
unfoldable pub get : Bytes → Message → Option Value
unfolding get_path split
get key m = elim m.fields [ none ↦ none | some fs ↦ get_path (split key) fs ]

-- What `Set` does: it returns, with an error or not, or it panics, on a nil map.
pub data SetEnd : Type 0 where
  done : Message → SetEnd
  conflict panics : SetEnd

unfoldable pub set : Bytes → Value → Message → SetEnd
unfolding set_path split
set key v m = elim m.fields [
  | none ↦ panics
  | some fs ↦ elim (set_path (split key) v fs) [
    | none ↦ conflict
    | some fs' ↦ done (record m { fields = some fs' })
  ]
]
