-- ===== src/Coatcheck/Merge.antt =====
-- Which fields a merge keeps.
use mathlib.Core.Path.{subst}
use fluxrig.Prelude.{
  ◌≡◌, refl, sym, ap, ◌∙◌, Bool, true, false, ◌||◌, List, [], ◌∷◌, Option, none, some, Bytes, equal,
  equal_iff, arith, inl, inr, Bool-cases, Option-cases, if◌then◌else◌,
}
use fluxrig.Message.{
  Value, text, binary, obj, other, Fields, end, field, lookup, insert, inner, get_path,
}
use fluxrig.Message.Paths.{lookup-insert}
use fluxrig.Coatcheck.{deep_merge, is_none}

-- No key stands twice, at any depth.
abbrev mutual
  pub IsObject : Fields → Type 0
  IsObject end = Unit
  IsObject (field k v fs) = (lookup k fs ≡ none) × IsValue v × IsObject fs

  pub IsValue : Value → Type 0
  IsValue (obj fs) = IsObject fs
  IsValue (text b) = Unit
  IsValue (binary b) = Unit
  IsValue (other n) = Unit

-- The value of a key after a merge, from its values before.
abbrev pub merged : Bool → Option Value → Option Value → Option Value
merged overwrite none d = d
merged overwrite (some (obj sm)) (some (obj dm)) = some (obj (deep_merge overwrite sm dm))
merged overwrite (some (obj sm)) none = some (obj sm)
merged overwrite (some (obj sm)) (some (text b)) =
    if overwrite then some (obj sm) else some (text b)
merged overwrite (some (obj sm)) (some (binary b)) =
    if overwrite then some (obj sm) else some (binary b)
merged overwrite (some (obj sm)) (some (other n)) =
    if overwrite then some (obj sm) else some (other n)
merged overwrite (some (text b)) d = if overwrite || is_none d then some (text b) else d
merged overwrite (some (binary b)) d = if overwrite || is_none d then some (binary b) else d
merged overwrite (some (other n)) d = if overwrite || is_none d then some (other n) else d

-- Merging one entry changes the value of its key alone.
one_entry :
    (overwrite : Bool) (k : Bytes) (v : Value) (src dst dst' : Fields) (j : Bytes)
    → lookup k src ≡ none
    → lookup j dst' ≡ (if equal k j then merged overwrite (some v) (lookup k dst) else lookup j dst)
    → lookup j (deep_merge overwrite src dst') ≡ merged overwrite (lookup j src) (lookup j dst')
    → lookup j (deep_merge overwrite src dst')
      ≡ merged overwrite (if equal k j then some v else lookup j src) (lookup j dst)
one_entry overwrite k v src dst dst' j n h ih = elim (Bool-cases (equal k j)) [
  | inl e ↦
      let at : k ≡ j = (equal_iff k j).0 e in
      let no_more : lookup j src ≡ none = ap (λ x. lookup x src) (sym at) ∙ n in
      let put : lookup j dst' ≡ merged overwrite (some v) (lookup j dst) =
        rw e at h ∙ ap (λ x. merged overwrite (some v) (lookup x dst)) at in
      rw e (ih ∙ ap (λ x. merged overwrite x (lookup j dst')) no_more ∙ put)
  | inr e ↦
      let kept : lookup j dst' ≡ lookup j dst = rw e at h in
      rw e (ih ∙ ap (merged overwrite (lookup j src)) kept)
]

put_entry :
    (overwrite : Bool) (k : Bytes) (v : Value) (dst : Fields) (j : Bytes)
    → lookup j (if overwrite || is_none (lookup k dst) then insert k v dst else dst) ≡ (
        if equal k j
        then (if overwrite || is_none (lookup k dst) then some v else lookup k dst)
        else lookup j dst)
put_entry overwrite k v dst j = ground (arith, lookup-insert k j v dst, equal_iff k j)

merged_over :
    (overwrite : Bool) (sm : Fields) (d : Option Value)
    → inner d ≡ none
    → merged overwrite (some (obj sm)) d ≡ (if overwrite || is_none d then some (obj sm) else d)
merged_over overwrite sm none h = ground arith
merged_over overwrite sm (some (text b)) h = ground arith
merged_over overwrite sm (some (binary b)) h = ground arith
merged_over overwrite sm (some (other x)) h = ground arith
merged_over overwrite sm (some (obj dm)) h = cc

inner-some : (d : Option Value) {dm : Fields} → inner d ≡ some dm → d ≡ some (obj dm)
inner-some none h = cc
inner-some (some (text b)) h = cc
inner-some (some (binary b)) h = cc
inner-some (some (other x)) h = cc
inner-some (some (obj fs)) h = cc

lookup-deep_merge :
    (overwrite : Bool) (src dst : Fields) (j : Bytes)
    → IsObject src
    → lookup j (deep_merge overwrite src dst) ≡ merged overwrite (lookup j src) (lookup j dst)
unfolding deep_merge lookup
lookup-deep_merge overwrite end dst j v = refl
lookup-deep_merge overwrite (field k (text b) src) dst j (n, w, v) =
    let dst' = if overwrite || is_none (lookup k dst) then insert k (text b) dst else dst in
    one_entry overwrite k (text b) src dst dst' j n (put_entry overwrite k (text b) dst j)
      (lookup-deep_merge overwrite src dst' j v)
lookup-deep_merge overwrite (field k (binary b) src) dst j (n, w, v) =
    let dst' = if overwrite || is_none (lookup k dst) then insert k (binary b) dst else dst in
    one_entry overwrite k (binary b) src dst dst' j n (put_entry overwrite k (binary b) dst j)
      (lookup-deep_merge overwrite src dst' j v)
lookup-deep_merge overwrite (field k (other x) src) dst j (n, w, v) =
    let dst' = if overwrite || is_none (lookup k dst) then insert k (other x) dst else dst in
    one_entry overwrite k (other x) src dst dst' j n (put_entry overwrite k (other x) dst j)
      (lookup-deep_merge overwrite src dst' j v)
lookup-deep_merge overwrite (field k (obj sm) src) dst j (n, w, v) =
    elim (Option-cases (inner (lookup k dst))) [
      | inl e ↦
          let dst' = if overwrite || is_none (lookup k dst) then insert k (obj sm) dst else dst in
          rw (deep_merge, e)
            (one_entry overwrite k (obj sm) src dst dst' j n
              (put_entry overwrite k (obj sm) dst j
                ∙ ap (λ x. if equal k j then x else lookup j dst)
                    (sym (merged_over overwrite sm (lookup k dst) e)))
              (lookup-deep_merge overwrite src dst' j v))
      | inr (dm, e) ↦
          let dst' = insert k (obj (deep_merge overwrite sm dm)) dst in
          rw (deep_merge, e)
            (one_entry overwrite k (obj sm) src dst dst' j n
              (lookup-insert k j (obj (deep_merge overwrite sm dm)) dst
                ∙ ap (λ x. if equal k j then merged overwrite (some (obj sm)) x else lookup j dst)
                    (sym (inner-some (lookup k dst) e)))
              (lookup-deep_merge overwrite src dst' j v))
    ]

abbrev pub is_leaf : Value → Bool
is_leaf (obj fs) = false
is_leaf _ = true

lookup-IsObject :
    (k : Bytes) (fs gs : Fields) → IsObject fs → lookup k fs ≡ some (obj gs) → IsObject gs
unfolding lookup
lookup-IsObject k end gs v h = cc
lookup-IsObject k (field j w fs) gs (n, x, v) h = elim (Bool-cases (equal j k)) [
  | inl e ↦ let at : w ≡ obj gs = ground arith in subst IsValue at x
  | inr e ↦ lookup-IsObject k fs gs v (rw e at h)
]

get_path-below :
    (p q : Bytes) (ps : List Bytes) (fs gs : Fields)
    → lookup p fs ≡ some (obj gs)
    → get_path (p ∷ q ∷ ps) fs ≡ get_path (q ∷ ps) gs
unfolding get_path
get_path-below p q ps fs gs h = rw (get_path, h) refl

-- What a longer path leads through.
through :
    (p q : Bytes) (ps : List Bytes) (fs : Fields) (v : Value)
    → get_path (p ∷ q ∷ ps) fs ≡ some v
    → (gs : Fields) × (lookup p fs ≡ some (obj gs)) × (get_path (q ∷ ps) gs ≡ some v)
unfolding get_path
through p q ps fs v h = elim (Option-cases (inner (lookup p fs))) [
  | inl e ↦ absurd (ground arith)
  | inr (gs, e) ↦ (gs, inner-some (lookup p fs) e, ground arith)
]

merged_target : (s : Option Value) (v : Value) → is_leaf v ≡ true → merged false s (some v) ≡ some v
merged_target none v l = refl
merged_target (some (obj sm)) (text b) l = refl
merged_target (some (obj sm)) (binary b) l = refl
merged_target (some (obj sm)) (other x) l = refl
merged_target (some (obj sm)) (obj fs) l = cc
merged_target (some (text b)) v l = refl
merged_target (some (binary b)) v l = refl
merged_target (some (other x)) v l = refl

merged_source : (v : Value) (d : Option Value) → is_leaf v ≡ true → merged true (some v) d ≡ some v
merged_source (obj fs) d l = cc
merged_source (text b) d l = refl
merged_source (binary b) d l = refl
merged_source (other x) d l = refl

target_kept :
    (ps : List Bytes) (src dst : Fields) (v : Value)
    → IsObject src
    → is_leaf v ≡ true
    → get_path ps dst ≡ some v
    → get_path ps (deep_merge false src dst) ≡ some v
target_kept [] src dst v o l h = unfold get_path in cc
target_kept (p ∷ []) src dst v o l h =
    unfold get_path in
    (lookup-deep_merge false src dst p o
      ∙ ap (merged false (lookup p src)) h
      ∙ merged_target (lookup p src) v l)
target_kept (p ∷ q ∷ ps) src dst v o l h =
    let (gs, at, deeper) = through p q ps dst v h in
    below gs (λ sm o' d. target_kept (q ∷ ps) sm gs v o' l d) (lookup p src) refl deeper
      (lookup-deep_merge false src dst p o ∙ ap (merged false (lookup p src)) at)
  where
    below :
        (gs : Fields)
        (again : (sm : Fields)
          → IsObject sm
          → get_path (q ∷ ps) gs ≡ some v
          → get_path (q ∷ ps) (deep_merge false sm gs) ≡ some v)
        (s : Option Value)
        → lookup p src ≡ s
        → get_path (q ∷ ps) gs ≡ some v
        → lookup p (deep_merge false src dst) ≡ merged false s (some (obj gs))
        → get_path (p ∷ q ∷ ps) (deep_merge false src dst) ≡ some v
    below gs again none e d m = get_path-below p q ps (deep_merge false src dst) gs m ∙ d
    below gs again (some (text b)) e d m = get_path-below p q ps (deep_merge false src dst) gs m ∙ d
    below gs again (some (binary b)) e d m =
        get_path-below p q ps (deep_merge false src dst) gs m ∙ d
    below gs again (some (other x)) e d m =
        get_path-below p q ps (deep_merge false src dst) gs m ∙ d
    below gs again (some (obj sm)) e d m =
        get_path-below p q ps (deep_merge false src dst) (deep_merge false sm gs) m
        ∙ again sm (lookup-IsObject p src sm o e) d

source_kept :
    (ps : List Bytes) (src dst : Fields) (v : Value)
    → IsObject src
    → is_leaf v ≡ true
    → get_path ps src ≡ some v
    → get_path ps (deep_merge true src dst) ≡ some v
source_kept [] src dst v o l h = unfold get_path in cc
source_kept (p ∷ []) src dst v o l h =
    unfold get_path in
    (lookup-deep_merge true src dst p o
      ∙ ap (λ s. merged true s (lookup p dst)) h
      ∙ merged_source v (lookup p dst) l)
source_kept (p ∷ q ∷ ps) src dst v o l h =
    let (sm, at, deeper) = through p q ps src v h in
    below sm (λ dm d. source_kept (q ∷ ps) sm dm v (lookup-IsObject p src sm o at) l d)
      (lookup p dst) deeper
      (lookup-deep_merge true src dst p o ∙ ap (λ s. merged true s (lookup p dst)) at)
  where
    below :
        (sm : Fields)
        (again : (dm : Fields)
          → get_path (q ∷ ps) sm ≡ some v
          → get_path (q ∷ ps) (deep_merge true sm dm) ≡ some v)
        (d : Option Value)
        → get_path (q ∷ ps) sm ≡ some v
        → lookup p (deep_merge true src dst) ≡ merged true (some (obj sm)) d
        → get_path (p ∷ q ∷ ps) (deep_merge true src dst) ≡ some v
    below sm again none d m = get_path-below p q ps (deep_merge true src dst) sm m ∙ d
    below sm again (some (text b)) d m = get_path-below p q ps (deep_merge true src dst) sm m ∙ d
    below sm again (some (binary b)) d m = get_path-below p q ps (deep_merge true src dst) sm m ∙ d
    below sm again (some (other x)) d m = get_path-below p q ps (deep_merge true src dst) sm m ∙ d
    below sm again (some (obj dm)) d m =
        get_path-below p q ps (deep_merge true src dst) (deep_merge true sm dm) m ∙ again dm d

-- A merge keeps what has precedence: without `overwrite`, whatever the message has under a path that
-- is no object, it has after the merge; with `overwrite`, whatever was saved under a path that is no
-- object is there after it. In what was saved, no key stands twice.
pub deep_merge-get_path :
    (ps : List Bytes) (src dst : Fields) (v : Value)
    → IsObject src
    → is_leaf v ≡ true
    → (get_path ps dst ≡ some v → get_path ps (deep_merge false src dst) ≡ some v)
      × (get_path ps src ≡ some v → get_path ps (deep_merge true src dst) ≡ some v)
deep_merge-get_path ps src dst v o l = (target_kept ps src dst v o l, source_kept ps src dst v o l)
