-- ===== src/Message/Paths.antt =====
-- `Get` behind `Set`, and the laws of the maps.
use fluxrig.Prelude.{
  ◌≡◌, refl, sym, ◌∙◌, Bool, true, false, List, [], ◌∷◌, none, some, Bytes, equal, equal_iff,
  equal_refl, arith, inl, inr, Bool-cases, Option-cases, if◌then◌else◌,
}
use fluxrig.Message.{
  Value, obj, Fields, end, field, Message, lookup, insert, remove, inner_or_new, get_path, set_path,
  split, get, set, done,
}

pub lookup-insert :
    (k j : Bytes) (v : Value) (fs : Fields)
    → lookup j (insert k v fs) ≡ (if equal k j then some v else lookup j fs)
unfolding lookup insert
lookup-insert k j v end = refl
lookup-insert k j v (field i w fs) =
    ground (arith, equal_iff k j, equal_iff i k, equal_iff i j, lookup-insert k j v fs)

pub lookup-remove :
    (k j : Bytes) (fs : Fields) → lookup j (remove k fs) ≡ (if equal k j then none else lookup j fs)
unfolding lookup remove
lookup-remove k j end = ground arith
lookup-remove k j (field i w fs) =
    ground (arith, equal_iff k j, equal_iff i k, equal_iff i j, lookup-remove k j fs)

-- Neither path is the start of the other.
abbrev pub diverge : List Bytes → List Bytes → Bool
diverge [] qs = false
diverge ps [] = false
diverge (p ∷ ps) (q ∷ qs) = if equal p q then diverge ps qs else true

pub get_path-set_path :
    (ps : List Bytes) (v : Value) (fs fs' : Fields)
    → set_path ps v fs ≡ some fs'
    → get_path ps fs' ≡ some v
unfolding get_path set_path
get_path-set_path [] v fs fs' h = cc
get_path-set_path (p ∷ []) v fs fs' h = ground (arith, lookup-insert p p v fs, equal_refl p)
get_path-set_path (p ∷ q ∷ ps) v fs fs' h = elim (Option-cases (inner_or_new (lookup p fs))) [
  | inl e ↦ absurd (ground arith)
  | inr (gs, e) ↦ elim (Option-cases (set_path (q ∷ ps) v gs)) [
    | inl e2 ↦ absurd (ground arith)
    | inr (gs', e2) ↦ ground (
      arith,
      lookup-insert p p (obj gs') fs,
      equal_refl p,
      get_path-set_path (q ∷ ps) v gs gs' e2,
    )
  ]
]

pub get_path-end : (qs : List Bytes) → get_path qs end ≡ none
unfolding get_path lookup
get_path-end [] = refl
get_path-end (q ∷ []) = refl
get_path-end (q ∷ r ∷ qs) = refl

get_path-inner :
    (q r : Bytes) (qs : List Bytes) (fs gs : Fields)
    → inner_or_new (lookup q fs) ≡ some gs
    → get_path (q ∷ r ∷ qs) fs ≡ get_path (r ∷ qs) gs
unfolding get_path
get_path-inner q r qs fs gs e = elim (Option-cases (lookup q fs)) [
  | inl n ↦ ground (arith, get_path-end (r ∷ qs))
  | inr (w, s) ↦ ground arith
]

pub get_path-set_path_other :
    (ps qs : List Bytes) (v : Value) (fs fs' : Fields)
    → set_path ps v fs ≡ some fs'
    → diverge ps qs ≡ true
    → get_path qs fs' ≡ get_path qs fs
unfolding set_path
get_path-set_path_other [] qs v fs fs' h d = cc
get_path-set_path_other (p ∷ []) [] v fs fs' h d = cc
get_path-set_path_other (p ∷ q ∷ ps) [] v fs fs' h d = cc
get_path-set_path_other (p ∷ []) (r ∷ []) v fs fs' h d =
    unfold get_path in ground (arith, lookup-insert p r v fs)
get_path-set_path_other (p ∷ []) (r ∷ s ∷ qs) v fs fs' h d =
    unfold get_path in ground (arith, lookup-insert p r v fs)
get_path-set_path_other (p ∷ q ∷ ps) (r ∷ qs) v fs fs' h d =
    elim (Option-cases (inner_or_new (lookup p fs))) [
      | inl e ↦ absurd (ground arith)
      | inr (gs, e) ↦ elim (Option-cases (set_path (q ∷ ps) v gs)) [
        | inl e2 ↦ absurd (ground arith)
        | inr (gs', e2) ↦
            let made : insert p (obj gs') fs ≡ fs' = ground arith in
            rw (← made)
              (below p q ps r qs v fs gs gs' e (get_path-set_path_other (q ∷ ps) qs v gs gs' e2) d)
      ]
    ]
  where
    below :
        (p q : Bytes) (ps : List Bytes) (r : Bytes) (qs : List Bytes) (v : Value)
        (fs gs gs' : Fields)
        → inner_or_new (lookup p fs) ≡ some gs
        → (diverge (q ∷ ps) qs ≡ true → get_path qs gs' ≡ get_path qs gs)
        → diverge (p ∷ q ∷ ps) (r ∷ qs) ≡ true
        → get_path (r ∷ qs) (insert p (obj gs') fs) ≡ get_path (r ∷ qs) fs
    below p q ps r [] v fs gs gs' e ih d =
        unfold get_path in ground (arith, lookup-insert p r (obj gs') fs)
    below p q ps r (s ∷ qs) v fs gs gs' e ih d = elim (Bool-cases (equal p r)) [
      | inl same ↦
          let at : p ≡ r = (equal_iff p r).0 same in
          let deeper : get_path (s ∷ qs) gs' ≡ get_path (s ∷ qs) gs = ih (rw same at d) in
          let after : inner_or_new (lookup r (insert p (obj gs') fs)) ≡ some gs' =
            ground (arith, lookup-insert p r (obj gs') fs) in
          get_path-inner r s qs (insert p (obj gs') fs) gs' after
          ∙ deeper
          ∙ sym (get_path-inner r s qs fs gs (rw at at e))
      | inr differ ↦ unfold get_path in ground (arith, lookup-insert p r (obj gs') fs)
    ]

-- What is set under a key is there; every field that is reached by another path, neither the start of
-- the other, keeps its value.
pub get-set :
    (key key2 : Bytes) (v : Value) (m m' : Message)
    → set key v m ≡ done m'
    → diverge (split key) (split key2) ≡ true
    → (get key m' ≡ some v) × (get key2 m' ≡ get key2 m)
unfolding get set
get-set key key2 v m m' h d = elim (Option-cases m.fields) [
  | inl e ↦ absurd (ground arith)
  | inr (fs, e) ↦ elim (Option-cases (set_path (split key) v fs)) [
    | inl e2 ↦ absurd (ground arith)
    | inr (fs', e2) ↦
        let made : m'.fields ≡ some fs' = ground arith in
        rw (made, e)
          (
            get_path-set_path (split key) v fs fs' e2,
            get_path-set_path_other (split key) (split key2) v fs fs' e2 d,
          )
  ]
]
