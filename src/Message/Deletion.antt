-- ===== src/Message/Deletion.antt =====
-- What `deletePath` removes stays removed.
use fluxrig.Prelude.{
  ◌≡◌, refl, true, List, [], ◌∷◌, none, Bytes, equal_iff, equal_refl, arith, inl, inr, Option-cases,
}
use fluxrig.Message.{obj, Fields, end, field, lookup, inner, get_path, delete_path, is_end}
use fluxrig.Message.Paths.{lookup-insert, lookup-remove}

pub get_path-delete_path : (ps : List Bytes) (fs : Fields) → get_path ps (delete_path ps fs) ≡ none
unfolding get_path delete_path
get_path-delete_path [] fs = refl
get_path-delete_path (p ∷ []) fs = ground (arith, lookup-remove p p fs, equal_refl p)
get_path-delete_path (p ∷ q ∷ ps) fs = elim (Option-cases (inner (lookup p fs))) [
  | inl e ↦ ground arith
  | inr (gs, e) ↦ ground (
    arith,
    lookup-remove p p fs,
    lookup-insert p p (obj (delete_path (q ∷ ps) gs)) fs,
    equal_refl p,
    get_path-delete_path (q ∷ ps) gs,
  )
]

is_end-eq : (fs : Fields) → is_end fs ≡ true → fs ≡ end
is_end-eq end h = refl
is_end-eq (field k v fs) h = cc

-- A path that leads nowhere still leads nowhere after any deletion.
pub get_path-delete_path-none :
    (ps qs : List Bytes) (fs : Fields)
    → get_path qs fs ≡ none
    → get_path qs (delete_path ps fs) ≡ none
unfolding delete_path get_path
get_path-delete_path-none [] qs fs h = h
get_path-delete_path-none (p ∷ []) [] fs h = refl
get_path-delete_path-none (p ∷ []) (q ∷ []) fs h = ground (arith, lookup-remove p q fs)
get_path-delete_path-none (p ∷ []) (q ∷ r ∷ qs) fs h = ground (arith, lookup-remove p q fs)
get_path-delete_path-none (p ∷ p' ∷ ps) [] fs h = refl
get_path-delete_path-none (p ∷ p' ∷ ps) (q ∷ []) fs h = elim (Option-cases (inner (lookup p fs))) [
  | inl e ↦ ground arith
  | inr (gs, e) ↦ ground (
    arith,
    equal_iff p q,
    lookup-remove p q fs,
    lookup-insert p q (obj (delete_path (p' ∷ ps) gs)) fs,
  )
]
get_path-delete_path-none (p ∷ p' ∷ ps) (q ∷ r ∷ qs) fs h =
    elim (Option-cases (inner (lookup p fs))) [
      | inl e ↦ ground arith
      | inr (gs, e) ↦ ground (
        arith,
        equal_iff p q,
        lookup-remove p q fs,
        lookup-insert p q (obj (delete_path (p' ∷ ps) gs)) fs,
        get_path-delete_path-none (p' ∷ ps) (r ∷ qs) gs,
      )
    ]
