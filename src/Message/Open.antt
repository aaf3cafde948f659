-- ===== src/Message/Open.antt =====
-- When `Set` of fluxmsg has a conflict: some part of the path before the last is a value that is no map.
use fluxrig.Prelude.{
  ◌≡◌, refl, sym, ◌∙◌, Bool, true, false, List, [], ◌∷◌, none, some, Bytes, equal, equal_iff, arith,
  inl, inr, Bool-cases, Option-cases, ◌==◌,
}
use fluxrig.Message.{Value, obj, Fields, end, lookup, insert, inner_or_new, set_path, split}
use fluxrig.Message.Paths.{lookup-insert, diverge}

-- Every part of the path before the last is missing or a map.
unfoldable pub open_path : List Bytes → Fields → Bool
open_path [] fs = false
open_path (p ∷ []) fs = true
open_path (p ∷ q ∷ ps) fs = elim (inner_or_new (lookup p fs)) [
  | none ↦ false
  | some gs ↦ open_path (q ∷ ps) gs
]

pub set_path_open :
    (ps : List Bytes) (v : Value) (fs : Fields)
    → open_path ps fs ≡ true
    → (fs' : Fields) × (set_path ps v fs ≡ some fs')
unfolding open_path set_path
set_path_open [] v fs h = cc
set_path_open (p ∷ []) v fs h = (insert p v fs, refl)
set_path_open (p ∷ q ∷ ps) v fs h = elim (Option-cases (inner_or_new (lookup p fs))) [
  | inl e ↦ absurd (ground arith)
  | inr (gs, e) ↦
      let (gs', made) = set_path_open (q ∷ ps) v gs (ground arith) in
      (insert p (obj gs') fs, ground arith)
]

pub set_path_closed :
    (ps : List Bytes) (v : Value) (fs : Fields) → open_path ps fs ≡ false → set_path ps v fs ≡ none
unfolding open_path set_path
set_path_closed [] v fs h = refl
set_path_closed (p ∷ []) v fs h = cc
set_path_closed (p ∷ q ∷ ps) v fs h = elim (Option-cases (inner_or_new (lookup p fs))) [
  | inl e ↦ ground arith
  | inr (gs, e) ↦ ground (arith, set_path_closed (q ∷ ps) v gs)
]

split_cons : (f : Bytes) → (p : Bytes) × (ps : List Bytes) × (split f ≡ p ∷ ps)
unfolding split
split_cons [] = ([], [], refl)
split_cons (c ∷ s) = elim (Bool-cases (c == b'.')) [
  | inl e ↦ ([], split s, rw e refl)
  | inr e ↦ let (p, ps, h) = split_cons s in (c ∷ p, ps, rw (e, h) refl)
]

open_path_end : (p : Bytes) (ps : List Bytes) → open_path (p ∷ ps) end ≡ true
unfolding open_path lookup
open_path_end p [] = refl
open_path_end p (q ∷ ps) = open_path_end q ps

pub open_path-split_end : (f : Bytes) → open_path (split f) end ≡ true
open_path-split_end f = let (p, ps, h) = split_cons f in rw h (open_path_end p ps)

open_path-inner :
    (q r : Bytes) (qs : List Bytes) (fs gs : Fields)
    → inner_or_new (lookup q fs) ≡ some gs
    → open_path (q ∷ r ∷ qs) fs ≡ open_path (r ∷ qs) gs
unfolding open_path
open_path-inner q r qs fs gs e = ground arith

-- A set at a path, neither the start of the other, opens and closes nothing.
pub open_path-set_path_other :
    (ps qs : List Bytes) (v : Value) (fs fs' : Fields)
    → set_path ps v fs ≡ some fs'
    → diverge ps qs ≡ true
    → open_path qs fs' ≡ open_path qs fs
unfolding set_path
open_path-set_path_other [] qs v fs fs' h d = cc
open_path-set_path_other (p ∷ []) [] v fs fs' h d = cc
open_path-set_path_other (p ∷ q ∷ ps) [] v fs fs' h d = cc
open_path-set_path_other (p ∷ []) (r ∷ []) v fs fs' h d = unfold open_path in refl
open_path-set_path_other (p ∷ []) (r ∷ s ∷ qs) v fs fs' h d =
    unfold open_path in ground (arith, lookup-insert p r v fs)
open_path-set_path_other (p ∷ q ∷ ps) (r ∷ qs) v fs fs' h d =
    elim (Option-cases (inner_or_new (lookup p fs))) [
      | inl e ↦ absurd (ground arith)
      | inr (gs, e) ↦ elim (Option-cases (set_path (q ∷ ps) v gs)) [
        | inl e2 ↦ absurd (ground arith)
        | inr (gs', e2) ↦
            let made : insert p (obj gs') fs ≡ fs' = ground arith in
            rw (← made)
              (below p q ps r qs v fs gs gs' e (open_path-set_path_other (q ∷ ps) qs v gs gs' e2) d)
      ]
    ]
  where
    below :
        (p q : Bytes) (ps : List Bytes) (r : Bytes) (qs : List Bytes) (v : Value)
        (fs gs gs' : Fields)
        → inner_or_new (lookup p fs) ≡ some gs
        → (diverge (q ∷ ps) qs ≡ true → open_path qs gs' ≡ open_path qs gs)
        → diverge (p ∷ q ∷ ps) (r ∷ qs) ≡ true
        → open_path (r ∷ qs) (insert p (obj gs') fs) ≡ open_path (r ∷ qs) fs
    below p q ps r [] v fs gs gs' e ih d = unfold open_path in refl
    below p q ps r (s ∷ qs) v fs gs gs' e ih d = elim (Bool-cases (equal p r)) [
      | inl same ↦
          let at : p ≡ r = (equal_iff p r).0 same in
          let after : inner_or_new (lookup r (insert p (obj gs') fs)) ≡ some gs' =
            ground (arith, lookup-insert p r (obj gs') fs) in
          open_path-inner r s qs (insert p (obj gs') fs) gs' after
          ∙ ih (rw same at d)
          ∙ sym (open_path-inner r s qs fs gs (rw at at e))
      | inr differ ↦ unfold open_path in ground (arith, lookup-insert p r (obj gs') fs)
    ]
