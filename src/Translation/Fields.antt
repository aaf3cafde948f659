-- ===== src/Translation/Fields.antt =====
-- The writes of a translation, in `Apply` of translation.go: the map of them, and the message behind them.
use fluxrig.Prelude.{
  ◌≡◌, refl, sym, ap, ◌∙◌, true, List, [], ◌∷◌, none, some, Bytes, equal, equal_iff, All, arith,
  inl, inr, Bool-cases, Option-cases, if◌then◌else◌,
}
use fluxrig.Message.{
  Value, text, Message, get, set, set_path, split, SetEnd, done, conflict, panics,
}
use fluxrig.Message.Paths.{diverge, get-set, get_path-set_path}
use fluxrig.Translation.Spec.{entry}
use fluxrig.Translation.Apply.{put_write}
use fluxrig.Translation.Written.{set_all}

get-set_same :
    (key : Bytes) (v : Value) (m m' : Message) → set key v m ≡ done m' → get key m' ≡ some v
unfolding get set
get-set_same key v m m' h = elim (Option-cases m.fields) [
  | inl e ↦ absurd (ground arith)
  | inr (fs, e) ↦ elim (Option-cases (set_path (split key) v fs)) [
    | inl e2 ↦ absurd (ground arith)
    | inr (fs', e2) ↦
        let made : m'.fields ≡ some fs' = ground arith in
        rw made (get_path-set_path (split key) v fs fs' e2)
  ]
]

pub entry-put_write :
    (k j v : Bytes) (ws : List (Bytes × Bytes))
    → entry j (put_write k v ws) ≡ (if equal k j then some v else entry j ws)
unfolding entry put_write
entry-put_write k j v [] = refl
entry-put_write k j v ((i, w) ∷ ws) =
    ground (arith, equal_iff k j, equal_iff i k, equal_iff i j, entry-put_write k j v ws)

no_error : {k : Bytes} → some k ≡ none → ⊥
no_error e = cc

set_all_cons :
    (j v : Bytes) (ws : List (Bytes × Bytes)) (m m' : Message)
    → set_all ((j, v) ∷ ws) m ≡ (m', none)
    → (m1 : Message) × (set j (text v) m ≡ done m1) × (set_all ws m1 ≡ (m', none))
unfolding set_all
set_all_cons j v ws m m' h = step (set j (text v) m) refl
  where
    step :
        (r : SetEnd)
        → set j (text v) m ≡ r
        → (m1 : Message) × (set j (text v) m ≡ done m1) × (set_all ws m1 ≡ (m', none))
    step (done m1) e = (m1, e, rw (set_all, e) at h)
    step conflict e = absurd (no_error (ap (λ r. r.1) (rw (set_all, e) at h)))
    step panics e = absurd (no_error (ap (λ r. r.1) (rw (set_all, e) at h)))

-- What is set under a key leaves every path that diverges from it as it was.
set_all_other :
    (ws : List (Bytes × Bytes)) (k : Bytes) (m m' : Message)
    → set_all ws m ≡ (m', none)
    → All (λ e. diverge (split e.0) (split k) ≡ true) ws
    → get k m' ≡ get k m
set_all_other [] k m m' h a =
    let same : m ≡ m' = unfold set_all in ap (λ r. r.0) h in ap (get k) (sym same)
set_all_other ((j, v) ∷ ws) k m m' h a =
    let (m1, e, later) = set_all_cons j v ws m m' h in
    set_all_other ws k m1 m' later a.1 ∙ (get-set j k (text v) m m1 e a.0).1

-- No key is the start of another, each seen from those behind it.
abbrev pub Apart : List (Bytes × Bytes) → Type 0
Apart [] = Unit
Apart ((k, v) ∷ ws) = All (λ e. diverge (split e.0) (split k) ≡ true) ws × Apart ws

pub get-set_all :
    (ws : List (Bytes × Bytes)) (k v : Bytes) (m m' : Message)
    → set_all ws m ≡ (m', none)
    → Apart ws
    → entry k ws ≡ some v
    → get k m' ≡ some (text v)
unfolding entry
get-set_all [] k v m m' h a e = cc
get-set_all ((j, w) ∷ ws) k v m m' h a e =
    let (m1, f, later) = set_all_cons j w ws m m' h in
    elim (Bool-cases (equal j k)) [
      | inr g ↦ get-set_all ws k v m1 m' later a.1 (rw g at e)
      | inl g ↦
          let same : j ≡ k = (equal_iff j k).0 g in
          let at : w ≡ v = ground arith in
          ap (λ x. get x m') (sym same)
          ∙ set_all_other ws j m1 m' later a.0
          ∙ get-set_same j (text w) m m1 f
          ∙ ap (λ x. some (text x)) at
    ]
