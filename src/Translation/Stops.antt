-- ===== src/Translation/Stops.antt =====
-- Why the loop over the bindings of a translation stops, by `Apply` of translation.go, after checks
-- without a problem.
use fluxrig.Prelude.{
  ◌≡◌, ◌⊎◌, refl, List, [], ◌∷◌, none, some, Option, Bytes, codes, equal, equal_iff, All, inl, inr,
  Bool-cases, ◌++◌, ap,
}
use fluxrig.Message.{Value, Message}
use fluxrig.Translation.Amount.{Fault, Outcome, failed, done, convert_amount}
use fluxrig.Translation.Spec.{Protocol, Binding, Translation, Spec, check_translation}
use fluxrig.Translation.Apply.{
  Reading, reads, skips, not_loaded, no_entry, nil_lookup, Stop, bad_value, bad_amount, bad_write,
  Collected, writes, stopped, read_string, value, put_amount, put_value, collect,
}
use fluxrig.Translation.Checked.{Explained, value-check_translation}

-- The reading is an error.
abbrev pub Fails : Reading → Type 0
Fails (reads v) = ⊥
Fails skips = ⊥
Fails _ = Unit

goes_on : {ws : List (Bytes × Bytes)} {e : Stop} → writes ws ≡ stopped e → ⊥
goes_on h = cc

stopped_same : {e e' : Stop} → stopped e ≡ stopped e' → e ≡ e'
stopped_same h = cc

Collected-cases :
    (c : Collected)
    → ((e : Stop) × (c ≡ stopped e)) ⊎ ((ws : List (Bytes × Bytes)) × (c ≡ writes ws))
Collected-cases (stopped e) = inl (e, refl)
Collected-cases (writes ws) = inr (ws, refl)

module _ (show : Value → Bytes) (generated : Bytes → Bytes → Bytes) where
  -- What a stop says of the binding that it names: its reading failed, for a reason of the data, or the
  -- amount that it read was not converted. No other stop occurs before the writes.
  abbrev pub IsCause : Spec → Protocol → Message → Binding → Stop → Type 0
  IsCause s q m b (bad_value to r) =
      (b.to ≡ to) × (value show generated s m b ≡ r) × Fails r × Explained s b r
  IsCause s q m b (bad_amount to f) =
      (b.to ≡ to)
      × (b.format ≡ codes "amount")
      × (v : Bytes) × (value show generated s m b ≡ reads v)
      × (convert_amount v (read_string show generated m b.currency) q.kind ≡ failed f)
  IsCause s q m b (bad_write to) = ⊥

  put_amount_stopped :
      (alias : Option Bytes) (to : Bytes) (o : Outcome) (ws : List (Bytes × Bytes)) (e : Stop)
      → put_amount show generated alias to o ws ≡ stopped e
      → (f : Fault) × (o ≡ failed f) × (bad_amount to f ≡ e)
  put_amount_stopped alias to (failed f) ws e h = (f, refl, cc)
  put_amount_stopped none to (done a cur) ws e h = cc
  put_amount_stopped (some ca) to (done a cur) ws e h = cc

  put_value-IsCause :
      (s : Spec) (t : Translation) (q : Protocol) (m : Message) (b : Binding) (r : Reading)
      (ws : List (Bytes × Bytes)) (e : Stop)
      → value show generated s m b ≡ r
      → Explained s b r
      → put_value show generated t q m b r ws ≡ stopped e
      → IsCause s q m b e
  put_value-IsCause s t q m b skips ws e at x h = cc
  put_value-IsCause s t q m b (reads v) ws e at x h =
      elim (Bool-cases (equal b.format (codes "amount"))) [
        | inr plain ↦ absurd (goes_on (rw plain at h))
        | inl amount ↦
            let o = convert_amount v (read_string show generated m b.currency) q.kind in
            let (f, fails, same) =
              put_amount_stopped (q.currency_alias t.to b.to) b.to o ws e (rw amount at h) in
            rw (← same) (refl, (equal_iff b.format (codes "amount")).0 amount, v, at, fails)
      ]
  put_value-IsCause s t q m b not_loaded ws e at x h =
      let same : bad_value b.to not_loaded ≡ e = cc in rw (← same) (refl, at, tt, x)
  put_value-IsCause s t q m b no_entry ws e at x h =
      let same : bad_value b.to no_entry ≡ e = cc in rw (← same) (refl, at, tt, x)
  put_value-IsCause s t q m b nil_lookup ws e at x h = absurd x

  -- The binding is one of the list, and those in front of it did not stop.
  collect-IsCause :
      (s : Spec) (t : Translation) (q : Protocol) (m : Message) (bs : List Binding)
      (ws : List (Bytes × Bytes)) (e : Stop)
      → All (λ b. Explained s b (value show generated s m b)) bs
      → collect show generated s t q m bs ws ≡ stopped e
      → (front : List Binding) × (back : List Binding) × (b : Binding) × (bs ≡ front ++ (b ∷ back))
        × IsCause s q m b e
  unfolding collect
  collect-IsCause s t q m [] ws e x h = cc
  collect-IsCause s t q m (b ∷ bs) ws e (here, later) h =
      let r = value show generated s m b in
      elim (Collected-cases (put_value show generated t q m b r ws)) [
        | inl (e', at) ↦
            let same : e' ≡ e = stopped_same (rw (collect, at) at h) in
            ([], bs, b, refl, rw (← same) (put_value-IsCause s t q m b r ws e' refl here at))
        | inr (ws', at) ↦
            let (front, back, c, split, cause) =
              collect-IsCause s t q m bs ws' e later (rw (collect, at) at h) in
            (b ∷ front, back, c, ap (◌∷◌ b) split, cause)
      ]

  -- After checks without a problem, whenever the loop over the bindings of the translation stops, on any
  -- message, it is at a binding of the translation that the stop names: its lookup is declared and the
  -- records are not loaded, or its table is declared and has no default, or its format is an amount and
  -- the conversion of the text that it read failed.
  pub collect-check_translation :
      (s : Spec) (t : Translation) (p q : Protocol) (m : Message) {e : Stop}
      → t.from_proto ≡ some p
      → t.to_proto ≡ some q
      → check_translation s t ≡ []
      → collect show generated s t q m t.bindings [] ≡ stopped e
      → (front : List Binding) × (back : List Binding) × (b : Binding) × (t.bindings
          ≡ front ++ (b ∷ back))
        × IsCause s q m b e
  collect-check_translation s t p q m {e} hp hq h stop =
      collect-IsCause s t q m t.bindings [] e
        (value-check_translation show generated s t p q hp hq h m) stop
