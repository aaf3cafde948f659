-- ===== src/Translation/Targets.antt =====
-- Where the fields of a translated message come from: the two loops of `Apply`, translation.go.
use mathlib.Core.Path.{subst}
use fluxrig.Prelude.{
  ◌≡◌, refl, sym, ap, ◌∙◌, false, List, [], ◌∷◌, ◌++◌, Option, none, some, Bytes, codes, equal,
  equal_refl, All, arith, inl, inr, Bool-cases, if◌then◌else◌,
}
use fluxrig.Message.{Value, text, Message, get}
use fluxrig.Translation.Amount.{Outcome, convert_amount}
use fluxrig.Translation.Spec.{Protocol, Binding, Translation, Spec, entry, contains}
use fluxrig.Translation.Apply.{
  Reading, reads, skips, not_loaded, no_entry, nil_lookup, Collected, writes, stopped, put_write,
  put_amount, put_value, read_string, value, collect,
}
use fluxrig.Translation.Written.{set_all}
use fluxrig.Translation.Fields.{entry-put_write, Apart, get-set_all}

abbrev pub with_currency : Option Bytes → Bytes → List Bytes
with_currency none to = to ∷ []
with_currency (some ca) to = ca ∷ to ∷ []

-- The keys that a binding may write.
abbrev pub keys_of : Translation → Protocol → Binding → List Bytes
keys_of t q b =
    if equal b.format (codes "amount")
    then with_currency (q.currency_alias t.to b.to) b.to
    else b.to ∷ []

-- No binding of the list writes the key.
abbrev pub Unwritten : Translation → Protocol → Bytes → List Binding → Type 0
Unwritten t q k = All (λ b. contains (keys_of t q b) k ≡ false)

entry-put_write_other :
    (to k v : Bytes) (ws : List (Bytes × Bytes))
    → equal to k ≡ false
    → entry k (put_write to v ws) ≡ entry k ws
entry-put_write_other to k v ws h = entry-put_write to k v ws ∙ rw h refl

module _ (show : Value → Bytes) (generated : Bytes → Bytes → Bytes) where
  put_amount_other :
      (alias : Option Bytes) (to : Bytes) (o : Outcome) (k : Bytes) (ws ws' : List (Bytes × Bytes))
      → contains (with_currency alias to) k ≡ false
      → put_amount show generated alias to o ws ≡ writes ws'
      → entry k ws' ≡ entry k ws
  unfolding contains
  put_amount_other alias to (Outcome.failed f) k ws ws' h e = cc
  put_amount_other none to (Outcome.done a cur) k ws ws' h e =
      let at : put_write to a ws ≡ ws' = cc in
      ap (entry k) (sym at) ∙ entry-put_write_other to k a ws (ground arith)
  put_amount_other (some ca) to (Outcome.done a cur) k ws ws' h e =
      let at : put_write to a (put_write ca cur ws) ≡ ws' = cc in
      ap (entry k) (sym at)
      ∙ entry-put_write_other to k a (put_write ca cur ws) (ground arith)
      ∙ entry-put_write_other ca k cur ws (ground arith)

  put_value_other :
      (t : Translation) (q : Protocol) (m : Message) (b : Binding) (r : Reading) (k : Bytes)
      (ws ws' : List (Bytes × Bytes))
      → contains (keys_of t q b) k ≡ false
      → put_value show generated t q m b r ws ≡ writes ws'
      → entry k ws' ≡ entry k ws
  unfolding contains
  put_value_other t q m b not_loaded k ws ws' h e = cc
  put_value_other t q m b no_entry k ws ws' h e = cc
  put_value_other t q m b nil_lookup k ws ws' h e = cc
  put_value_other t q m b skips k ws ws' h e = let at : ws ≡ ws' = cc in ap (entry k) (sym at)
  put_value_other t q m b (reads v) k ws ws' h e =
      elim (Bool-cases (equal b.format (codes "amount"))) [
        | inl f ↦
            put_amount_other (q.currency_alias t.to b.to) b.to
              (convert_amount v (read_string show generated m b.currency) q.kind) k ws ws'
              (rw f at h) (rw f at e)
        | inr f ↦
            let at : put_write b.to v ws ≡ ws' = (let u = rw f at e in cc) in
            let apart : equal b.to k ≡ false = (let u = rw f at h in ground arith) in
            ap (entry k) (sym at) ∙ entry-put_write_other b.to k v ws apart
      ]

  collect_cons :
      (s : Spec) (t : Translation) (q : Protocol) (m : Message) (b : Binding) (bs : List Binding)
      (ws ws' : List (Bytes × Bytes))
      → collect show generated s t q m (b ∷ bs) ws ≡ writes ws'
      → (ws1 : List (Bytes × Bytes)) × (put_value show generated t q m b
            (value show generated s m b)
            ws
          ≡ writes ws1)
        × (collect show generated s t q m bs ws1 ≡ writes ws')
  unfolding collect
  collect_cons s t q m b bs ws ws' h =
      step (put_value show generated t q m b (value show generated s m b) ws) refl
    where
      step :
          (r : Collected)
          → put_value show generated t q m b (value show generated s m b) ws ≡ r
          → (ws1 : List (Bytes × Bytes)) × (put_value show generated t q m b
                (value show generated s m b)
                ws
              ≡ writes ws1)
            × (collect show generated s t q m bs ws1 ≡ writes ws')
      step (writes ws1) e = (ws1, e, rw (collect, e) at h)
      step (stopped x) e = absurd (stops (rw (collect, e) at h))
        where
          stops : stopped x ≡ writes ws' → ⊥
          stops y = cc

  collect_other :
      (s : Spec) (t : Translation) (q : Protocol) (m : Message) (bs : List Binding) (k : Bytes)
      (ws ws' : List (Bytes × Bytes))
      → Unwritten t q k bs
      → collect show generated s t q m bs ws ≡ writes ws'
      → entry k ws' ≡ entry k ws
  collect_other s t q m [] k ws ws' u h =
      let at : ws ≡ ws' = (let x : writes ws ≡ writes ws' = unfold collect in h in cc) in
      ap (entry k) (sym at)
  collect_other s t q m (b ∷ bs) k ws ws' u h =
      let (ws1, here, later) = collect_cons s t q m b bs ws ws' h in
      collect_other s t q m bs k ws1 ws' u.1 later
      ∙ put_value_other t q m b (value show generated s m b) k ws ws1 u.0 here

  -- What a binding writes under its target, of the message as it arrived.
  abbrev pub amount_of : Outcome → Option Bytes
  amount_of (Outcome.failed f) = none
  amount_of (Outcome.done a cur) = some a

  abbrev pub written_of : Protocol → Message → Binding → Reading → Option Bytes
  written_of q m b (reads v) =
      if equal b.format (codes "amount")
      then amount_of (convert_amount v (read_string show generated m b.currency) q.kind)
      else some v
  written_of q m b r = none

  abbrev pub written : Spec → Protocol → Message → Binding → Option Bytes
  written s q m b = written_of q m b (value show generated s m b)

  entry-put_write_same :
      (k v : Bytes) (ws : List (Bytes × Bytes)) → entry k (put_write k v ws) ≡ some v
  entry-put_write_same k v ws = entry-put_write k k v ws ∙ rw (equal_refl k) refl

  put_amount_target :
      (alias : Option Bytes) (to : Bytes) (o : Outcome) (v : Bytes) (ws ws' : List (Bytes × Bytes))
      → amount_of o ≡ some v
      → put_amount show generated alias to o ws ≡ writes ws'
      → entry to ws' ≡ some v
  put_amount_target alias to (Outcome.failed f) v ws ws' a e = cc
  put_amount_target none to (Outcome.done x cur) v ws ws' a e =
      let at : put_write to x ws ≡ ws' = cc in
      let same : some x ≡ some v = a in ap (entry to) (sym at) ∙ entry-put_write_same to x ws ∙ same
  put_amount_target (some ca) to (Outcome.done x cur) v ws ws' a e =
      let at : put_write to x (put_write ca cur ws) ≡ ws' = cc in
      let same : some x ≡ some v = a in
      ap (entry to) (sym at) ∙ entry-put_write_same to x (put_write ca cur ws) ∙ same

  put_value_target :
      (t : Translation) (q : Protocol) (m : Message) (b : Binding) (r : Reading) (v : Bytes)
      (ws ws' : List (Bytes × Bytes))
      → written_of q m b r ≡ some v
      → put_value show generated t q m b r ws ≡ writes ws'
      → entry b.to ws' ≡ some v
  put_value_target t q m b skips v ws ws' a e = cc
  put_value_target t q m b not_loaded v ws ws' a e = cc
  put_value_target t q m b no_entry v ws ws' a e = cc
  put_value_target t q m b nil_lookup v ws ws' a e = cc
  put_value_target t q m b (reads u) v ws ws' a e =
      elim (Bool-cases (equal b.format (codes "amount"))) [
        | inl f ↦
            put_amount_target (q.currency_alias t.to b.to) b.to
              (convert_amount u (read_string show generated m b.currency) q.kind) v ws ws'
              (rw f at a) (rw f at e)
        | inr f ↦
            let at : put_write b.to u ws ≡ ws' = (let x = rw f at e in cc) in
            ap (entry b.to) (sym at) ∙ entry-put_write_same b.to u ws ∙ (rw f at a)
      ]

  collect_target :
      (s : Spec) (t : Translation) (q : Protocol) (m : Message) (pre : List Binding) (b : Binding)
      (post : List Binding) (v : Bytes) (ws ws' : List (Bytes × Bytes))
      → Unwritten t q b.to post
      → written s q m b ≡ some v
      → collect show generated s t q m (pre ++ (b ∷ post)) ws ≡ writes ws'
      → entry b.to ws' ≡ some v
  collect_target s t q m [] b post v ws ws' u a h =
      let (ws1, here, later) = collect_cons s t q m b post ws ws' h in
      collect_other s t q m post b.to ws1 ws' u later
      ∙ put_value_target t q m b (value show generated s m b) v ws ws1 a here
  collect_target s t q m (c ∷ pre) b post v ws ws' u a h =
      let (ws1, here, later) = collect_cons s t q m c (pre ++ (b ∷ post)) ws ws' h in
      collect_target s t q m pre b post v ws1 ws' u a later

  -- When a translation writes its fields without an error, and the keys that it writes are on paths that
  -- diverge, each binding whose target no later binding writes leaves there what it reads of the message
  -- as it arrived, with its amount converted, if it reads and converts one.
  pub get-set_all-collect :
      (s : Spec) (t : Translation) (q : Protocol) (m m' : Message) (ws : List (Bytes × Bytes))
      (pre : List Binding) (b : Binding) (post : List Binding) (v : Bytes)
      → t.bindings ≡ pre ++ (b ∷ post)
      → collect show generated s t q m t.bindings [] ≡ writes ws
      → set_all ws m ≡ (m', none)
      → Apart ws
      → Unwritten t q b.to post
      → written s q m b ≡ some v
      → get b.to m' ≡ some (text v)
  get-set_all-collect s t q m m' ws pre b post v split_at h k a u x =
      get-set_all ws b.to v m m' k a (
        collect_target s t q m pre b post v [] ws u x
          (subst (λ bs. collect show generated s t q m bs [] ≡ writes ws) split_at h))
