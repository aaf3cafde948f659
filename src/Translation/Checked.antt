-- ===== src/Translation/Checked.antt =====
-- What the checks of `Load` are for: a translation that passed them never misses a table or a lookup
-- when it runs, by `checkTranslation`, `value` and `Select` of translation.go.
use fluxrig.Prelude.{
  append_empty, ◌≡◌, true, false, not, List, [], ◌∷◌, ◌++◌, none, some, Bytes, All, inl, inr,
  Bool-cases, Option-cases, if◌then◌else◌, ◌==◌,
}
use fluxrig.Message.{Value, Message}
use fluxrig.Translation.Amount.{cut}
use fluxrig.Translation.Spec.{
  Protocol, Binding, Translation, Table, Lookup, Spec, Problem, entry, is_empty, no_sources, unless,
  check_sources, check_lookup, check_generate, check_format, check_named, check_binding,
  check_bindings, check_side, check_translation, sources, contains, is_some_table,
}
use fluxrig.Translation.Apply.{
  Reading, reads, skips, not_loaded, no_entry, nil_lookup, parts, read_parts, reads_some,
  from_table, through_table, entry_or_empty, look, read_string, source_of, value,
}

fourth_and_seventh {ℓ} :
    {A : Type ℓ} (a b c d e f g h : List A)
    → a ++ b ++ c ++ d ++ e ++ f ++ g ++ h ≡ []
    → (d ≡ []) × (g ≡ [])
fourth_and_seventh a b c d e f g h k =
    let (k1, _) = append_empty (a ++ b ++ c ++ d ++ e ++ f ++ g) h k in
    let (k2, kg) = append_empty (a ++ b ++ c ++ d ++ e ++ f) g k1 in
    let (k3, _) = append_empty (a ++ b ++ c ++ d ++ e) f k2 in
    let (k4, _) = append_empty (a ++ b ++ c ++ d) e k3 in ((append_empty (a ++ b ++ c) d k4).1, kg)

-- What the checks leave of a binding.
record Checked (s : Spec) (b : Binding) : Type 0 where
  with_lookup :
      is_empty b.lookup ≡ false → (l : Lookup) × (entry (cut b.lookup).0 s.lookups ≡ some l)
  with_table : is_empty b.table ≡ false → (tb : Table) × (entry b.table s.tables ≡ some tb)

check_lookup_declared :
    (s : Spec) (t : Translation) (p : Protocol) (name : Bytes)
    → check_lookup s t p name ≡ []
    → (l : Lookup) × (entry (cut name).0 s.lookups ≡ some l)
unfolding check_lookup
check_lookup_declared s t p name h = elim (Option-cases (entry (cut name).0 s.lookups)) [
  | inr r ↦ r
  | inl e ↦ absurd (differ e)
]
  where
    differ : entry (cut name).0 s.lookups ≡ none → ⊥
    differ e = cc

table_declared :
    (s : Spec) (name : Bytes)
    → unless (is_some_table (entry name s.tables)) Problem.table_undeclared ≡ []
    → (tb : Table) × (entry name s.tables ≡ some tb)
table_declared s name h = elim (Option-cases (entry name s.tables)) [
  | inr r ↦ r
  | inl e ↦ absurd (differ e)
]
  where
    differ : entry name s.tables ≡ none → ⊥
    differ e = cc

check_named-Checked :
    (s : Spec) (t : Translation) (p q : Protocol) (seen : List Bytes) (b : Binding)
    → check_named s t p q seen b ≡ []
    → Checked s b
unfolding check_named
check_named-Checked s t p q seen b h =
    let (found, tabled) =
      fourth_and_seventh (unless (not (contains seen b.to)) Problem.twice)
        (unless (q.has_alias t.to b.to) Problem.unknown_alias) (check_sources p t.from b.from)
        (if is_empty b.lookup then [] else check_lookup s t p b.lookup)
        (if is_empty b.generate then [] else check_generate s q b.generate)
        (unless (sources b == 1) Problem.kinds)
        (if is_empty b.table
          then []
          else unless (is_some_table (entry b.table s.tables)) Problem.table_undeclared)
        (check_format t p q b) h in
    record {
      with_lookup = λ x. check_lookup_declared s t p b.lookup (rw x at found);
      with_table = λ x. table_declared s b.table (rw x at tabled);
    }

check_binding-Checked :
    (s : Spec) (t : Translation) (p q : Protocol) (seen : List Bytes) (b : Binding)
    → check_binding s t p q seen b ≡ []
    → Checked s b
unfolding check_binding
check_binding-Checked s t p q seen b h = elim (Bool-cases (is_empty b.to)) [
  | inl e ↦ absurd (differ e)
  | inr e ↦ check_named-Checked s t p q seen b (rw e at h)
]
  where
    differ : is_empty b.to ≡ true → ⊥
    differ e = cc

check_bindings-Checked :
    (s : Spec) (t : Translation) (p q : Protocol) (seen : List Bytes) (bs : List Binding)
    → check_bindings s t p q seen bs ≡ []
    → All (Checked s) bs
unfolding check_bindings
check_bindings-Checked s t p q seen [] h = tt
check_bindings-Checked s t p q seen (b ∷ bs) h =
    let (here, later) = append_empty (check_binding s t p q seen b) _ h in
    (
      check_binding-Checked s t p q seen b here,
      check_bindings-Checked s t p q (if is_empty b.to then seen else b.to ∷ seen) bs later,
    )

check_translation-Checked :
    (s : Spec) (t : Translation) (p q : Protocol)
    → t.from_proto ≡ some p
    → t.to_proto ≡ some q
    → check_translation s t ≡ []
    → All (Checked s) t.bindings
unfolding check_translation
check_translation-Checked s t p q hp hq h =
    let (_, bound) =
      append_empty (check_side (some p) t.from ++ check_side (some q) t.to)
        (check_bindings s t p q [] t.bindings) (rw (hp, hq) at h) in
    check_bindings-Checked s t p q [] t.bindings bound

-- Why a binding reads nothing: the records of its lookup are not loaded, or its table has neither the
-- text nor a default.
abbrev pub Explained : Spec → Binding → Reading → Type 0
Explained s b (reads v) = Unit
Explained s b skips = Unit
Explained s b not_loaded =
    (l : Lookup) × (entry (cut b.lookup).0 s.lookups ≡ some l) × (l.records ≡ none)
Explained s b no_entry = (tb : Table) × (entry b.table s.tables ≡ some tb) × (tb.fallback ≡ none)
Explained s b nil_lookup = ⊥

read_parts-Explained : (s : Spec) (b : Binding) (ps : List Bytes) → Explained s b (read_parts ps)
read_parts-Explained s b [] = tt
read_parts-Explained s b (p ∷ ps) = tt

reads_some-Explained : (s : Spec) (b : Binding) (v : Bytes) → Explained s b (reads_some v)
reads_some-Explained s b [] = tt
reads_some-Explained s b (c ∷ v) = tt

from_table-Explained :
    (s : Spec) (b : Binding) (tb : Table) (v : Bytes)
    → entry b.table s.tables ≡ some tb
    → Explained s b (from_table tb v)
unfolding from_table
from_table-Explained s b tb v h = elim (Option-cases (entry v tb.values)) [
  | inr (out, e) ↦ rw (from_table, e) tt
  | inl e ↦ elim (Option-cases tb.fallback) [
    | inr (d, f) ↦ rw (from_table, e, f) tt
    | inl f ↦ rw (from_table, e, f) (tb, h, f)
  ]
]

through_table-Explained :
    (s : Spec) (b : Binding) (r : Reading)
    → Checked s b
    → Explained s b r
    → Explained s b (through_table s b.table r)
unfolding through_table
through_table-Explained s b skips c h = h
through_table-Explained s b not_loaded c h = h
through_table-Explained s b no_entry c h = h
through_table-Explained s b nil_lookup c h = h
through_table-Explained s b (reads v) c h = elim (Bool-cases (is_empty b.table)) [
  | inl e ↦ rw e tt
  | inr e ↦ let (tb, f) = c.with_table e in rw (e, f) (from_table-Explained s b tb v f)
]

module _ (show : Value → Bytes) (generated : Bytes → Bytes → Bytes) where
  look-Explained :
      (s : Spec) (m : Message) (b : Binding) (l : Lookup)
      → entry (cut b.lookup).0 s.lookups ≡ some l
      → Explained s b (look show generated s m b.lookup)
  unfolding look
  look-Explained s m b l h = elim (Option-cases l.records) [
    | inl e ↦ rw (look, h, e) (l, h, e)
    | inr (records, e) ↦
        elim (Option-cases (entry (read_string show generated m l.key_alias) records)) [
          | inl f ↦ rw (look, h, e, f) tt
          | inr (of, f) ↦
              rw (look, h, e, f) (reads_some-Explained s b (entry_or_empty (cut b.lookup).1 of))
        ]
  ]

  source_of-Explained :
      (s : Spec) (m : Message) (b : Binding)
      → Checked s b
      → Explained s b (source_of show generated s m b)
  unfolding source_of
  source_of-Explained s m b c = elim (Option-cases b.value) [
    | inr (v, e) ↦ rw e tt
    | inl e ↦ elim (Bool-cases (no_sources b.from)) [
      | inr f ↦ rw (e, f) (read_parts-Explained s b (parts show generated m b.from))
      | inl f ↦ elim (Bool-cases (is_empty b.lookup)) [
        | inr g ↦ let (l, k) = c.with_lookup g in rw (e, f, g) (look-Explained s m b l k)
        | inl g ↦ elim (Bool-cases (is_empty b.generate)) [
          | inl i ↦ rw (e, f, g, i) tt
          | inr i ↦ rw (e, f, g, i) tt
        ]
      ]
    ]
  ]

  value-Explained :
      (s : Spec) (m : Message) (bs : List Binding)
      → All (Checked s) bs
      → All (λ b. Explained s b (value show generated s m b)) bs
  unfolding value
  value-Explained s m [] h = tt
  value-Explained s m (b ∷ bs) h = (
    through_table-Explained s b (source_of show generated s m b) h.0
        (source_of-Explained s m b h.0),
    value-Explained s m bs h.1,
  )

  -- After checks without a problem, on any message a binding reads a text or nothing; if it fails, its
  -- lookup is declared and its records are not loaded, or its table is declared and has no default.
  pub value-check_translation :
      (s : Spec) (t : Translation) (p q : Protocol)
      → t.from_proto ≡ some p
      → t.to_proto ≡ some q
      → check_translation s t ≡ []
      → (m : Message) → All (λ b. Explained s b (value show generated s m b)) t.bindings
  value-check_translation s t p q hp hq h m =
      value-Explained s m t.bindings (check_translation-Checked s t p q hp hq h)
