-- ===== src/Translation/Apply.antt =====
-- A translation at work, translation.go: `Select`, `value` and `Apply`. How a value that is no text
-- prints, and what the clock and the random source give for a kind of generated text and a participant,
-- are parameters. The map of writes is kept in the order of its keys, in which they are written. The
-- findings are not sorted. The protocols are those of a translation that was loaded, which has both.
use fluxrig.Prelude.{
  ltb, ◌==◌, Bool, true, false, not, ◌&&◌, List, [], ◌∷◌, ◌++◌, Option, none, some, Bytes, codes,
  equal, if◌then◌else◌,
}
use fluxrig.Message.{Value, text, binary, obj, other, Message, get}
use fluxrig.Translation.Amount.{Outcome, Fault, cut, convert_amount}
use fluxrig.Translation.Spec.{
  Protocol, Binding, Translation, Table, Spec, entry, is_empty, no_sources,
}

-- The translations whose source message this is.
unfoldable pub matching : Message → List (Bytes × Translation) → List Translation
unfolding equal
matching m [] = []
matching m ((k, t) ∷ ts) =
    let rest = matching m ts in
    elim t.from_proto [
      | none ↦ rest
      | some p ↦ if equal (p.source_message m) t.from then t ∷ rest else rest
    ]

abbrev pub only : List Translation → Option Translation
only (t ∷ []) = some t
only _ = none

-- `Select`; `none` is its error.
unfoldable pub select : Spec → Bytes → Message → Option Translation
unfolding matching entry equal
select s name m =
    if not (is_empty name) && not (equal name (codes "auto"))
    then entry name s.translations
    else only (matching m s.translations)

-- What a binding reads.
pub data Reading : Type 0 where
  reads : Bytes → Reading
  -- There is nothing to write.
  skips : Reading
  not_loaded no_entry nil_lookup : Reading

-- The order of texts.
unfoldable pub before : Bytes → Bytes → Bool
before [] [] = false
before [] (d ∷ t) = true
before (c ∷ s) [] = false
before (c ∷ s) (d ∷ t) = let rest = before s t in if c == d then rest else ltb c d

-- `writes[key] = v`.
unfoldable pub put_write : Bytes → Bytes → List (Bytes × Bytes) → List (Bytes × Bytes)
unfolding equal before
put_write k v [] = (k, v) ∷ []
put_write k v ((j, w) ∷ ws) =
    let rest = put_write k v ws in
    if equal j k then (k, v) ∷ ws else if before k j then (k, v) ∷ (j, w) ∷ ws else (j, w) ∷ rest

-- `strings.Join` by a slash.
abbrev pub join_parts : List Bytes → Bytes
join_parts [] = []
join_parts (p ∷ []) = p
join_parts (p ∷ q ∷ ps) = p ++ (b'/' ∷ join_parts (q ∷ ps))

abbrev pub read_parts : List Bytes → Reading
read_parts [] = skips
read_parts (p ∷ ps) = reads (join_parts (p ∷ ps))

-- The end of `value`: through the table of the binding.
unfoldable pub from_table : Table → Bytes → Reading
unfolding entry
from_table tb v = elim (entry v tb.values) [
  | some out ↦ reads out
  | none ↦ elim tb.fallback [ none ↦ no_entry | some d ↦ reads d ]
]

unfoldable pub through_table : Spec → Bytes → Reading → Reading
unfolding from_table entry
through_table s table (reads v) =
    if is_empty table
    then reads v
    else elim (entry table s.tables) [ none ↦ no_entry | some tb ↦ from_table tb v ]
through_table s table r = r

unfoldable pub entry_or_empty : Bytes → List (Bytes × Bytes) → Bytes
unfolding entry
entry_or_empty k m = elim (entry k m) [ none ↦ [] | some v ↦ v ]

abbrev pub reads_some : Bytes → Reading
reads_some [] = skips
reads_some (c ∷ v) = reads (c ∷ v)

-- What stopped a translation.
pub data Stop : Type 0 where
  bad_value : Bytes → Reading → Stop
  bad_amount : Bytes → Fault → Stop
  bad_write : Bytes → Stop

pub data Collected : Type 0 where
  writes : List (Bytes × Bytes) → Collected
  stopped : Stop → Collected

module _ (show : Value → Bytes) (generated : Bytes → Bytes → Bytes) where
  -- `readString`.
  unfoldable pub read_string : Message → Bytes → Bytes
  unfolding get
  read_string m key = elim (get key m) [
    | none ↦ []
    | some v ↦ elim v [
      | text s ↦ s
      | obj fs ↦ []
      | binary s ↦ show (binary s)
      | other n ↦ show (other n)
    ]
  ]

  abbrev pub parts : Message → List Bytes → List Bytes
  parts m [] = []
  parts m (f ∷ fs) = if is_empty (read_string m f) then parts m fs else read_string m f ∷ parts m fs

  unfoldable pub look : Spec → Message → Bytes → Reading
  unfolding entry cut read_string entry_or_empty
  look s m name = elim (entry (cut name).0 s.lookups) [
    | none ↦ nil_lookup
    | some l ↦ elim l.records [
      | none ↦ not_loaded
      | some records ↦ elim (entry (read_string m l.key_alias) records) [
        | none ↦ skips
        | some record_of ↦ reads_some (entry_or_empty (cut name).1 record_of)
      ]
    ]
  ]

  -- The switch of `value`.
  unfoldable pub source_of : Spec → Message → Binding → Reading
  unfolding look read_string
  source_of s m b = elim b.value [
    | some v ↦ reads v
    | none ↦
        if not (no_sources b.from)
        then read_parts (parts m b.from)
        else if not (is_empty b.lookup)
        then look s m b.lookup
        else if not (is_empty b.generate)
        then reads (generated s.participant_id b.generate)
        else reads []
  ]

  -- `value`.
  unfoldable pub value : Spec → Message → Binding → Reading
  unfolding source_of through_table
  value s m b = through_table s b.table (source_of s m b)

  -- The writes of one binding.
  abbrev pub put_amount : Option Bytes → Bytes → Outcome → List (Bytes × Bytes) → Collected
  put_amount alias to (Outcome.failed f) ws = stopped (bad_amount to f)
  put_amount none to (Outcome.done a cur) ws = writes (put_write to a ws)
  put_amount (some ca) to (Outcome.done a cur) ws = writes (put_write to a (put_write ca cur ws))

  abbrev pub put_value :
      Translation → Protocol → Message → Binding → Reading → List (Bytes × Bytes) → Collected
  put_value t q m b (reads v) ws =
      if equal b.format (codes "amount")
      then put_amount (q.currency_alias t.to b.to) b.to
          (convert_amount v (read_string m b.currency) q.kind) ws
      else writes (put_write b.to v ws)
  put_value t q m b skips ws = writes ws
  put_value t q m b r ws = stopped (bad_value b.to r)

  -- The loop over the bindings.
  unfoldable pub collect :
      Spec → Translation → Protocol → Message → List Binding → List (Bytes × Bytes) → Collected
  unfolding value convert_amount equal put_write read_string
  collect s t q m [] ws = writes ws
  collect s t q m (b ∷ bs) ws = elim (put_value t q m b (value s m b) ws) [
    | stopped e ↦ stopped e
    | writes ws' ↦ collect s t q m bs ws'
  ]
