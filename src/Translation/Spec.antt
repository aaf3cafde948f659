-- ===== src/Translation/Spec.antt =====
-- A translation spec, translation.go and protocol.go: what it holds, as maps that are lists of their
-- entries, and the checks of `Load` on one translation. A protocol's methods are those of the
-- interface `Protocol`; `none` is a nil one.
use Prim.Native.String.{String}
use fluxrig.Prelude.{
  ℕ, ◌+◌, Bool, true, false, not, ◌&&◌, ◌||◌, List, [], ◌∷◌, ◌++◌, Option, none, some, Bytes, codes,
  equal, length, ◌==◌, if◌then◌else◌,
}
use fluxrig.Message.{Message}
use fluxrig.Translation.Amount.{cut}

pub record Required : Type 0 where
  pub alias : Bytes
  pub path : Bytes

-- `Protocol`.
pub record Protocol : Type 0 where
  pub id : Bytes
  pub version : Bytes
  pub kind : Bytes
  pub has_message : Bytes → Bool
  pub has_alias : Bytes → Bytes → Bool
  pub currency_alias : Bytes → Bytes → Option Bytes
  pub required : Bytes → List Required
  pub source_message : Message → Bytes
  pub set_message : Bytes → Message → Message

pub record Binding : Type 0 where
  pub to : Bytes
  pub from : List Bytes
  pub value : Option Bytes
  pub lookup : Bytes
  pub generate : Bytes
  pub table : Bytes
  pub format : Bytes
  pub currency : Bytes

pub record Translation : Type 0 where
  pub name : Bytes
  pub from_spec : Bytes
  pub from : Bytes
  pub to_spec : Bytes
  pub to : Bytes
  pub bindings : List Binding
  pub from_proto : Option Protocol
  pub to_proto : Option Protocol

pub record Table : Type 0 where
  pub values : List (Bytes × Bytes)
  pub fallback : Option Bytes

pub record Lookup : Type 0 where
  pub key_spec : Bytes
  pub key_alias : Bytes
  pub fields : List Bytes
  pub records : Option (List (Bytes × List (Bytes × Bytes)))

pub record Spec : Type 0 where
  pub id : Bytes
  pub version : Bytes
  pub hash : Bytes
  pub participant_id : Bytes
  pub translations : List (Bytes × Translation)
  pub tables : List (Bytes × Table)
  pub lookups : List (Bytes × Lookup)

-- `m[key]`.
unfoldable pub entry {ℓ} : {A : Type ℓ} → Bytes → List (Bytes × A) → Option A
unfolding equal
entry key [] = none
entry key ((k, a) ∷ m) = if equal k key then some a else entry key m

unfoldable pub contains : List Bytes → Bytes → Bool
unfolding equal
contains [] s = false
contains (x ∷ l) s = if equal x s then true else contains l s

abbrev pub is_empty : Bytes → Bool
is_empty [] = true
is_empty (c ∷ s) = false

-- What is wrong with a translation, or with a binding.
pub data Problem : Type 0 where
  no_spec no_message no_to twice unknown_alias lookup_undeclared lookup_field lookup_key : Problem
  participant generator kinds table_undeclared stray_currency amount_currency currency_field
        format :
      Problem

abbrev pub unless : Bool → Problem → List Problem
unless true p = []
unless false p = p ∷ []

abbrev pub one_of : List String → Bytes → Bool
one_of [] s = false
one_of (w ∷ ws) s = equal s (codes w) || one_of ws s

-- `checkTranslation` on the sources of a binding, and on its lookup.
abbrev pub check_sources : Protocol → Bytes → List Bytes → List Problem
check_sources p message [] = []
check_sources p message (f ∷ fs) =
    unless (p.has_alias message f) unknown_alias ++ check_sources p message fs

-- `strings.Cut`, and whether there was a point.
unfoldable pub has_point : Bytes → Bool
has_point [] = false
has_point (c ∷ s) = c == b'.' || has_point s

unfoldable pub check_lookup : Spec → Translation → Protocol → Bytes → List Problem
unfolding entry contains has_point cut equal
check_lookup s t p text =
    let (name, field) = cut text in
    elim (entry name s.lookups) [
      | none ↦ lookup_undeclared ∷ []
      | some l ↦
          if not (has_point text)
          then lookup_undeclared ∷ []
          else if not (contains l.fields field)
          then lookup_field ∷ []
          else unless (equal l.key_spec t.from_spec && p.has_alias t.from l.key_alias) lookup_key
    ]

unfoldable pub check_generate : Spec → Protocol → Bytes → List Problem
unfolding equal
check_generate s p kind =
    if one_of ("now" ∷ "today" ∷ "uuid" ∷ []) kind
    then []
    else if equal kind (codes "instr_id")
    then unless (equal p.kind (codes "iso20022") && not (is_empty s.participant_id)) participant
    else generator ∷ []

abbrev pub is_given : Option Bytes → Bool
is_given none = false
is_given (some v) = true

abbrev pub is_some_table : Option Table → Bool
is_some_table none = false
is_some_table (some t) = true

abbrev pub no_sources : List Bytes → Bool
no_sources [] = true
no_sources (f ∷ fs) = false

abbrev pub count : Bool → ℕ
count true = 1
count false = 0

-- How many of from, value, lookup and generate a binding has.
unfoldable pub sources : Binding → ℕ
sources b =
    count (not (no_sources b.from))
    + count (is_given b.value)
    + count (not (is_empty b.lookup))
    + count (not (is_empty b.generate))

unfoldable pub check_format : Translation → Protocol → Protocol → Binding → List Problem
unfolding equal
check_format t p q b =
    if is_empty b.format
    then unless (is_empty b.currency) stray_currency
    else if equal b.format (codes "amount")
    then (if not (length b.from == 1) || is_empty b.currency
        then amount_currency ∷ []
        else unless (p.has_alias t.from b.currency) unknown_alias)
      ++ unless (is_given (q.currency_alias t.to b.to)) currency_field
    else format ∷ []

-- The checks of a binding that names its target, given the targets before it.
unfoldable pub check_named :
    Spec → Translation → Protocol → Protocol → List Bytes → Binding → List Problem
unfolding check_lookup check_generate sources check_format contains entry
check_named s t p q seen b =
    unless (not (contains seen b.to)) twice
    ++ unless (q.has_alias t.to b.to) unknown_alias
    ++ check_sources p t.from b.from
    ++ (if is_empty b.lookup then [] else check_lookup s t p b.lookup)
    ++ (if is_empty b.generate then [] else check_generate s q b.generate)
    ++ unless (sources b == 1) kinds
    ++ (if is_empty b.table
        then []
        else unless (is_some_table (entry b.table s.tables)) table_undeclared)
    ++ check_format t p q b

unfoldable pub check_binding :
    Spec → Translation → Protocol → Protocol → List Bytes → Binding → List Problem
unfolding check_named
check_binding s t p q seen b = if is_empty b.to then no_to ∷ [] else check_named s t p q seen b

-- The loop over the bindings.
unfoldable pub check_bindings :
    Spec → Translation → Protocol → Protocol → List Bytes → List Binding → List Problem
unfolding check_binding
check_bindings s t p q seen [] = []
check_bindings s t p q seen (b ∷ bs) =
    check_binding s t p q seen b
    ++ check_bindings s t p q (if is_empty b.to then seen else b.to ∷ seen) bs

abbrev pub check_side : Option Protocol → Bytes → List Problem
check_side none message = no_spec ∷ []
check_side (some p) message = unless (p.has_message message) no_message

-- `checkTranslation`.
unfoldable pub check_translation : Spec → Translation → List Problem
unfolding check_bindings
check_translation s t =
    check_side t.from_proto t.from ++ check_side t.to_proto t.to ++ elim t.from_proto [
      | none ↦ []
      | some p ↦ elim t.to_proto [ none ↦ [] | some q ↦ check_bindings s t p q [] t.bindings ]
    ]
