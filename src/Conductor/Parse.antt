-- ===== src/Conductor/Parse.antt =====
-- `parseDest` of pkg/gears/native/conductor/tree.go and `parseRoutes` of route.go, on the value that
-- a scenario's document holds at that place. The texts of errors are left out. Each node takes the
-- next free cell for its counter.
pub mod Shape
use fluxrig.Prelude.{
  ℕ, zero, suc, ◌+◌, Bool, true, false, not, List, [], ◌∷◌, ◌++◌, Option, none, some, Bytes, codes,
  equal, has_prefix, if◌then◌else◌,
}
use fluxrig.Conductor.Tree.{
  Kind, failover, round_robin, least_loaded, Dest, leaf, node, Forest, nil, cons, leaves_all,
  leaves, contains_least_loaded,
}

-- The values of a document; `other` is a number, a boolean or nil.
mutual
  pub data Value : Type 0 where
    str : Bytes → Value
    obj : Entries → Value
    arr : Items → Value
    other : Value

  pub data Entries : Type 0 where
    end : Entries
    entry : Bytes → Value → Entries → Entries

  pub data Items : Type 0 where
    last : Items
    item : Value → Items → Items

unfoldable pub kind_of : Bytes → Option Kind
unfolding equal
kind_of name =
    if equal name (codes "failover")
    then some failover
    else if equal name (codes "round_robin")
    then some round_robin
    else if equal name (codes "least_loaded")
    then some least_loaded
    else none

-- A node whose leaf ports are cached.
unfoldable pub make_node : Kind → Forest → ℕ → Dest
unfolding leaves_all leaves
make_node k cs cell = node k cs (leaves_all cs []) cell

abbrev pub node_with : Kind → ℕ → Option (Forest × ℕ) → Option (Dest × ℕ)
node_with k cell none = none
node_with k cell (some (cs, next)) = some (make_node k cs cell, next)

abbrev pub cons_with : Dest → Option (Forest × ℕ) → Option (Forest × ℕ)
cons_with d none = none
cons_with d (some (cs, next)) = some (cons d cs, next)

abbrev pub is_end : Entries → Bool
is_end end = true
is_end (entry name v es) = false

abbrev pub is_last : Items → Bool
is_last last = true
is_last (item v cs) = false

-- `parseDest`, from the next free cell.
unfoldable mutual
  unfolding has_prefix

  pub parse_dest : Value → ℕ → Option (Dest × ℕ)
  parse_dest (str s) cell = if not (has_prefix s (codes "out")) then none else some (leaf s, cell)
  parse_dest (obj es) cell = parse_strategy es cell
  parse_dest (arr items) cell = none
  parse_dest other cell = none

  -- `case map[string]any`: one key, and its value.
  pub parse_strategy : Entries → ℕ → Option (Dest × ℕ)
  parse_strategy end cell = none
  parse_strategy (entry name v es) cell =
      let sole = parse_children v (kind_of name) cell in
      elim (is_end es) [ true ↦ sole | false ↦ none ]

  -- The value must be a list that is not empty.
  pub parse_children : Value → Option Kind → ℕ → Option (Dest × ℕ)
  parse_children (str s) kind cell = none
  parse_children (obj es) kind cell = none
  parse_children other kind cell = none
  parse_children (arr cs) kind cell = elim kind [
    | none ↦ none
    | some k ↦ elim (is_last cs) [
      | true ↦ none
      | false ↦ node_with k cell (parse_items cs (cell + 1))
    ]
  ]

  -- The loop over the children.
  pub parse_items : Items → ℕ → Option (Forest × ℕ)
  parse_items last cell = some (nil, cell)
  parse_items (item c cs) cell = elim (parse_dest c cell) [
    | none ↦ none
    | some (d, cell') ↦ cons_with d (parse_items cs cell')
  ]
