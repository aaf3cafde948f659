-- ===== src/Conductor/Parse/Shape.antt =====
-- The trees that `parseDest` builds.
use fluxrig.Prelude.{
  ℕ, ◌+◌, ◌<◌, ◌≡◌, refl, sym, ap, ◌∙◌, Bool, true, false, List, [], ◌∷◌, ◌++◌, append_assoc,
  append-nil, Option, none, some, Bytes, codes, has_prefix, arith, inl, inr, Bool-cases,
}
use fluxrig.Conductor.Tree.{
  Kind, Dest, leaf, node, Forest, nil, cons, leaves, leaves_all, size, Selection, any_available,
  available_under,
}
use fluxrig.Conductor.Tree.Choice.{ports, ports_all}
use fluxrig.Conductor.Parse.{
  Value, str, obj, arr, other, Entries, end, entry, Items, last, item, kind_of, make_node,
  node_with, cons_with, parse_dest, parse_items, is_end, is_last, parse_strategy, parse_children,
}

-- Leaves are output ports, nodes have a child, and what a node has cached are its leaf ports.
abbrev mutual
  pub IsTree : Dest → Type 0
  IsTree (leaf p) = has_prefix p (codes "out") ≡ true
  IsTree (node k cs cached cell) = (cached ≡ ports_all cs) × (0 < size cs) × IsForest cs

  pub IsForest : Forest → Type 0
  IsForest nil = Unit
  IsForest (cons c cs) = IsTree c × IsForest cs

mutual
  unfolding leaves leaves_all

  appended : (d : Dest) (out : List Bytes) → IsTree d → leaves d out ≡ out ++ ports d
  appended (leaf p) out v = refl
  appended (node k cs [] cell) out v = all_appended cs out v.2
  appended (node k cs (c ∷ cached) cell) out v = ap (λ l. out ++ l) v.0

  all_appended :
      (cs : Forest) (out : List Bytes) → IsForest cs → leaves_all cs out ≡ out ++ ports_all cs
  all_appended nil out v = sym (append-nil out)
  all_appended (cons c cs) out (vc, v) =
      all_appended cs (leaves c out) v
      ∙ ap (λ l. l ++ ports_all cs) (appended c out vc)
      ∙ append_assoc out (ports c) (ports_all cs)

pub leaves-ports : (d : Dest) → IsTree d → leaves d [] ≡ ports d
leaves-ports d v = appended d [] v

make_node-IsTree :
    (k : Kind) (cs : Forest) (cell : ℕ) → IsForest cs → 0 < size cs → IsTree (make_node k cs cell)
unfolding make_node
make_node-IsTree k cs cell v h = (all_appended cs [] v, h, v)

abbrev Parsed : Option (Dest × ℕ) → Type 0
Parsed none = Unit
Parsed (some (d, next)) = IsTree d

-- The parse of a list, which has a child if the flag is not set.
abbrev ParsedAll : Bool → Option (Forest × ℕ) → Type 0
ParsedAll nothing none = Unit
ParsedAll true (some (cs, next)) = IsForest cs
ParsedAll false (some (cs, next)) = (0 < size cs) × IsForest cs

node_with-Parsed :
    (k : Kind) (cell : ℕ) (r : Option (Forest × ℕ))
    → ParsedAll false r
    → Parsed (node_with k cell r)
node_with-Parsed k cell none v = tt
node_with-Parsed k cell (some (cs, next)) v = make_node-IsTree k cs cell v.1 v.0

forget : (b : Bool) (r : Option (Forest × ℕ)) → ParsedAll b r → ParsedAll true r
forget true none v = tt
forget true (some (cs, next)) v = v
forget false none v = tt
forget false (some (cs, next)) v = v.1

cons_with-ParsedAll :
    (d : Dest) (r : Option (Forest × ℕ))
    → IsTree d
    → ParsedAll true r
    → ParsedAll false (cons_with d r)
cons_with-ParsedAll d none t v = tt
cons_with-ParsedAll d (some (cs, next)) t v = (omega arith, (t, v))

item-Parsed :
    (first : Option (Dest × ℕ)) (rest : ℕ → Option (Forest × ℕ))
    → Parsed first
    → ((cell : ℕ) → ParsedAll true (rest cell))
    → ParsedAll false (elim first as (λ _. Option (Forest × ℕ)) [
      | none ↦ none
      | some (d, cell') ↦ cons_with d (rest cell')
    ])
item-Parsed none rest t v = tt
item-Parsed (some (d, cell')) rest t v = cons_with-ParsedAll d (rest cell') t (v cell')

sole-Parsed :
    (b : Bool) (r : Option (Dest × ℕ))
    → Parsed r
    → Parsed (elim b as (λ _. Option (Dest × ℕ)) [ true ↦ r | false ↦ none ])
sole-Parsed true r v = v
sole-Parsed false r v = tt

children-Parsed :
    (kind : Option Kind) (cell : ℕ) (b : Bool) (r : Option (Forest × ℕ))
    → ParsedAll b r
    → Parsed (elim kind as (λ _. Option (Dest × ℕ)) [
      | none ↦ none
      | some k ↦ elim b as (λ _. Option (Dest × ℕ)) [ true ↦ none | false ↦ node_with k cell r ]
    ])
children-Parsed none cell b r v = tt
children-Parsed (some k) cell true r v = tt
children-Parsed (some k) cell false r v = node_with-Parsed k cell r v

mutual
  unfolding parse_dest parse_strategy parse_children parse_items

  parsed : (v : Value) (cell : ℕ) → Parsed (parse_dest v cell)
  parsed (str s) cell = elim (Bool-cases (has_prefix s (codes "out"))) [
    | inl e ↦ rw e e
    | inr e ↦ rw e tt
  ]
  parsed (obj es) cell = strategy-Parsed es cell
  parsed (arr items) cell = tt
  parsed other cell = tt

  strategy-Parsed : (es : Entries) (cell : ℕ) → Parsed (parse_strategy es cell)
  strategy-Parsed end cell = tt
  strategy-Parsed (entry name v es) cell =
      sole-Parsed (is_end es) _ (all-Parsed v (kind_of name) cell)

  all-Parsed : (v : Value) (kind : Option Kind) (cell : ℕ) → Parsed (parse_children v kind cell)
  all-Parsed (str s) kind cell = tt
  all-Parsed (obj es) kind cell = tt
  all-Parsed other kind cell = tt
  all-Parsed (arr cs) kind cell =
      children-Parsed kind cell (is_last cs) _ (items_parsed cs (cell + 1))

  items_parsed : (cs : Items) (cell : ℕ) → ParsedAll (is_last cs) (parse_items cs cell)
  items_parsed last cell = tt
  items_parsed (item c cs) cell =
      item-Parsed (parse_dest c cell) (parse_items cs) (parsed c cell)
        (λ cell'. forget (is_last cs) (parse_items cs cell') (items_parsed cs cell'))

-- Every tree that `parseDest` accepts is well formed: each leaf is named as an output port, each
-- node has a child, and what it has cached are the ports of the leaves beneath it, in order.
pub parse_dest-IsTree :
    (v : Value) (cell : ℕ) {d : Dest} {next : ℕ} → parse_dest v cell ≡ some (d, next) → IsTree d
parse_dest-IsTree v cell h = rw h at (parsed v cell)

-- So the two questions that `pick` asks about a whole subtree, of its cached ports, are about its
-- leaves.
available_under-ports :
    (sel : Selection) (d : Dest) → IsTree d → available_under sel d ≡ any_available sel (ports d)
unfolding available_under any_available
available_under-ports sel (leaf p) v = ground arith
available_under-ports sel (node k cs cached cell) v = ap (any_available sel) v.0
