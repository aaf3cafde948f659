-- ===== src/When/Eval.antt =====
-- The evaluator, eval.go. How the text of a value reads as a float, with its blanks trimmed, and how
-- floats compare are parameters. A comparison by `>` is one by `<` the other way round.
use fluxrig.Prelude.{
  ℕ, Bool, true, false, not, ◌&&◌, ◌||◌, List, Option, none, some, Bytes, equal, if◌then◌else◌,
}
use fluxrig.When.{
  FieldRef, Value, bool_value, str_value, absent_value, Node, Nodes, or_node, and_node, not_node,
  cmp_node, field_node, present_node, mti_node, lit_node, nil, cons, WhenExpr,
}
use fluxrig.When.Parser.{is_word}

-- One message: its type, and the value at a path, if it carries one.
pub record Subject : Type 0 where
  pub mti : Bytes
  pub field : ℕ → List Bytes → Option Bytes

unfoldable pub truth : Value → Bool
truth v = v.is_bool && v.b

-- `comparesNumerically`.
unfoldable pub compares_numerically : Bytes → Bool
unfolding equal
compares_numerically kind =
    is_word "amount" kind
    || (is_word "date" kind
        || (is_word "time" kind || (is_word "datetime" kind || is_word "numeric" kind)))

-- `BindKinds`.
unfoldable mutual
  pub bind_kinds : (FieldRef → Bytes) → Node → Node
  bind_kinds kind_of (or_node cs) = or_node (bind_all kind_of cs)
  bind_kinds kind_of (and_node cs) = and_node (bind_all kind_of cs)
  bind_kinds kind_of (not_node n) = not_node (bind_kinds kind_of n)
  bind_kinds kind_of (cmp_node l op r) = cmp_node (bind_kinds kind_of l) op (bind_kinds kind_of r)
  bind_kinds kind_of (field_node ref numeric) = field_node ref (compares_numerically (kind_of ref))
  bind_kinds kind_of (present_node ref) = present_node ref
  bind_kinds kind_of mti_node = mti_node
  bind_kinds kind_of (lit_node v) = lit_node v

  pub bind_all : (FieldRef → Bytes) → Nodes → Nodes
  bind_all kind_of nil = nil
  bind_all kind_of (cons c cs) = cons (bind_kinds kind_of c) (bind_all kind_of cs)

-- `BindKinds` of an expression.
unfoldable pub bind : (FieldRef → Bytes) → WhenExpr → WhenExpr
unfolding bind_kinds
bind kind_of e = record e { root = bind_kinds kind_of e.root }

abbrev pub same_bool : Bool → Bool → Bool
same_bool true b = b
same_bool false b = not b

abbrev pub is_present : Option Bytes → Bool
is_present none = false
is_present (some s) = true

module _ {Number : Type 0} (read : Bytes → Option Number) (lt le eq : Number → Number → Bool) where
  -- `asNumber`.
  unfoldable pub as_number : Value → Option Number
  as_number v = if v.is_bool || v.absent then none else read v.s

  abbrev pub both : (Number → Number → Bool) → Option Number → Option Number → Bool
  both test none r = false
  both test (some l) none = false
  both test (some l) (some r) = test l r

  -- Equality of two values that are there.
  unfoldable pub same_value : Value → Value → Bool
  unfolding as_number equal
  same_value l r =
      if l.is_bool || r.is_bool
      then l.is_bool && (r.is_bool && same_bool l.b r.b)
      else if l.numeric || r.numeric
      then both eq (as_number l) (as_number r)
      else equal l.s r.s

  unfoldable pub compare_values : Bytes → Value → Value → Bool
  unfolding same_value as_number equal
  compare_values op l r =
      if l.absent || r.absent
      then false
      else if is_word "==" op
      then same_value l r
      else if is_word "!=" op
      then not (same_value l r)
      else if is_word "<" op
      then both lt (as_number l) (as_number r)
      else if is_word "<=" op
      then both le (as_number l) (as_number r)
      else if is_word ">" op
      then both lt (as_number r) (as_number l)
      else if is_word ">=" op
      then both le (as_number r) (as_number l)
      else false

  abbrev pub field_value : Bool → Option Bytes → Value
  field_value numeric none = absent_value
  field_value numeric (some s) = record (str_value s) { numeric = numeric }

  -- `eval`. A node of several stops at the first that decides it.
  unfoldable mutual
    unfolding truth compare_values

    pub eval : Subject → Node → Value
    eval m (or_node cs) = bool_value (some_holds m cs)
    eval m (and_node cs) = bool_value (all_hold m cs)
    eval m (not_node n) = bool_value (not (truth (eval m n)))
    eval m (cmp_node l op r) = bool_value (compare_values op (eval m l) (eval m r))
    eval m (field_node ref numeric) = field_value numeric (m.field ref.de ref.subs)
    eval m (present_node ref) = bool_value (is_present (m.field ref.de ref.subs))
    eval m mti_node = str_value m.mti
    eval m (lit_node v) = v

    pub some_holds : Subject → Nodes → Bool
    some_holds m nil = false
    some_holds m (cons c cs) = if truth (eval m c) then true else some_holds m cs

    pub all_hold : Subject → Nodes → Bool
    all_hold m nil = true
    all_hold m (cons c cs) = if truth (eval m c) then all_hold m cs else false

  -- `Eval`.
  unfoldable pub holds : Subject → WhenExpr → Bool
  unfolding truth eval
  holds m e = truth (eval m e.root)
