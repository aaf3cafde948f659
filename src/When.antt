-- ===== src/When.antt =====
-- The `when` expressions of a message specification, pkg/gears/native/iso8583/codec/sdl: their parts
-- (when.go and eval.go). The modules below have the parser and the evaluator, and the rules that are
-- conditioned on expressions (validate.go and resolve.go). A text is its bytes. A data element's number
-- is an int of 64 bits, given by its bit pattern.
pub mod Lexer
pub mod Parser
pub mod Eval
pub mod Advance
pub mod Shape
pub mod Readings
pub mod Operands
pub mod Conditions
pub mod Grammar
pub mod Meaning
pub mod Truth
pub mod Path
pub mod Validator
pub mod Obeyed
pub mod FirstRule
pub mod Compiled
pub mod Resolver
pub mod Loaded
use fluxrig.Prelude.{
  ℕ, Bool, true, false, List, [], ◌∷◌, ◌++◌, Option, none, some, Bytes, equal, codes, ◌||◌,
}

-- The path of an element: its number and the subfields under it, and where it stands in the source.
pub record FieldRef : Type 0 where
  pub de : ℕ
  pub subs : List Bytes
  pub pos : ℕ

-- What an operand evaluates to.
pub record Value : Type 0 where
  pub absent : Bool
  pub is_bool : Bool
  pub b : Bool
  pub s : Bytes
  pub numeric : Bool

abbrev pub bool_value : Bool → Value
bool_value b = record { absent = false; is_bool = true; b = b; s = []; numeric = false }

abbrev pub str_value : Bytes → Value
str_value s = record { absent = false; is_bool = false; b = false; s = s; numeric = false }

abbrev pub absent_value : Value
absent_value = record { absent = true; is_bool = false; b = false; s = []; numeric = false }

mutual
  pub data Node : Type 0 where
    or_node and_node : Nodes → Node
    not_node : Node → Node
    cmp_node : Node → Bytes → Node → Node
    field_node : FieldRef → Bool → Node
    present_node : FieldRef → Node
    mti_node : Node
    lit_node : Value → Node

  pub data Nodes : Type 0 where
    nil : Nodes
    cons : Node → Nodes → Nodes

-- `append` to the alternatives.
unfoldable pub snoc : Nodes → Node → Nodes
snoc nil n = cons n nil
snoc (cons c cs) n = cons c (snoc cs n)

pub record WhenExpr : Type 0 where
  pub refs : List FieldRef
  pub root : Node

-- The locations that a tree reads, from left to right.
unfoldable mutual
  pub reads : Node → List FieldRef
  reads (or_node cs) = reads_all cs
  reads (and_node cs) = reads_all cs
  reads (not_node n) = reads n
  reads (cmp_node l op r) = reads l ++ reads r
  reads (field_node ref numeric) = ref ∷ []
  reads (present_node ref) = ref ∷ []
  reads mti_node = []
  reads (lit_node v) = []

  pub reads_all : Nodes → List FieldRef
  reads_all nil = []
  reads_all (cons c cs) = reads c ++ reads_all cs
