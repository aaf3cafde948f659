-- ===== src/When/Parser.antt =====
-- The parser of when.go. The levels left are 33 less the depth that the source counts, so an expression
-- that nests deeper than 32 levels meets none. The loops over `||` and `&&` take fuel, which never runs
-- out. An error is the position of the first one.
use Prim.Native.String.{String}
use fluxrig.Prelude.{
  ℕ, zero, suc, ◌+◌, ◌*◌, ◌-◌, ◌%◌, ◌^◌, Bool, true, false, ◌&&◌, ◌||◌, List, [], ◌∷◌, ◌++◌, Option,
  none, some, Bytes, codes, equal, length, if◌then◌else◌, ◌==◌,
}
use fluxrig.Message.{split}
use fluxrig.When.{
  FieldRef, bool_value, str_value, Node, Nodes, or_node, and_node, not_node, cmp_node, field_node,
  present_node, mti_node, lit_node, nil, cons, snoc, WhenExpr,
}
use fluxrig.When.Lexer.{
  Kind, eof, ident, string, number, op, and_op, or_op, not_op, left, right, Parser, token, next,
  is_digit,
}

pub data Result {ℓ} (A : Type ℓ) : Type ℓ where
  ok : A → Result A
  error : ℕ → Result A
  no_fuel : Result A

-- A parser reads a value and leaves the state behind it.
abbrev pub Parse {ℓ} : Type ℓ → Type ℓ
Parse A = Parser → Result (A × Parser)

-- `errAt`.
abbrev pub error_at {ℓ} : {A : Type ℓ} → ℕ → Parser → Result A
error_at at p = elim p.err [ none ↦ error at | some e ↦ error e ]

module _ {ℓ κ} {A : Type ℓ} {B : Type κ} where
  infixl 1 ◌>>=◌
  abbrev pub ◌>>=◌ : Parse A → (A → Parse B) → Parse B
  ◌>>=◌ m f p = elim (m p) [ ok r ↦ f r.0 r.1 | error at ↦ error at | no_fuel ↦ no_fuel ]

abbrev pub pure {ℓ} : {A : Type ℓ} → A → Parse A
pure a p = ok (a, p)

abbrev pub is_kind : Kind → Kind → Bool
is_kind eof eof = true
is_kind ident ident = true
is_kind string string = true
is_kind number number = true
is_kind op op = true
is_kind and_op and_op = true
is_kind or_op or_op = true
is_kind not_op not_op = true
is_kind left left = true
is_kind right right = true
is_kind _ _ = false

abbrev pub at_kind : Kind → Parser → Bool
at_kind k p = is_kind p.tok.kind k

-- The loop over the digits; an int wraps.
unfoldable pub read_number : ℕ → Bytes → Option ℕ
read_number de [] = some de
read_number de (c ∷ s) =
    let rest = read_number ((de * 10 + (c - b'0')) % 2 ^ 64) s in if is_digit c then rest else none

abbrev pub no_segment_empty : List Bytes → Bool
no_segment_empty [] = true
no_segment_empty ([] ∷ ss) = false
no_segment_empty ((c ∷ s) ∷ ss) = no_segment_empty ss

-- `parsePath`; `none` is its error.
abbrev pub path_parts : List Bytes → ℕ → Option FieldRef
path_parts [] pos = none
path_parts ([] ∷ ss) pos = none
path_parts ((c ∷ s) ∷ ss) pos = elim (read_number 0 (c ∷ s)) [
  | none ↦ none
  | some de ↦ if no_segment_empty ss then some (record { de = de; subs = ss; pos = pos }) else none
]

unfoldable pub parse_path : Bytes → ℕ → Option FieldRef
unfolding split read_number
parse_path text pos = path_parts (split text) pos

-- `unquote`, for a text with its first quote off.
abbrev pub without_last_quote : Bytes → Option Bytes
without_last_quote [] = none
without_last_quote (c ∷ []) = if c == b'\'' then some [] else none
without_last_quote (c ∷ d ∷ s) = elim (without_last_quote (d ∷ s)) [
  | none ↦ none
  | some t ↦ some (c ∷ t)
]

unfoldable pub unquote : Bytes → Bytes
unquote [] = []
unquote (c ∷ s) =
    if c == b'\'' then elim (without_last_quote s) [ none ↦ c ∷ s | some t ↦ t ] else c ∷ s

-- The end of `parseCall`, behind the path.
unfoldable pub close_call : Bool → FieldRef → Parse Node
close_call presence ref p =
    if at_kind right p
    then ok (if presence then present_node ref else field_node ref false, next p)
    else error_at p.tok.pos p

-- `parseCall`, behind the parenthesis.
unfoldable pub call_path : Bool → Parse Node
unfolding parse_path close_call
call_path presence p =
    if at_kind ident p || at_kind number p
    then elim (parse_path p.tok.text p.tok.pos) [
      | none ↦ error_at p.tok.pos p
      | some ref ↦ close_call presence ref (next (record p { refs = p.refs ++ (ref ∷ []) }))
    ]
    else error_at p.tok.pos p

unfoldable pub open_call : Bool → Parse Node
unfolding call_path
open_call presence p = if at_kind left p then call_path presence (next p) else error_at p.tok.pos p

unfoldable pub parse_call : Bool → Parse Node
unfolding open_call
parse_call presence p = open_call presence (next p)

abbrev pub is_word : String → Bytes → Bool
is_word w text = equal text (codes w)

-- `parseOperand`.
unfoldable pub name_operand : Bytes → Parse Node
unfolding parse_call
name_operand text p =
    if is_word "field" text
    then parse_call false p
    else if is_word "present" text
    then parse_call true p
    else if is_word "mti" text
    then ok (mti_node, next p)
    else if is_word "true" text || is_word "false" text
    then ok (lit_node (bool_value (is_word "true" text)), next p)
    else error_at p.tok.pos p

unfoldable pub operand_of : Kind → Parse Node
unfolding name_operand unquote
operand_of ident p = name_operand p.tok.text p
operand_of string p = ok (lit_node (str_value (unquote p.tok.text)), next p)
operand_of number p = ok (lit_node (str_value (unquote p.tok.text)), next p)
operand_of _ p = error_at p.tok.pos p

unfoldable pub parse_operand : Parse Node
unfolding operand_of
parse_operand p = operand_of p.tok.kind p

-- An operator and the operand behind it, to the left operand.
unfoldable pub compare_with : Node → Parse Node
unfolding parse_operand
compare_with lhs p = elim (parse_operand (next p)) [
  | ok r ↦ ok (cmp_node lhs p.tok.text r.0, r.1)
  | error at ↦ error at
  | no_fuel ↦ no_fuel
]

-- A condition on its own, or the left side of a comparison.
unfoldable pub condition_or_compare : Node → Parse Node
unfolding compare_with
condition_or_compare lhs p = if at_kind op p then compare_with lhs p else ok (lhs, p)

-- What is no condition on its own; `start` is where it began.
unfoldable pub must_compare : ℕ → Node → Parse Node
unfolding compare_with
must_compare start lhs p = if at_kind op p then compare_with lhs p else error_at start p

-- `parsePrimary` at anything but a parenthesis.
unfoldable pub parse_condition : Parse Node
unfolding parse_call condition_or_compare parse_operand must_compare
parse_condition p =
    if at_kind ident p && is_word "present" p.tok.text
    then (parse_call true >>= condition_or_compare) p
    else if at_kind ident p && (is_word "true" p.tok.text || is_word "false" p.tok.text)
    then condition_or_compare (lit_node (bool_value (is_word "true" p.tok.text))) (next p)
    else (parse_operand >>= must_compare p.tok.pos) p

abbrev pub single : (Nodes → Node) → Nodes → Node
single many (cons n nil) = n
single many ns = many ns

-- The loop over an operator: the nodes so far, and one more behind each operator.
unfoldable pub more : ℕ → Kind → Parse Node → Nodes → Parse Nodes
unfolding snoc
more zero k parse ns p = no_fuel
more (suc fuel) k parse ns p =
    if at_kind k p
    then elim (parse (next p)) [
      | ok r ↦ more fuel k parse (snoc ns r.0) r.1
      | error at ↦ error at
      | no_fuel ↦ no_fuel
    ]
    else ok (ns, p)

-- Two steps for each character left are enough.
abbrev pub rounds : Parser → ℕ
rounds p = suc (suc (length p.rest))

unfoldable pub parse_many : (Nodes → Node) → Kind → Parse Node → Parse Node
unfolding more
parse_many many k parse p = elim (parse p) [
  | error at ↦ error at
  | no_fuel ↦ no_fuel
  | ok r ↦ elim (more (rounds r.1) k parse (cons r.0 nil) r.1) [
    | ok q ↦ ok (single many q.0, q.1)
    | error at ↦ error at
    | no_fuel ↦ no_fuel
  ]
]

unfoldable pub closing : Node → Parse Node
closing n p = if at_kind right p then ok (n, next p) else error_at p.tok.pos p

unfoldable mutual
  unfolding parse_many closing parse_condition

  pub parse_expr : ℕ → Parse Node
  parse_expr zero p = error_at p.tok.pos p
  parse_expr (suc levels) p = parse_many or_node or_op (parse_and levels) p

  pub parse_and : ℕ → Parse Node
  parse_and zero p = error_at p.tok.pos p
  parse_and (suc levels) p = parse_many and_node and_op (parse_not levels) p

  pub parse_not : ℕ → Parse Node
  parse_not zero p = error_at p.tok.pos p
  parse_not (suc levels) p =
      let negated = (parse_not levels >>= λ n. pure (not_node n)) (next p) in
      let primary = parse_primary levels p in if at_kind not_op p then negated else primary

  pub parse_primary : ℕ → Parse Node
  parse_primary zero p = error_at p.tok.pos p
  parse_primary (suc levels) p =
      let inner = (parse_expr levels >>= closing) (next p) in
      if at_kind left p then inner else parse_condition p

abbrev pub max_levels : ℕ
max_levels = 33

abbrev pub at_start : Bytes → Parser
at_start src = record { rest = src; pos = 0; tok = token eof [] 0; refs = []; err = none }

-- The end of `ParseWhen`.
unfoldable pub finish : Node → Parser → Result WhenExpr
finish root p = elim p.err [
  | some e ↦ error e
  | none ↦ if at_kind eof p then ok (record { refs = p.refs; root = root }) else error p.tok.pos
]

unfoldable pub parse_when : Bytes → Result WhenExpr
unfolding parse_expr finish
parse_when src = elim (parse_expr max_levels (next (at_start src))) [
  | ok r ↦ finish r.0 r.1
  | error at ↦ error at
  | no_fuel ↦ no_fuel
]
