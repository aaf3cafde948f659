-- ===== src/When/Shape.antt =====
-- The shape of an expression that was parsed.
use Prim.Native.Nat.{max}
use fluxrig.Prelude.{ℕ, suc, ◌≤◌, ◌≡◌, true, ◌++◌, append-nil, append_assoc, arith, ap, sym, ◌∙◌}
use fluxrig.When.{
  Node, Nodes, or_node, and_node, not_node, cmp_node, field_node, present_node, mti_node, lit_node,
  nil, cons, snoc, reads, reads_all,
}
use fluxrig.When.Advance.{is_operator}

-- What may stand at a side of a comparison.
abbrev pub IsOperand : Node → Type 0
IsOperand (field_node ref numeric) = Unit
IsOperand (present_node ref) = Unit
IsOperand mti_node = Unit
IsOperand (lit_node v) = Unit
IsOperand _ = ⊥

-- What may stand where a condition is wanted: no text, number or field on its own, at any depth.
abbrev mutual
  pub IsCondition : Node → Type 0
  IsCondition (or_node cs) = AllConditions cs
  IsCondition (and_node cs) = AllConditions cs
  IsCondition (not_node n) = IsCondition n
  IsCondition (cmp_node l op r) = IsOperand l × (is_operator op ≡ true) × IsOperand r
  IsCondition (field_node ref numeric) = ⊥
  IsCondition (present_node ref) = Unit
  IsCondition mti_node = ⊥
  IsCondition (lit_node v) = v.is_bool ≡ true

  pub AllConditions : Nodes → Type 0
  AllConditions nil = Unit
  AllConditions (cons c cs) = IsCondition c × AllConditions cs

-- How deep a tree is; its evaluation recurs as often.
abbrev mutual
  pub height : Node → ℕ
  height (or_node cs) = suc (height_all cs)
  height (and_node cs) = suc (height_all cs)
  height (not_node n) = suc (height n)
  height (cmp_node l op r) = suc (max (height l) (height r))
  height (field_node ref numeric) = 1
  height (present_node ref) = 1
  height mti_node = 1
  height (lit_node v) = 1

  pub height_all : Nodes → ℕ
  height_all nil = 0
  height_all (cons c cs) = max (height c) (height_all cs)

pub height-IsOperand : (n : Node) → IsOperand n → height n ≤ 1
height-IsOperand (or_node cs) h = absurd h
height-IsOperand (and_node cs) h = absurd h
height-IsOperand (not_node n) h = absurd h
height-IsOperand (cmp_node l op r) h = absurd h
height-IsOperand (field_node ref numeric) h = omega arith
height-IsOperand (present_node ref) h = omega arith
height-IsOperand mti_node h = omega arith
height-IsOperand (lit_node v) h = omega arith

pub AllConditions-snoc :
    (ns : Nodes) (n : Node) → AllConditions ns → IsCondition n → AllConditions (snoc ns n)
unfolding snoc
AllConditions-snoc nil n v w = (w, tt)
AllConditions-snoc (cons c cs) n (x, v) w = (x, AllConditions-snoc cs n v w)

pub height-snoc :
    (ns : Nodes) (n : Node) (b : ℕ) → height_all ns ≤ b → height n ≤ b → height_all (snoc ns n) ≤ b
unfolding snoc
height-snoc nil n b h k = omega arith
height-snoc (cons c cs) n b h k = omega (arith, height-snoc cs n b (omega arith) k)

pub reads-snoc : (ns : Nodes) (n : Node) → reads_all (snoc ns n) ≡ reads_all ns ++ reads n
unfolding snoc reads
reads-snoc nil n = append-nil (reads n)
reads-snoc (cons c cs) n =
    ap (λ r. reads c ++ r) (reads-snoc cs n) ∙ sym (append_assoc (reads c) (reads_all cs) (reads n))
