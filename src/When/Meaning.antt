-- ===== src/When/Meaning.antt =====
-- What an expression that `ParseWhen` accepts means: `Eval` and `BindKinds` on it.
use mathlib.Core.Path.{subst}
use fluxrig.Prelude.{
  ◌≤◌, ◌≡◌, ◌≢◌, refl, sym, ap, ◌∙◌, Bool, true, Option, Bytes, All, All-append_inv,
}
use fluxrig.When.{
  FieldRef, Node, Nodes, or_node, and_node, not_node, cmp_node, field_node, present_node, mti_node,
  lit_node, nil, cons, WhenExpr, reads, reads_all,
}
use fluxrig.When.Parser.{ok, no_fuel, parse_when}
use fluxrig.When.Eval.{
  Subject, truth, bind_kinds, bind_all, bind, eval, some_holds, all_hold, holds, field_value,
}
use fluxrig.When.Shape.{IsOperand, IsCondition, AllConditions, height}
use fluxrig.When.Grammar.{Parsed, Whole, parse_when-Whole}

parsed : (src : Bytes) (e : WhenExpr) → parse_when src ≡ ok e → Parsed e
parsed src e h = subst Whole h (parse_when-Whole src)

-- The parser comes to an end on every text: with an expression or with the position of an error, never
-- without fuel.
pub parse_when-total : (src : Bytes) → parse_when src ≢ no_fuel
parse_when-total src h = subst Whole h (parse_when-Whole src)

-- The tree of an expression that is accepted has at most 33 levels, so its evaluation recurs no deeper.
pub height-parse_when : (src : Bytes) (e : WhenExpr) → parse_when src ≡ ok e → height e.root ≤ 33
height-parse_when src e h = (parsed src e h).low

-- The locations that an accepted expression lists are those that its tree reads, in their order.
pub refs-parse_when : (src : Bytes) (e : WhenExpr) → parse_when src ≡ ok e → e.refs ≡ reads e.root
refs-parse_when src e h = (parsed src e h).recorded

mutual
  unfolding bind_kinds

  IsCondition-bind_kinds :
      (k : FieldRef → Bytes) (n : Node) → IsCondition n → IsCondition (bind_kinds k n)
  IsCondition-bind_kinds k (or_node cs) h = AllConditions-bind_all k cs h
  IsCondition-bind_kinds k (and_node cs) h = AllConditions-bind_all k cs h
  IsCondition-bind_kinds k (not_node n) h = IsCondition-bind_kinds k n h
  IsCondition-bind_kinds k (cmp_node l op r) h =
      (IsOperand-bind_kinds k l h.0, h.1, IsOperand-bind_kinds k r h.2)
  IsCondition-bind_kinds k (field_node ref numeric) h = h
  IsCondition-bind_kinds k (present_node ref) h = h
  IsCondition-bind_kinds k mti_node h = h
  IsCondition-bind_kinds k (lit_node v) h = h

  AllConditions-bind_all :
      (k : FieldRef → Bytes) (cs : Nodes) → AllConditions cs → AllConditions (bind_all k cs)
  AllConditions-bind_all k nil h = tt
  AllConditions-bind_all k (cons c cs) h =
      (IsCondition-bind_kinds k c h.0, AllConditions-bind_all k cs h.1)

  IsOperand-bind_kinds :
      (k : FieldRef → Bytes) (n : Node) → IsOperand n → IsOperand (bind_kinds k n)
  IsOperand-bind_kinds k (or_node cs) h = h
  IsOperand-bind_kinds k (and_node cs) h = h
  IsOperand-bind_kinds k (not_node n) h = h
  IsOperand-bind_kinds k (cmp_node l op r) h = h
  IsOperand-bind_kinds k (field_node ref numeric) h = h
  IsOperand-bind_kinds k (present_node ref) h = h
  IsOperand-bind_kinds k mti_node h = h
  IsOperand-bind_kinds k (lit_node v) h = h

mutual
  unfolding bind_kinds reads

  reads-bind_kinds : (k : FieldRef → Bytes) (n : Node) → reads (bind_kinds k n) ≡ reads n
  reads-bind_kinds k (or_node cs) = reads_all-bind_all k cs
  reads-bind_kinds k (and_node cs) = reads_all-bind_all k cs
  reads-bind_kinds k (not_node n) = reads-bind_kinds k n
  reads-bind_kinds k (cmp_node l op r) = rw (reads-bind_kinds k l, reads-bind_kinds k r) refl
  reads-bind_kinds k (field_node ref numeric) = refl
  reads-bind_kinds k (present_node ref) = refl
  reads-bind_kinds k mti_node = refl
  reads-bind_kinds k (lit_node v) = refl

  reads_all-bind_all :
      (k : FieldRef → Bytes) (cs : Nodes) → reads_all (bind_all k cs) ≡ reads_all cs
  reads_all-bind_all k nil = refl
  reads_all-bind_all k (cons c cs) = rw (reads-bind_kinds k c, reads_all-bind_all k cs) refl

pub bind-IsCondition :
    (src : Bytes) (e : WhenExpr)
    → parse_when src ≡ ok e
    → (kind_of : FieldRef → Bytes) → IsCondition (bind kind_of e).root
unfolding bind
bind-IsCondition src e h kind_of =
    IsCondition-bind_kinds kind_of e.root (parsed src e h).is_condition

module _ {Number : Type 0} (read : Bytes → Option Number) (lt le eq : Number → Number → Bool) where
  pub is_bool-eval :
      (m : Subject) (n : Node) → IsCondition n → (eval read lt le eq m n).is_bool ≡ true
  unfolding eval
  is_bool-eval m (or_node cs) h = refl
  is_bool-eval m (and_node cs) h = refl
  is_bool-eval m (not_node n) h = refl
  is_bool-eval m (cmp_node l op r) h = refl
  is_bool-eval m (field_node ref numeric) h = absurd h
  is_bool-eval m (present_node ref) h = refl
  is_bool-eval m mti_node h = absurd h
  is_bool-eval m (lit_node v) h = h

  -- An accepted expression evaluates to a truth value on every message, however its fields are bound to
  -- kinds.
  pub is_bool-eval-parse_when :
      (src : Bytes) (e : WhenExpr)
      → parse_when src ≡ ok e
      → (kind_of : FieldRef → Bytes) (m : Subject)
      → (eval read lt le eq m (bind kind_of e).root).is_bool ≡ true
  is_bool-eval-parse_when src e h kind_of m =
      is_bool-eval m (bind kind_of e).root (bind-IsCondition src e h kind_of)

  -- Two messages carry the same at a path.
  abbrev pub SameAt : Subject → Subject → FieldRef → Type 0
  SameAt m m' ref = m.field ref.de ref.subs ≡ m'.field ref.de ref.subs

  module _ (m m' : Subject) (same_mti : m.mti ≡ m'.mti) where
    mutual
      unfolding eval reads

      eval-SameAt :
          (n : Node)
          → All (SameAt m m') (reads n)
          → eval read lt le eq m n ≡ eval read lt le eq m' n
      eval-SameAt (or_node cs) h = rw (some_holds-SameAt cs h) refl
      eval-SameAt (and_node cs) h = rw (all_hold-SameAt cs h) refl
      eval-SameAt (not_node n) h = rw (eval-SameAt n h) refl
      eval-SameAt (cmp_node l op r) h =
          let (hl, hr) = All-append_inv (SameAt m m') (reads l) (reads r) h in
          rw (eval-SameAt l hl, eval-SameAt r hr) refl
      eval-SameAt (field_node ref numeric) h = ap (field_value read lt le eq numeric) h.0
      eval-SameAt (present_node ref) h = rw (h.0) refl
      eval-SameAt mti_node h = rw same_mti refl
      eval-SameAt (lit_node v) h = refl

      some_holds-SameAt :
          (cs : Nodes)
          → All (SameAt m m') (reads_all cs)
          → some_holds read lt le eq m cs ≡ some_holds read lt le eq m' cs
      some_holds-SameAt nil h = refl
      some_holds-SameAt (cons c cs) h =
          let (hc, hcs) = All-append_inv (SameAt m m') (reads c) (reads_all cs) h in
          rw (eval-SameAt c hc, some_holds-SameAt cs hcs) refl

      all_hold-SameAt :
          (cs : Nodes)
          → All (SameAt m m') (reads_all cs)
          → all_hold read lt le eq m cs ≡ all_hold read lt le eq m' cs
      all_hold-SameAt nil h = refl
      all_hold-SameAt (cons c cs) h =
          let (hc, hcs) = All-append_inv (SameAt m m') (reads c) (reads_all cs) h in
          rw (eval-SameAt c hc, all_hold-SameAt cs hcs) refl

  -- Two messages of one type that carry the same at each location that an accepted expression lists get
  -- the same answer from it, however its fields are bound to kinds.
  pub holds-refs :
      (src : Bytes) (e : WhenExpr)
      → parse_when src ≡ ok e
      → (kind_of : FieldRef → Bytes) (m m' : Subject) → m.mti ≡ m'.mti
      → All (SameAt m m') e.refs
      → holds read lt le eq m (bind kind_of e) ≡ holds read lt le eq m' (bind kind_of e)
  unfolding holds bind
  holds-refs src e h kind_of m m' t a = ap truth (
      eval-SameAt m m' t (bind_kinds kind_of e.root) (
        subst (All (SameAt m m')) (refs-parse_when src e h ∙ sym (reads-bind_kinds kind_of e.root))
          a))
