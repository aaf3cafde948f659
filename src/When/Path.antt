-- ===== src/When/Path.antt =====
-- The path of an element as text, `FieldRef.String` of when.go, and `parsePath` on it.
use mathlib.Core.Path.{subst}
use fluxrig.Prelude.{
  ℕ, zero, suc, ◌+◌, ◌*◌, ◌-◌, ◌/◌, ◌%◌, ◌^◌, ◌<◌, ◌≡◌, refl, ap, ◌∙◌, Bool, true, false, not, ◌&&◌,
  List, [], ◌∷◌, ◌++◌, some, Bytes, decimal, decimal_loop, All, arith, ltb, ◌==◌, Bool-cases, inl,
  inr, if_both, Option-cases,
}
use fluxrig.Message.{split, on_first}
use fluxrig.When.{FieldRef}
use fluxrig.When.Lexer.{is_digit}
use fluxrig.When.Parser.{read_number, parse_path, path_parts, no_segment_empty}

-- `strings.Join` of the segments behind the number, each with its dot.
abbrev pub dotted : List Bytes → Bytes
dotted [] = []
dotted (s ∷ ss) = b'.' ∷ (s ++ dotted ss)

-- `String`, for a number below 2 ^ 63; the int of a larger one is negative.
unfoldable pub render : FieldRef → Bytes
unfolding decimal
render r = decimal r.de ++ dotted r.subs

abbrev no_dot : Bytes → Bool
no_dot [] = true
no_dot (c ∷ s) = not (c == b'.') && no_dot s

-- A segment that a path can hold.
abbrev pub IsSegment : Bytes → Type 0
IsSegment [] = ⊥
IsSegment (c ∷ s) = no_dot (c ∷ s) ≡ true

split-dotted :
    (s : Bytes) (ss : List Bytes)
    → no_dot s ≡ true
    → All IsSegment ss
    → split (s ++ dotted ss) ≡ s ∷ ss
unfolding split
split-dotted [] [] h a = refl
split-dotted [] ([] ∷ ss) h a = absurd a.0
split-dotted [] ((c ∷ t) ∷ ss) h a = ap (λ x. [] ∷ x) (split-dotted (c ∷ t) ss a.0 a.1)
split-dotted (c ∷ s) ss h a =
    let e : (c == b'.') ≡ false = ground arith in rw (e, split-dotted s ss (ground arith) a) refl

digit-within : (d : ℕ) → d < 10 → is_digit (b'0' + d) ≡ true
digit-within d h = ground arith

wraps : (n : ℕ) → (n / 10 % 2 ^ 64 * 10 + n % 10) % 2 ^ 64 ≡ n % 2 ^ 64
wraps n = omega arith

-- The digits of a number in front of a text, read from nothing.
read_number-decimal_loop :
    (fuel n : ℕ) (out : Bytes)
    → n < fuel
    → read_number 0 (decimal_loop fuel n out) ≡ read_number (n % 2 ^ 64) out
unfolding decimal_loop read_number
read_number-decimal_loop zero n out h = absurd (omega arith)
read_number-decimal_loop (suc fuel) n out h = elim (Bool-cases (ltb n 10)) [
  | inl e ↦ let short : n < 10 = ground arith in rw (e, digit-within n short, last short) refl
  | inr e ↦
      rw
        (
          e,
          read_number-decimal_loop fuel (n / 10) ((b'0' + n % 10) ∷ out) (ground arith),
          digit-within (n % 10) (omega arith),
          step,
        )
        refl
]
  where
    last : n < 10 → (0 * 10 + (b'0' + n - b'0')) % 2 ^ 64 ≡ n % 2 ^ 64
    last short = omega arith

    step : (n / 10 % 2 ^ 64 * 10 + (b'0' + n % 10 - b'0')) % 2 ^ 64 ≡ n % 2 ^ 64
    step = omega (arith, wraps n)

no_dot-decimal_loop :
    (fuel n : ℕ) (out : Bytes) → no_dot out ≡ true → no_dot (decimal_loop fuel n out) ≡ true
unfolding decimal_loop
no_dot-decimal_loop zero n out h = h
no_dot-decimal_loop (suc fuel) n out h = elim (Bool-cases (ltb n 10)) [
  | inl e ↦ rw e (ground arith)
  | inr e ↦ rw e (no_dot-decimal_loop fuel (n / 10) ((b'0' + n % 10) ∷ out) (ground arith))
]

decimal_loop-cons :
    (fuel n d : ℕ) (out : Bytes) → (c : ℕ) × (s : Bytes) × (decimal_loop fuel n (d ∷ out) ≡ c ∷ s)
unfolding decimal_loop
decimal_loop-cons zero n d out = (d, out, refl)
decimal_loop-cons (suc fuel) n d out = elim (Bool-cases (ltb n 10)) [
  | inl e ↦ (b'0' + n, d ∷ out, rw e refl)
  | inr e ↦
      let (c, s, k) = decimal_loop-cons fuel (n / 10) (b'0' + n % 10) (d ∷ out) in
      (c, s, rw (e, k) refl)
]

decimal-cons : (n : ℕ) → (c : ℕ) × (s : Bytes) × (decimal n ≡ c ∷ s)
unfolding decimal decimal_loop
decimal-cons n = elim (Bool-cases (ltb n 10)) [
  | inl e ↦ (b'0' + n, [], rw e refl)
  | inr e ↦
      let (c, s, k) = decimal_loop-cons n (n / 10) (b'0' + n % 10) [] in (c, s, rw (e, k) refl)
]

no_segment_empty-All : (ss : List Bytes) → All IsSegment ss → no_segment_empty ss ≡ true
no_segment_empty-All [] a = refl
no_segment_empty-All ([] ∷ ss) a = absurd a.0
no_segment_empty-All ((c ∷ s) ∷ ss) a = no_segment_empty-All ss a.1

path_parts-some :
    (text : Bytes) (ss : List Bytes) (pos de : ℕ)
    → ((c : ℕ) × (s : Bytes) × (text ≡ c ∷ s))
    → read_number 0 text ≡ some de
    → All IsSegment ss
    → path_parts (text ∷ ss) pos ≡ some (record { de = de; subs = ss; pos = pos })
path_parts-some [] ss pos de (c, s, e) h a = cc
path_parts-some (c ∷ s) ss pos de e h a = rw (path_parts, h, no_segment_empty-All ss a) refl

read_number-decimal : (n : ℕ) → read_number 0 (decimal n) ≡ some (n % 2 ^ 64)
unfolding decimal read_number
read_number-decimal n = read_number-decimal_loop (suc n) n [] (omega arith)

-- A path is read back from its text with its number modulo 2 ^ 64.
pub parse_path-render :
    (r : FieldRef)
    → All IsSegment r.subs
    → parse_path (render r) r.pos ≡ some (record r { de = r.de % 2 ^ 64 })
unfolding parse_path render
parse_path-render r a =
    ap (λ ss. path_parts ss r.pos)
      (split-dotted (decimal r.de) r.subs
        (unfold decimal in no_dot-decimal_loop (suc r.de) r.de [] refl) a)
    ∙ path_parts-some (decimal r.de) r.subs r.pos (r.de % 2 ^ 64) (decimal-cons r.de)
        (read_number-decimal r.de) a

split-no_dot : (s : Bytes) → All (λ t. no_dot t ≡ true) (split s)
unfolding split
split-no_dot [] = (refl, tt)
split-no_dot (c ∷ s) =
    if_both (All (λ t. no_dot t ≡ true)) (c == b'.') (λ h. (refl, split-no_dot s))
      λ h. first (split s) (split-no_dot s) h
  where
    first :
        (ts : List Bytes)
        → All (λ t. no_dot t ≡ true) ts
        → (c == b'.') ≡ false
        → All (λ t. no_dot t ≡ true) (on_first c ts)
    first [] a h = (rw h refl, tt)
    first (t ∷ ts) a h = (rw h a.0, a.1)

All-IsSegment :
    (ss : List Bytes)
    → All (λ t. no_dot t ≡ true) ss
    → no_segment_empty ss ≡ true
    → All IsSegment ss
All-IsSegment [] a h = tt
All-IsSegment ([] ∷ ss) a h = cc
All-IsSegment ((c ∷ s) ∷ ss) a h = (a.0, All-IsSegment ss a.1 h)

read_number_below : (s : Bytes) (de n : ℕ) → de < 2 ^ 64 → read_number de s ≡ some n → n < 2 ^ 64
unfolding read_number
read_number_below [] de n h e = ground arith
read_number_below (c ∷ s) de n h e = elim (Bool-cases (is_digit c)) [
  | inl d ↦ read_number_below s ((de * 10 + (c - b'0')) % 2 ^ 64) n (omega arith) (ground arith)
  | inr d ↦ ground arith
]

-- What `parsePath` accepts.
record IsPath (pos : ℕ) (r : FieldRef) : Type 0 where
  number : r.de < 2 ^ 64
  segments : All IsSegment r.subs
  place : r.pos ≡ pos

path_parts-IsPath :
    (ss : List Bytes) (pos : ℕ) (r : FieldRef)
    → All (λ t. no_dot t ≡ true) ss
    → path_parts ss pos ≡ some r
    → IsPath pos r
path_parts-IsPath [] pos r a h = cc
path_parts-IsPath ([] ∷ ss) pos r a h = cc
path_parts-IsPath ((c ∷ s) ∷ ss) pos r a h = elim (Option-cases (read_number 0 (c ∷ s))) [
  | inl e ↦ ground arith
  | inr (de, e) ↦ elim (Bool-cases (no_segment_empty ss)) [
    | inr f ↦ ground arith
    | inl f ↦ record {
      number = read_number_below (c ∷ s) 0 r.de (omega arith) (ground arith);
      segments = subst (All IsSegment) (ground arith) (All-IsSegment ss a.1 f);
      place = ground arith;
    }
  ]
]

-- A path that was read, with a number below 2 ^ 63, is read back from the text that `String` gives it.
pub parse_path-render-parse_path :
    (text : Bytes) (pos : ℕ) (r : FieldRef)
    → parse_path text pos ≡ some r
    → r.de < 2 ^ 63
    → parse_path (render r) pos ≡ some r
parse_path-render-parse_path text pos r h small =
    let p : IsPath pos r =
      unfold parse_path in path_parts-IsPath (split text) pos r (split-no_dot text) h in
    let same : r.de % 2 ^ 64 ≡ r.de = omega arith in
    subst (λ at. parse_path (render r) at ≡ some r) p.place
      (parse_path-render r p.segments ∙ ap (λ de. some (record r { de = de })) same)
