-- ===== src/Translation/Digits.antt =====
-- Texts of digits: their value, their zeros and the points between them.
use fluxrig.Prelude.{
  ℕ, zero, suc, ◌+◌, ◌-◌, ◌*◌, ◌≤◌, ◌≡◌, refl, sym, ap, ◌∙◌, true, false, ◌&&◌, [], ◌∷◌, ◌++◌,
  Bytes, length, take, drop, replicate, arith, inl, inr, Bool-cases, ◌==◌,
}
use fluxrig.When.Lexer.{all_digits}
use fluxrig.Translation.Currency.{trim_left, trim_right, with_last}
use fluxrig.Translation.Amount.{zeros, is_zero, cut}

-- The number that digits write, behind a number read before.
abbrev pub value_from : ℕ → Bytes → ℕ
value_from n [] = n
value_from n (c ∷ s) = value_from (n * 10 + (c - b'0')) s

abbrev pub value : Bytes → ℕ
value s = value_from 0 s

pub all_digits-append : (s t : Bytes) → all_digits (s ++ t) ≡ all_digits s && all_digits t
all_digits-append [] t = refl
all_digits-append (c ∷ s) t = let u = all_digits-append s t in ground (arith, u)

pub all_digits-zeros : (n : ℕ) → all_digits (zeros n) ≡ true
unfolding replicate
all_digits-zeros zero = refl
all_digits-zeros (suc n) = all_digits-zeros n

pub all_digits-take : (n : ℕ) (s : Bytes) → all_digits s ≡ true → all_digits (take n s) ≡ true
all_digits-take zero s h = refl
all_digits-take (suc n) [] h = refl
all_digits-take (suc n) (c ∷ s) h = ground (arith, all_digits-take n s)

pub all_digits-drop : (n : ℕ) (s : Bytes) → all_digits s ≡ true → all_digits (drop n s) ≡ true
all_digits-drop zero s h = h
all_digits-drop (suc n) [] h = refl
all_digits-drop (suc n) (c ∷ s) h = all_digits-drop n s (ground arith)

-- Zeros in front, and the rest of the text.
pub trim_left_split : (s : Bytes) → (n : ℕ) × (s ≡ zeros n ++ trim_left is_zero s)
unfolding trim_left replicate
trim_left_split [] = (0, refl)
trim_left_split (c ∷ s) = elim (Bool-cases (is_zero c)) [
  | inl e ↦
      let (n, h) = trim_left_split s in
      let here : c ≡ b'0' = ground arith in (suc n, rw (e, here) (ap (λ t. b'0' ∷ t) h))
  | inr e ↦ (0, rw e refl)
]

pub all_digits-trim_left :
    (s : Bytes) → all_digits s ≡ true → all_digits (trim_left is_zero s) ≡ true
unfolding trim_left
all_digits-trim_left [] h = refl
all_digits-trim_left (c ∷ s) h = ground (arith, all_digits-trim_left s)

pub trim_left-zeros : (n : ℕ) (s : Bytes) → trim_left is_zero (zeros n ++ s) ≡ trim_left is_zero s
unfolding trim_left replicate
trim_left-zeros zero s = refl
trim_left-zeros (suc n) s = trim_left-zeros n s

pub trim_left_twice : (s : Bytes) → trim_left is_zero (trim_left is_zero s) ≡ trim_left is_zero s
trim_left_twice s =
    let (n, h) = trim_left_split s in
    sym (ap (trim_left is_zero) h ∙ trim_left-zeros n (trim_left is_zero s))

pub length-trim_left : (s : Bytes) → length (trim_left is_zero s) ≤ length s
unfolding trim_left
length-trim_left [] = omega arith
length-trim_left (c ∷ s) = ground (arith, length-trim_left s)

pub length-trim_right : (s : Bytes) → length (trim_right is_zero s) ≤ length s
unfolding trim_right
length-trim_right [] = omega arith
length-trim_right (c ∷ s) = shorter (trim_right is_zero s) (length-trim_right s)
  where
    shorter : (t : Bytes) → length t ≤ length s → length (with_last is_zero c t) ≤ suc (length s)
    shorter [] h = ground arith
    shorter (d ∷ t) h = omega arith

pub zeros-append : (k m n : ℕ) → k ≡ m + n → zeros k ≡ zeros m ++ zeros n
unfolding replicate
zeros-append k zero n h = ap zeros (omega arith)
zeros-append k (suc m) n h =
    let at : k ≡ suc (k - 1) = omega arith in
    ap zeros at ∙ ap (λ t. b'0' ∷ t) (zeros-append (k - 1) m n (omega arith))

-- The first point of a text.
pub cut_at : (s t : Bytes) → all_digits s ≡ true → cut (s ++ (b'.' ∷ t)) ≡ (s, t)
unfolding cut
cut_at [] t h = refl
cut_at (c ∷ s) t h =
    let e : (c == b'.') ≡ false = ground arith in rw (e, cut_at s t (ground arith)) refl

pub cut_digits : (s : Bytes) → all_digits s ≡ true → cut s ≡ (s, [])
unfolding cut
cut_digits [] h = refl
cut_digits (c ∷ s) h =
    let e : (c == b'.') ≡ false = ground arith in rw (e, cut_digits s (ground arith)) refl
