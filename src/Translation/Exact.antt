-- ===== src/Translation/Exact.antt =====
-- `convertAmount` of amount.go neither loses nor makes money: the numbers that its texts write.
use native.Mathlib.Nat.{pow-succ', mul_assoc}
use fluxrig.Prelude.{
  ℕ, zero, suc, ◌+◌, ◌-◌, ◌*◌, ◌^◌, ◌≤◌, ◌≡◌, refl, sym, ap, ◌∙◌, true, false, not, ◌||◌, [], ◌∷◌,
  ◌++◌, append_assoc, some, Bytes, codes, equal, length, replicate, take, length-append,
  length-replicate, take-append, arith, inl, inr, Bool-cases, ltb,
}
use fluxrig.When.Lexer.{is_all_digits}
use fluxrig.Translation.Currency.{
  Currency, find_currency, trim_left, trim_right, with_last, trim_space,
}
use fluxrig.Translation.Amount.{
  done, Minor, minor, refused, zeros, is_zero, or_zero, digits_or_none, cut, decimal_to_minor,
  padded, convert_amount,
}
use fluxrig.Translation.Digits.{value_from, value, trim_left_split, zeros-append}

value_from-append : (n : ℕ) (s t : Bytes) → value_from n (s ++ t) ≡ value_from (value_from n s) t
value_from-append n [] t = refl
value_from-append n (c ∷ s) t = value_from-append (n * 10 + (c - b'0')) s t

value_from-zeros : (n k : ℕ) → value_from n (zeros k) ≡ n * 10 ^ k
unfolding replicate
value_from-zeros n zero = omega arith
value_from-zeros n (suc k) =
    value_from-zeros (n * 10 + 0) k
    ∙ ap (λ m. m * 10 ^ k) (omega arith)
    ∙ mul_assoc n 10 (10 ^ k)
    ∙ ap (λ x. n * x) (sym (pow-succ' 10 k))

value-trim_left : (s : Bytes) → value (trim_left is_zero s) ≡ value s
value-trim_left s =
    let (n, e) = trim_left_split s in
    sym (
      ap value e
      ∙ value_from-append 0 (zeros n) (trim_left is_zero s)
      ∙ ap (λ v. value_from v (trim_left is_zero s)) (value_from-zeros 0 n ∙ omega arith))

value-or_zero : (s : Bytes) → value (or_zero s) ≡ value s
value-or_zero [] = refl
value-or_zero (c ∷ s) = refl

-- The rest of the text, and zeros behind.
trim_right_split : (s : Bytes) → (n : ℕ) × (s ≡ trim_right is_zero s ++ zeros n)
unfolding trim_right replicate
trim_right_split [] = (0, refl)
trim_right_split (c ∷ s) = let (n, e) = trim_right_split s in last n (trim_right is_zero s) e
  where
    last :
        (n : ℕ) (t : Bytes)
        → s ≡ t ++ zeros n
        → (k : ℕ) × (c ∷ s ≡ with_last is_zero c t ++ zeros k)
    last n (d ∷ t) e = (n, ap (λ x. c ∷ x) e)
    last n [] e = elim (Bool-cases (is_zero c)) [
      | inl z ↦ let at : c ≡ b'0' = ground arith in (suc n, rw (z, at) (ap (λ x. b'0' ∷ x) e))
      | inr z ↦ (n, rw z (ap (λ x. c ∷ x) e))
    ]

-- A text with zeros behind writes a multiple.
value-append-zeros : (s : Bytes) (k : ℕ) → value (s ++ zeros k) ≡ value s * 10 ^ k
value-append-zeros s k = value_from-append 0 s (zeros k) ∙ value_from-zeros (value s) k

-- The digits that `decimalToMinor` keeps behind the point: with zeros behind, they are those it was given.
kept_digits :
    (f : Bytes) (exp : ℕ)
    → length (trim_right is_zero f) ≤ exp
    → take exp (f ++ zeros exp) ++ zeros (length f) ≡ f ++ zeros exp
kept_digits f exp h = let (k, e) = trim_right_split f in from k (trim_right is_zero f) e h
  where
    from :
        (k : ℕ) (t : Bytes)
        → f ≡ t ++ zeros k
        → length t ≤ exp
        → take exp (f ++ zeros exp) ++ zeros (length f) ≡ f ++ zeros exp
    from k t e h =
        let l : length f ≡ length t + k =
          ap length e
          ∙ length-append t (zeros k)
          ∙ ap (λ n. length t + n) (length-replicate {A = ℕ} k b'0') in
        let more : f ++ zeros exp ≡ t ++ zeros (k + exp) =
          ap (λ x. x ++ zeros exp) e
          ∙ append_assoc t (zeros k) (zeros exp)
          ∙ ap (λ x. t ++ x) (sym (zeros-append (k + exp) k exp refl)) in
        let cut_off : t ++ zeros (k + exp) ≡ (t ++ zeros (exp - length t)) ++ zeros (k + length t) =
          ap (λ x. t ++ x) (zeros-append (k + exp) (exp - length t) (k + length t) (omega arith))
          ∙ sym (append_assoc t (zeros (exp - length t)) (zeros (k + length t))) in
        let whole : exp ≡ length (t ++ zeros (exp - length t)) = omega (
          arith,
          length-append t (zeros (exp - length t)),
          length-replicate {A = ℕ} (exp - length t) b'0',
        ) in
        ap (λ x. take exp x ++ zeros (length f)) (more ∙ cut_off)
        ∙ ap (λ x. x ++ zeros (length f))
            (take-append (t ++ zeros (exp - length t)) (zeros (k + length t)) exp whole)
        ∙ ap (λ n. (t ++ zeros (exp - length t)) ++ zeros n) (omega arith)
        ∙ sym (more ∙ cut_off)

decimal_to_minor_exact :
    (dec : Bytes) (exp : ℕ) (m : Bytes)
    → decimal_to_minor dec exp ≡ minor m
    → value m * 10 ^ length (cut dec).1 ≡ value ((cut dec).0 ++ (cut dec).1) * 10 ^ exp
unfolding decimal_to_minor
decimal_to_minor_exact dec exp m h =
    elim (Bool-cases (not (is_all_digits (or_zero w)) || not (digits_or_none f))) [
      | inl e ↦ absurd (differ e)
      | inr e ↦ elim (Bool-cases (ltb exp (length (trim_right is_zero f)))) [
        | inl g ↦ absurd (differ_more e g)
        | inr g ↦
            ap (λ x. value x * 10 ^ length f) (sym (same e g))
            ∙ ap (λ v. v * 10 ^ length f)
                (value-or_zero (trim_left is_zero kept) ∙ value-trim_left kept)
            ∙ sym (value-append-zeros kept (length f))
            ∙ ap value (append_assoc (or_zero w) (take exp (f ++ zeros exp)) (zeros (length f)))
            ∙ ap (λ x. value (or_zero w ++ x)) (kept_digits f exp (ground arith))
            ∙ ap value (sym (append_assoc (or_zero w) f (zeros exp)))
            ∙ value-append-zeros (or_zero w ++ f) exp
            ∙ ap (λ v. v * 10 ^ exp) (leading w)
      ]
    ]
  where
    w : Bytes
    w = (cut dec).0

    f : Bytes
    f = (cut dec).1

    kept : Bytes
    kept = or_zero w ++ take exp (f ++ zeros exp)

    differ : (not (is_all_digits (or_zero w)) || not (digits_or_none f)) ≡ true → ⊥
    differ e = cc

    differ_more :
        (not (is_all_digits (or_zero w)) || not (digits_or_none f)) ≡ false
        → ltb exp (length (trim_right is_zero f)) ≡ true
        → ⊥
    differ_more e g = cc

    same :
        (not (is_all_digits (or_zero w)) || not (digits_or_none f)) ≡ false
        → ltb exp (length (trim_right is_zero f)) ≡ false
        → or_zero (trim_left is_zero kept) ≡ m
    same e g = cc

    leading : (w : Bytes) → value (or_zero w ++ f) ≡ value (w ++ f)
    leading [] = refl
    leading (c ∷ w) = refl

padded_exact :
    (numeric : Bytes) (m : Minor) (r n : Bytes)
    → padded numeric m ≡ done r n
    → (s : Bytes) × (m ≡ minor s) × (n ≡ numeric) × (length r ≡ 12) × (value r ≡ value s)
padded_exact numeric (refused f) r n h = cc
padded_exact numeric (minor s) r n h = elim (Bool-cases (ltb 12 (length s))) [
  | inl e ↦ absurd (differ e)
  | inr e ↦ (
    s,
    refl,
    sym (same_currency e),
    ap length (sym (same_text e))
        ∙ omega (
          arith,
          length-append (zeros (12 - length s)) s,
          length-replicate {A = ℕ} (12 - length s) b'0',
          below e,
        ),
    ap value (sym (same_text e))
        ∙ value_from-append 0 (zeros (12 - length s)) s
        ∙ ap (λ v. value_from v s) (value_from-zeros 0 (12 - length s) ∙ omega arith),
  )
]
  where
    differ : ltb 12 (length s) ≡ true → ⊥
    differ e = cc

    same_text : ltb 12 (length s) ≡ false → zeros (12 - length s) ++ s ≡ r
    same_text e = cc

    same_currency : ltb 12 (length s) ≡ false → numeric ≡ n
    same_currency e = cc

    below : ltb 12 (length s) ≡ false → length s ≤ 12
    below e = ground arith

-- An amount that is converted to anything but ISO 20022 has 12 digits and the numeric code of its
-- currency, and is the decimal amount times ten to the exponent of the currency, with nothing rounded.
pub convert_amount_exact :
    (amount cur kind : Bytes) (c : Currency) (r n : Bytes)
    → find_currency cur ≡ some c
    → equal kind (codes "iso20022") ≡ false
    → convert_amount amount cur kind ≡ done r n
    → let (whole, frac) = cut (trim_space amount) in
      (length r ≡ 12)
      × (n ≡ c.numeric)
      × (value r * 10 ^ length frac ≡ value (whole ++ frac) * 10 ^ c.exponent)
unfolding convert_amount
convert_amount_exact amount cur kind c r n h k d =
    let (s, e, currency, width, same) =
      padded_exact c.numeric (decimal_to_minor (trim_space amount) c.exponent) r n
        (rw (convert_amount, h, k) at d) in
    (
      width,
      currency,
      ap (λ v. v * 10 ^ length (cut (trim_space amount)).1) same
          ∙ decimal_to_minor_exact (trim_space amount) c.exponent s e,
    )
