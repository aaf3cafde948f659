-- ===== src/Translation/RoundTrip.antt =====
-- What `convertAmount` of amount.go keeps of an amount.
use fluxrig.Prelude.{
  ℕ, suc, ◌+◌, ◌-◌, ◌≤◌, ◌<◌, ◌≡◌, refl, sym, ap, ◌∙◌, true, false, [], ◌∷◌, ◌++◌, append-nil,
  append_assoc, some, Bytes, codes, equal, length, replicate, length-append, length-replicate,
  arith, ltb,
}
use fluxrig.When.Lexer.{all_digits, is_all_digits}
use fluxrig.Translation.Currency.{Currency, find_currency, trim_left}
use fluxrig.Translation.Amount.{
  done, minor, zeros, is_zero, or_zero, minor_to_decimal, padded, convert_amount,
}
use fluxrig.Translation.Digits.{trim_left_split, zeros-append}
use fluxrig.Translation.Exchange.{
  plain-all_digits, trim_space-plain, find_currency_alpha, decimal_to_minor-minor_to_decimal,
  plain-minor_to_decimal,
}

all_digits_of : (s : Bytes) → is_all_digits s ≡ true → all_digits s ≡ true
all_digits_of [] h = refl
all_digits_of (c ∷ s) h = h

some_digit : (s : Bytes) → is_all_digits s ≡ true → 0 < length s
some_digit [] h = cc
some_digit (c ∷ s) h = omega arith

-- The zeros that are trimmed and those that are put in front make up a width.
refill :
    (w : ℕ) (s : Bytes)
    → 0 < length s
    → length s ≤ w
    → (length (or_zero (trim_left is_zero s)) ≤ w)
      × (zeros (w - length (or_zero (trim_left is_zero s))) ++ or_zero (trim_left is_zero s)
          ≡ zeros (w - length s) ++ s)
unfolding replicate
refill w s l h = let (n, e) = trim_left_split s in fill n (trim_left is_zero s) e
  where
    width : (n : ℕ) (m : Bytes) → s ≡ zeros n ++ m → length s ≡ n + length m
    width n m e =
        ap length e ∙ length-append (zeros n) m ∙ ap (λ k. k + length m) (length-replicate n b'0')

    fill :
        (n : ℕ) (m : Bytes)
        → s ≡ zeros n ++ m
        → (length (or_zero m) ≤ w)
          × (zeros (w - length (or_zero m)) ++ or_zero m ≡ zeros (w - length s) ++ s)
    fill n [] e =
        let k = width n [] e in
        (
          omega arith,
          sym (zeros-append w (w - 1) 1 (omega arith))
              ∙ zeros-append w (w - length s) n (omega arith)
              ∙ ap (λ t. zeros (w - length s) ++ t) (sym (append-nil (zeros n)) ∙ sym e),
        )
    fill n (c ∷ m) e =
        let k = width n (c ∷ m) e in
        (
          omega arith,
          ap (λ z. z ++ (c ∷ m)) (zeros-append (w - suc (length m)) (w - length s) n (omega arith))
              ∙ append_assoc (zeros (w - length s)) (zeros n) (c ∷ m)
              ∙ ap (λ t. zeros (w - length s) ++ t) (sym e),
        )

padded-minor :
    (numeric s : Bytes)
    → 0 < length s
    → length s ≤ 12
    → padded numeric (minor (or_zero (trim_left is_zero s)))
      ≡ done (zeros (12 - length s) ++ s) numeric
padded-minor numeric s l h =
    let (short, same) = refill 12 s l h in
    let fits : ltb 12 (length (or_zero (trim_left is_zero s))) ≡ false = ground (arith, short) in
    rw fits (ap (λ t. done t numeric) same)

-- An amount of at most 12 digits in minor units, in a currency that is known, is converted to ISO 20022,
-- and what comes out is converted back to the amount, with zeros up to 12 digits, and to the numeric
-- code of the currency.
pub convert_amount-convert_amount :
    (amount cur : Bytes) (c : Currency)
    → find_currency cur ≡ some c
    → is_all_digits amount ≡ true
    → length amount ≤ 12
    → (d : Bytes) × (convert_amount amount cur (codes "iso20022") ≡ done d c.alpha)
      × (convert_amount d c.alpha (codes "iso8583")
          ≡ done (zeros (12 - length amount) ++ amount) c.numeric)
unfolding convert_amount equal
convert_amount-convert_amount amount cur c h d l =
    let digits = all_digits_of amount d in
    let out : Bytes = minor_to_decimal amount c.exponent in
    (
      out,
      rw (convert_amount, h, trim_space-plain amount (plain-all_digits amount digits), d) refl,
      rw
          (
            convert_amount,
            find_currency_alpha cur c h,
            trim_space-plain out (plain-minor_to_decimal amount c.exponent digits),
            decimal_to_minor-minor_to_decimal amount c.exponent digits,
          )
          (padded-minor c.numeric amount (some_digit amount d) l),
    )
