-- ===== src/Translation/Exchange.antt =====
-- An amount that goes to ISO 20022 and comes back, by `convertAmount` of amount.go.
use mathlib.Core.Path.{subst}
use fluxrig.Prelude.{
  ℕ, ◌+◌, ◌-◌, ◌≤◌, ◌<◌, ◌≡◌, refl, ap, ◌∙◌, Bool, true, false, ◌&&◌, ◌||◌, List, [], ◌∷◌, ◌++◌,
  append-nil, some, Bytes, equal, All, length, take, drop, length-append, length-replicate,
  length-take, length-drop, take-append, take-append-drop, arith, inl, inr, Bool-cases, ◌==◌, leb,
  ltb,
}
use fluxrig.When.Lexer.{is_digit, all_digits, is_all_digits}
use fluxrig.Translation.Currency.{
  Currency, currencies, upper, trim_left, trim_right, with_last, trim_space, is_blank, find_code,
  find_currency,
}
use fluxrig.Translation.Amount.{
  minor, zeros, is_zero, cut, or_zero, digits_or_none, at_least, with_point, minor_to_decimal,
  decimal_to_minor,
}
use fluxrig.Translation.Digits.{
  all_digits-append, all_digits-zeros, all_digits-take, all_digits-drop, all_digits-trim_left,
  trim_left-zeros, trim_left_twice, length-trim_right, cut_at, cut_digits,
}

-- A digit or a point.
abbrev pub is_plain : ℕ → Bool
is_plain c = is_digit c || c == b'.'

abbrev pub plain : Bytes → Bool
plain [] = true
plain (c ∷ s) = is_plain c && plain s

plain-append : (s t : Bytes) → plain (s ++ t) ≡ plain s && plain t
plain-append [] t = refl
plain-append (c ∷ s) t = let u = plain-append s t in ground (arith, u)

pub plain-all_digits : (s : Bytes) → all_digits s ≡ true → plain s ≡ true
plain-all_digits [] h = refl
plain-all_digits (c ∷ s) h = let u = plain-all_digits s in ground (arith, u)

trim_right-plain : (s : Bytes) → plain s ≡ true → trim_right is_blank s ≡ s
unfolding trim_right
trim_right-plain [] h = refl
trim_right-plain (c ∷ s) h = ap (with_last is_blank c) (trim_right-plain s (ground arith)) ∙ last s
  where
    last : (t : Bytes) → with_last is_blank c t ≡ c ∷ t
    last [] = ground arith
    last (d ∷ t) = refl

pub trim_space-plain : (s : Bytes) → plain s ≡ true → trim_space s ≡ s
unfolding trim_space trim_left trim_right
trim_space-plain [] h = refl
trim_space-plain (c ∷ s) h =
    let e : is_blank c ≡ false = ground arith in rw e (trim_right-plain (c ∷ s) h)

-- Each currency is found by its alphabetic code.
alpha_found : All (λ c. find_currency c.alpha ≡ some c) currencies
unfolding find_currency equal
alpha_found = (
  refl,
  (
    refl,
    (
      refl,
      (
        refl,
        (
          refl,
          (
            refl,
            (
              refl,
              (
                refl,
                (
                  refl,
                  (
                    refl,
                    (
                      refl,
                      (
                        refl,
                        (
                          refl,
                          (
                            refl,
                            (
                              refl,
                              (
                                refl,
                                (
                                  refl,
                                  (
                                    refl,
                                    (
                                      refl,
                                      (
                                        refl,
                                        (
                                          refl,
                                          (
                                            refl,
                                            (
                                              refl,
                                              (
                                                refl,
                                                (
                                                  refl,
                                                  (
                                                    refl,
                                                    (
                                                      refl,
                                                      (refl, (refl, (refl, (refl, (refl, tt))))),
                                                    ),
                                                  ),
                                                ),
                                              ),
                                            ),
                                          ),
                                        ),
                                      ),
                                    ),
                                  ),
                                ),
                              ),
                            ),
                          ),
                        ),
                      ),
                    ),
                  ),
                ),
              ),
            ),
          ),
        ),
      ),
    ),
  ),
)

found-All :
    (P : Currency → Type 0) (code : Bytes) (cs : List Currency) (c : Currency)
    → All P cs
    → find_code code cs ≡ some c
    → P c
unfolding find_code
found-All P code [] c a h = cc
found-All P code (d ∷ cs) c a h = elim (Bool-cases (equal d.alpha code || equal d.numeric code)) [
  | inl e ↦ let at : d ≡ c = ground arith in subst P at a.0
  | inr e ↦ found-All P code cs c a.1 (ground arith)
]

pub find_currency_alpha :
    (code : Bytes) (c : Currency) → find_currency code ≡ some c → find_currency c.alpha ≡ some c
find_currency_alpha code c h =
    found-All (λ d. find_currency d.alpha ≡ some d) (upper (trim_space code)) currencies c
      alpha_found (unfold find_currency in h)

pub is_all_digits_of : (s : Bytes) → 0 < length s → all_digits s ≡ true → is_all_digits s ≡ true
is_all_digits_of [] l h = absurd (omega arith)
is_all_digits_of (c ∷ s) l h = h

digits_or_none_of : (s : Bytes) → all_digits s ≡ true → digits_or_none s ≡ true
digits_or_none_of [] h = refl
digits_or_none_of (c ∷ s) h = h

or_zero_of : (s : Bytes) → 0 < length s → or_zero s ≡ s
or_zero_of [] l = absurd (omega arith)
or_zero_of (c ∷ s) l = refl

-- A decimal with few enough digits behind its point.
pub decimal_to_minor_cut :
    (dec a b : Bytes) (exp : ℕ)
    → cut dec ≡ (a, b)
    → 0 < length a
    → all_digits a ≡ true
    → all_digits b ≡ true
    → length b ≤ exp
    → decimal_to_minor dec exp
      ≡ minor (or_zero (trim_left is_zero (a ++ take exp (b ++ zeros exp))))
unfolding decimal_to_minor
decimal_to_minor_cut dec a b exp c l ha hb h =
    let few : ltb exp (length (trim_right is_zero b)) ≡ false =
      (let u = length-trim_right b in ground (arith, u)) in
    rw (c, or_zero_of a l, is_all_digits_of a l ha, digits_or_none_of b hb, few) refl

decimal_to_minor-with_point :
    (exp : ℕ) (p : Bytes)
    → exp < length p
    → all_digits p ≡ true
    → decimal_to_minor (with_point exp p) exp ≡ minor (or_zero (trim_left is_zero p))
unfolding with_point
decimal_to_minor-with_point exp p h d = elim (Bool-cases (exp == 0)) [
  | inl e ↦
      let none_behind : exp ≡ 0 = ground arith in
      rw (e) (
        decimal_to_minor_cut p p [] exp (cut_digits p d) (omega arith) d refl (omega arith)
        ∙ ap (λ n. minor (or_zero (trim_left is_zero (p ++ take n (zeros exp))))) none_behind
        ∙ ap (λ s. minor (or_zero (trim_left is_zero s))) (append-nil p))
  | inr e ↦
      let n : ℕ = length p - exp in
      let behind : length (drop n p) ≡ exp = omega (arith, length-drop n p) in
      rw (e) (
        decimal_to_minor_cut (take n p ++ (b'.' ∷ drop n p)) (take n p) (drop n p) exp
          (cut_at (take n p) (drop n p) (all_digits-take n p d)) (omega (arith, length-take n p))
          (all_digits-take n p d) (all_digits-drop n p d) (omega arith)
        ∙ ap (λ s. minor (or_zero (trim_left is_zero (take n p ++ s))))
            (take-append (drop n p) (zeros exp) exp (omega arith))
        ∙ ap (λ s. minor (or_zero (trim_left is_zero s))) (take-append-drop n p))
]

-- What `minorToDecimal` pads is long enough and writes the same.
record Padded (exp : ℕ) (m p : Bytes) : Type 0 where
  long : exp < length p
  digits : all_digits p ≡ true
  same : trim_left is_zero p ≡ trim_left is_zero m

at_least-Padded : (exp : ℕ) (m : Bytes) → all_digits m ≡ true → Padded exp m (at_least exp m)
unfolding at_least
at_least-Padded exp m d = elim (Bool-cases (leb (length m) exp)) [
  | inr e ↦ rw e (record { long = ground arith; digits = d; same = refl })
  | inl e ↦
      let n : ℕ = exp - length m + 1 in
      rw e (record {
        long = ground (arith, length-append (zeros n) m, length-replicate {A = ℕ} n b'0');
        digits = all_digits-append (zeros n) m ∙ rw (all_digits-zeros n, d) refl;
        same = trim_left-zeros n m;
      })
]

pub decimal_to_minor-minor_to_decimal :
    (amount : Bytes) (exp : ℕ)
    → all_digits amount ≡ true
    → decimal_to_minor (minor_to_decimal amount exp) exp
      ≡ minor (or_zero (trim_left is_zero amount))
unfolding minor_to_decimal
decimal_to_minor-minor_to_decimal amount exp d =
    let m : Bytes = trim_left is_zero amount in
    let v = at_least-Padded exp m (all_digits-trim_left amount d) in
    decimal_to_minor-with_point exp (at_least exp m) v.long v.digits
    ∙ ap (λ s. minor (or_zero s)) (v.same ∙ trim_left_twice amount)

pub plain-minor_to_decimal :
    (amount : Bytes) (exp : ℕ)
    → all_digits amount ≡ true
    → plain (minor_to_decimal amount exp) ≡ true
unfolding minor_to_decimal with_point
plain-minor_to_decimal amount exp d = elim (Bool-cases (exp == 0)) [
  | inl e ↦ rw e (plain-all_digits p v.digits)
  | inr e ↦
      let n : ℕ = length p - exp in
      rw e (
        plain-append (take n p) (b'.' ∷ drop n p)
        ∙ rw
            (
              plain-all_digits (take n p) (all_digits-take n p v.digits),
              plain-all_digits (drop n p) (all_digits-drop n p v.digits),
            )
            refl)
]
  where
    p : Bytes
    p = at_least exp (trim_left is_zero amount)

    v : Padded exp (trim_left is_zero amount) p
    v = at_least-Padded exp (trim_left is_zero amount) (all_digits-trim_left amount d)
