-- ===== src/Translation/Amount.antt =====
-- The conversion of an amount and its currency, amount.go.
use fluxrig.Prelude.{
  ℕ, ◌+◌, ◌-◌, Bool, true, ◌||◌, not, [], ◌∷◌, ◌++◌, none, some, Bytes, codes, equal, length, take,
  drop, replicate, leb, ltb, ◌==◌, if◌then◌else◌,
}
use fluxrig.When.Lexer.{is_all_digits}
use fluxrig.Translation.Currency.{Currency, find_currency, trim_left, trim_right, trim_space}

pub data Fault : Type 0 where
  unknown_currency not_minor not_decimal too_many_decimals too_long : Fault

pub data Outcome : Type 0 where
  -- The amount and the currency.
  done : Bytes → Bytes → Outcome
  failed : Fault → Outcome

abbrev pub zeros : ℕ → Bytes
zeros n = replicate n b'0'

abbrev pub is_zero : ℕ → Bool
is_zero c = c == b'0'

-- As many digits as stand behind the point, and one before it, at least.
unfoldable pub at_least : ℕ → Bytes → Bytes
unfolding replicate
at_least exp minor =
    if leb (length minor) exp then zeros (exp - length minor + 1) ++ minor else minor

-- `minorToDecimal`.
unfoldable pub with_point : ℕ → Bytes → Bytes
with_point exp minor =
    if exp == 0
    then minor
    else take (length minor - exp) minor ++ (b'.' ∷ drop (length minor - exp) minor)

unfoldable pub minor_to_decimal : Bytes → ℕ → Bytes
unfolding at_least with_point trim_left
minor_to_decimal minor exp = with_point exp (at_least exp (trim_left is_zero minor))

-- `strings.Cut` at the first point.
unfoldable pub cut : Bytes → Bytes × Bytes
cut [] = ([], [])
cut (c ∷ s) = let (before, after) = cut s in if c == b'.' then ([], s) else (c ∷ before, after)

abbrev pub or_zero : Bytes → Bytes
or_zero [] = b'0' ∷ []
or_zero (c ∷ s) = c ∷ s

abbrev pub digits_or_none : Bytes → Bool
digits_or_none [] = true
digits_or_none (c ∷ s) = is_all_digits (c ∷ s)

pub data Minor : Type 0 where
  minor : Bytes → Minor
  refused : Fault → Minor

-- `decimalToMinor`.
unfoldable pub decimal_to_minor : Bytes → ℕ → Minor
unfolding cut trim_left trim_right replicate
decimal_to_minor dec exp =
    let (before, frac) = cut dec in
    let whole = or_zero before in
    if not (is_all_digits whole) || not (digits_or_none frac)
    then refused not_decimal
    else if ltb exp (length (trim_right is_zero frac))
    then refused too_many_decimals
    else minor (or_zero (trim_left is_zero (whole ++ take exp (frac ++ zeros exp))))

abbrev pub iso8583_amount_digits : ℕ
iso8583_amount_digits = 12

-- The end of `convertAmount`.
abbrev pub padded : Bytes → Minor → Outcome
padded numeric (refused f) = failed f
padded numeric (minor m) =
    if ltb iso8583_amount_digits (length m)
    then failed too_long
    else done (zeros (iso8583_amount_digits - length m) ++ m) numeric

abbrev pub to_decimal : Currency → Bytes → Outcome
to_decimal c amount =
    if is_all_digits amount
    then done (minor_to_decimal amount c.exponent) c.alpha
    else failed not_minor

-- `convertAmount`.
unfoldable pub convert_amount : Bytes → Bytes → Bytes → Outcome
unfolding equal trim_space find_currency minor_to_decimal decimal_to_minor replicate
convert_amount amount cur target_kind = elim (find_currency cur) [
  | none ↦ failed unknown_currency
  | some c ↦
      if equal target_kind (codes "iso20022")
      then to_decimal c (trim_space amount)
      else padded c.numeric (decimal_to_minor (trim_space amount) c.exponent)
]
