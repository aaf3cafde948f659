-- ===== src/Translation/Currency.antt =====
-- The currencies of amount.go, and `findCurrency`.
use Prim.Native.String.{String}
use fluxrig.Prelude.{
  ℕ, ◌-◌, Bool, ◌||◌, List, [], ◌∷◌, Option, none, some, Bytes, codes, equal, ◌==◌, if◌then◌else◌,
}
use fluxrig.Frame.Bitmap.{within}

pub record Currency : Type 0 where
  pub alpha : Bytes
  pub numeric : Bytes
  pub exponent : ℕ

abbrev currency : String → String → ℕ → Currency
currency alpha numeric exponent = record {
  alpha = codes alpha;
  numeric = codes numeric;
  exponent = exponent;
}

abbrev pub currencies : List Currency
currencies =
    currency "ARS" "032" 2
    ∷ currency "AUD" "036" 2
    ∷ currency "BHD" "048" 3
    ∷ currency "BRL" "986" 2
    ∷ currency "CAD" "124" 2
    ∷ currency "CHF" "756" 2
    ∷ currency "CLP" "152" 0
    ∷ currency "CNY" "156" 2
    ∷ currency "COP" "170" 2
    ∷ currency "CZK" "203" 2
    ∷ currency "DKK" "208" 2
    ∷ currency "EUR" "978" 2
    ∷ currency "GBP" "826" 2
    ∷ currency "HKD" "344" 2
    ∷ currency "INR" "356" 2
    ∷ currency "JOD" "400" 3
    ∷ currency "JPY" "392" 0
    ∷ currency "KRW" "410" 0
    ∷ currency "KWD" "414" 3
    ∷ currency "MXN" "484" 2
    ∷ currency "NOK" "578" 2
    ∷ currency "NZD" "554" 2
    ∷ currency "OMR" "512" 3
    ∷ currency "PEN" "604" 2
    ∷ currency "PLN" "985" 2
    ∷ currency "PYG" "600" 0
    ∷ currency "SEK" "752" 2
    ∷ currency "SGD" "702" 2
    ∷ currency "TND" "788" 3
    ∷ currency "USD" "840" 2
    ∷ currency "UYU" "858" 2
    ∷ currency "ZAR" "710" 2
    ∷ []

-- `strings.ToUpper`.
abbrev pub upper : Bytes → Bytes
upper [] = []
upper (c ∷ s) = (if within b'a' c b'z' then c - 32 else c) ∷ upper s

-- `strings.TrimLeft` and `strings.TrimRight`, for the characters of a test.
unfoldable pub trim_left : (ℕ → Bool) → Bytes → Bytes
trim_left test [] = []
trim_left test (c ∷ s) = let rest = trim_left test s in if test c then rest else c ∷ s

abbrev pub with_last : (ℕ → Bool) → ℕ → Bytes → Bytes
with_last test c [] = if test c then [] else c ∷ []
with_last test c (d ∷ s) = c ∷ d ∷ s

unfoldable pub trim_right : (ℕ → Bool) → Bytes → Bytes
trim_right test [] = []
trim_right test (c ∷ s) = with_last test c (trim_right test s)

abbrev pub is_blank : ℕ → Bool
is_blank c = c == b' ' || within 9 c 13

-- `strings.TrimSpace`.
unfoldable pub trim_space : Bytes → Bytes
unfolding trim_left trim_right
trim_space s = trim_right is_blank (trim_left is_blank s)

-- The loop over the currencies.
unfoldable pub find_code : Bytes → List Currency → Option Currency
unfolding equal
find_code code [] = none
find_code code (c ∷ cs) =
    if equal c.alpha code || equal c.numeric code then some c else find_code code cs

unfoldable pub find_currency : Bytes → Option Currency
unfolding trim_space find_code
find_currency code = find_code (upper (trim_space code)) currencies
