-- ===== src/Tests/Amounts.antt =====
-- Amounts that go from one protocol to another.
use fluxrig.Prelude.{◌*◌, ◌^◌, ◌≡◌, refl, ◌++◌, some, Bytes, codes, equal, length, arith}
use fluxrig.Translation.Currency.{Currency, find_currency, trim_space}
use fluxrig.Translation.Amount.{
  done, failed, not_minor, too_many_decimals, too_long, unknown_currency, zeros, cut,
  convert_amount,
}
use fluxrig.Translation.Digits.{value}
use fluxrig.Translation.RoundTrip.{convert_amount-convert_amount}
use fluxrig.Translation.Exact.{convert_amount_exact}

abbrev peso : Currency
peso = record { alpha = codes "UYU"; numeric = codes "858"; exponent = 2 }

peso_run : find_currency (codes " uyu") ≡ some peso
unfolding find_currency equal
peso_run = refl

convert_amount_run :
    (convert_amount (codes "000000004250") (codes "858") (codes "iso20022")
      ≡ done (codes "42.50") (codes "UYU"))
    × (convert_amount (codes "42.5") (codes "UYU") (codes "iso8583")
        ≡ done (codes "000000004250") (codes "858"))
    × (convert_amount (codes "0.005") (codes "JOD") (codes "iso8583")
        ≡ done (codes "000000000005") (codes "400"))
    × (convert_amount (codes "10") (codes "JPY") (codes "iso20022")
        ≡ done (codes "10") (codes "JPY"))
    × (convert_amount (codes "0000") (codes "JPY") (codes "iso20022")
        ≡ done (codes "0") (codes "JPY"))
unfolding convert_amount equal
convert_amount_run = (refl, refl, refl, refl, refl)

convert_amount_error_run :
    (convert_amount (codes "4.255") (codes "UYU") (codes "iso8583") ≡ failed too_many_decimals)
    × (convert_amount (codes "42.50") (codes "UYU") (codes "iso20022") ≡ failed not_minor)
    × (convert_amount (codes "99999999999") (codes "UYU") (codes "iso8583") ≡ failed too_long)
    × (convert_amount (codes "1") (codes "XXX") (codes "iso8583") ≡ failed unknown_currency)
unfolding convert_amount equal
convert_amount_error_run = (refl, refl, refl, refl)

-- Minor units that go to ISO 8583 are read as whole units.
convert_amount_scaled_run :
    convert_amount (codes "000000004250") (codes "858") (codes "iso8583")
    ≡ done (codes "000000425000") (codes "858")
unfolding convert_amount equal
convert_amount_scaled_run = refl

convert_amount-convert_amount_example :
    (d : Bytes) × (convert_amount (codes "4250") (codes " uyu") (codes "iso20022")
      ≡ done d (codes "UYU"))
    × (convert_amount d (codes "UYU") (codes "iso8583")
        ≡ done (zeros 8 ++ codes "4250") (codes "858"))
convert_amount-convert_amount_example =
    convert_amount-convert_amount (codes "4250") (codes " uyu") peso peso_run refl (omega arith)

convert_amount_exact_example :
    let (whole, frac) = cut (trim_space (codes "42.5")) in
    (length (codes "000000004250") ≡ 12)
    × (codes "858" ≡ codes "858")
    × (value (codes "000000004250") * 10 ^ length frac ≡ value (whole ++ frac) * 10 ^ 2)
convert_amount_exact_example =
    convert_amount_exact (codes "42.5") (codes " uyu") (codes "iso8583") peso (codes "000000004250")
      (codes "858") peso_run (unfold equal in refl) (unfold convert_amount equal in refl)
