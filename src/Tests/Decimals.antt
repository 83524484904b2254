-- ===== src/Tests/Decimals.antt =====
-- Examples for decimal amounts.
use hypertron_api.Prelude.{ℕ, ◌+◌, ◌*◌, ◌-◌, ◌^◌, max, some, true, ◌≡◌, ◌↔◌, ◌<◌, ◌≤◌, refl}
use hypertron_api.Prelude.Text.{Text, codes}
use hypertron_api.Amount.{
  decimal_string_regex, is_valid_payment_amount, add_decimal_strings, compare_decimal_strings,
  SupportedCurrency, less, equal, greater,
}
use hypertron_api.Amount.Decimal.{mantissa, places}
use hypertron_api.Amount.Add.{Describes, add_decimal_strings-Describes}
use hypertron_api.Amount.Compare.{IsLess, IsSame, compare_decimal_strings_iff}
use hypertron_api.Amount.Valid.{is_valid_payment_amount_iff}

abbrev a : Text
a = codes "10.50"

abbrev b : Text
b = codes "0.125"

add_decimal_strings-Describes_example :
    let p : ℕ = max (places a) (places b) in
    (t : Text) × (add_decimal_strings a b ≡ some t)
    × Describes t (mantissa a * 10 ^ (p - places a) + mantissa b * 10 ^ (p - places b)) p
unfolding decimal_string_regex
add_decimal_strings-Describes_example = add_decimal_strings-Describes a b refl refl

compare_decimal_strings_iff_example :
    ((compare_decimal_strings a b ≡ some less) ↔ IsLess a b)
    × ((compare_decimal_strings a b ≡ some equal) ↔ IsSame a b)
    × ((compare_decimal_strings a b ≡ some greater) ↔ IsLess b a)
unfolding decimal_string_regex
compare_decimal_strings_iff_example = compare_decimal_strings_iff a b refl refl

is_valid_payment_amount_iff_example :
    (is_valid_payment_amount b SupportedCurrency.usdc ≡ true)
    ↔ ((decimal_string_regex b ≡ true) × (0 < mantissa b) × (places b ≤ 7))
is_valid_payment_amount_iff_example = is_valid_payment_amount_iff b SupportedCurrency.usdc
