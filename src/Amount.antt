-- ===== src/Amount.antt =====
-- src/common/utils/amount.util.ts: amounts as decimal texts, by integer arithmetic on scaled values.
-- A throw of an Error is `none`.
pub mod Digits
pub mod Padding
pub mod Decimal
pub mod Compare
pub mod Add
pub mod Valid
use hypertron_api.Prelude.{
  ℕ, zero, suc, ◌+◌, ◌-◌, ◌*◌, ◌/◌, ◌%◌, ◌^◌, max, List, [], ◌∷◌, ◌++◌, Option, none, some, Bool,
  true, false, not, ◌&&◌, leb, ltb, ◌==◌, if◌then◌else◌, length, take, replicate, all,
}
use hypertron_api.Prelude.Text.{Text, text_eq}

abbrev pub is_digit : ℕ → Bool
is_digit c = leb b'0' c && leb c b'9'

-- `\d+$`.
abbrev pub one_or_more : Text → Bool
one_or_more [] = false
one_or_more (d ∷ ds) = all is_digit (d ∷ ds)

-- `(?:\.\d+)?$`.
abbrev pub fraction_tail : Text → Bool
fraction_tail [] = true
fraction_tail (c ∷ ds) = c == b'.' && one_or_more ds

-- `\d*(?:\.\d+)?$`.
abbrev pub digits_tail : Text → Bool
digits_tail [] = true
digits_tail (c ∷ cs) = if is_digit c then digits_tail cs else fraction_tail (c ∷ cs)

-- DECIMAL_STRING_REGEX, `^(?:0|[1-9]\d*)(?:\.\d+)?$`.
unfoldable pub decimal_string_regex : Text → Bool
decimal_string_regex [] = false
decimal_string_regex (c ∷ cs) = if c == b'0' then fraction_tail cs else is_digit c && digits_tail cs

-- `split` of a text at a character.
unfoldable pub push_head : ℕ → List Text → List Text
push_head c [] = (c ∷ []) ∷ []
push_head c (p ∷ ps) = (c ∷ p) ∷ ps

unfoldable pub split : ℕ → Text → List Text
unfolding push_head
split sep [] = [] ∷ []
split sep (c ∷ cs) = let rest = split sep cs in if c == sep then [] ∷ rest else push_head c rest

-- `const [intPart, fracPart] = value.split('.')`.
abbrev pub first_part : List Text → Text
first_part [] = []
first_part (p ∷ _) = p

abbrev pub second_part : List Text → Option Text
second_part [] = none
second_part (_ ∷ []) = none
second_part (_ ∷ q ∷ _) = some q

abbrev pub or_empty : Option Text → Text
or_empty none = []
or_empty (some t) = t

-- `/^0+$/`.
abbrev pub all_zeros : Text → Bool
all_zeros [] = false
all_zeros (c ∷ []) = c == b'0'
all_zeros (c ∷ cs) = c == b'0' && all_zeros cs

abbrev pub zero_fraction : Option Text → Bool
zero_fraction none = true
zero_fraction (some f) = all_zeros f

unfoldable pub is_valid_decimal_string : Text → Bool
is_valid_decimal_string value =
    let parts = split b'.' value in
    decimal_string_regex value
    && not (text_eq (first_part parts) (b'0' ∷ []) && zero_fraction (second_part parts))

unfoldable pub index_of : ℕ → Text → Option ℕ
index_of c [] = none
index_of c (d ∷ ds) =
    let rest = index_of c ds in
    if d == c then some 0 else elim rest [ none ↦ none | some i ↦ some (suc i) ]

unfoldable pub decimal_places : Text → ℕ
decimal_places value = elim (index_of b'.' value) [ none ↦ 0 | some i ↦ length value - i - 1 ]

unfoldable pub check_precision : Text → ℕ → Bool
check_precision value max_decimals = elim (index_of b'.' value) [
  | none ↦ true
  | some i ↦ leb (length value - i - 1) max_decimals
]

pub data SupportedCurrency : Type 0 where
  usdc eurc xlm : SupportedCurrency

abbrev pub currency_max_precision : SupportedCurrency → ℕ
currency_max_precision usdc = 7
currency_max_precision eurc = 7
currency_max_precision xlm = 7

unfoldable pub is_valid_payment_amount : Text → SupportedCurrency → Bool
is_valid_payment_amount value currency =
    is_valid_decimal_string value && check_precision value (currency_max_precision currency)

-- `BigInt` of a text of digits.
unfoldable pub value_from : ℕ → Text → ℕ
value_from acc [] = acc
value_from acc (c ∷ cs) = value_from (10 * acc + (c - b'0')) cs

abbrev pub big_int : Text → ℕ
big_int t = value_from 0 t

-- `toString` of a BigInt; the fuel is more than the number of digits.
unfoldable pub digits_from : ℕ → ℕ → Text → Text
digits_from zero n acc = acc
digits_from (suc f) n acc =
    let rest = digits_from f (n / 10) ((b'0' + n % 10) ∷ acc) in
    if ltb n 10 then (b'0' + n) ∷ acc else rest

unfoldable pub to_string : ℕ → Text
unfolding digits_from
to_string n = digits_from (suc n) n []

abbrev pub pad_end : ℕ → Text → Text
pad_end n t = t ++ replicate (n - length t) b'0'

abbrev pub pad_start : ℕ → Text → Text
pad_start n t = replicate (n - length t) b'0' ++ t

-- `replace(/0+$/, '')`.
abbrev pub keep : ℕ → Text → Text
keep c [] = if c == b'0' then [] else c ∷ []
keep c (d ∷ ds) = c ∷ d ∷ ds

unfoldable pub trim_zeros : Text → Text
trim_zeros [] = []
trim_zeros (c ∷ cs) = keep c (trim_zeros cs)

unfoldable pub scale : Text → ℕ → ℕ
scale value precision =
    let parts = split b'.' value in
    big_int (first_part parts ++ take precision (pad_end precision (or_empty (second_part parts))))

abbrev pub with_fraction : Text → Text → Text
with_fraction i [] = i
with_fraction i (d ∷ ds) = i ++ b'.' ∷ d ∷ ds

unfoldable pub descale_and_normalize : ℕ → ℕ → Text
descale_and_normalize scaled precision =
    if precision == 0
    then to_string scaled
    else (let divisor = 10 ^ precision in
        with_fraction (to_string (scaled / divisor))
          (trim_zeros (pad_start precision (to_string (scaled % divisor)))))

unfoldable pub add_decimal_strings : Text → Text → Option Text
add_decimal_strings a b =
    let precision = max (decimal_places a) (decimal_places b) in
    if decimal_string_regex a && decimal_string_regex b
    then some (descale_and_normalize (scale a precision + scale b precision) precision)
    else none

-- The results -1, 0 and 1.
pub data Sign : Type 0 where
  less equal greater : Sign

unfoldable pub compare_decimal_strings : Text → Text → Option Sign
compare_decimal_strings a b =
    let precision = max (decimal_places a) (decimal_places b) in
    let scaled_a = scale a precision in
    let scaled_b = scale b precision in
    if decimal_string_regex a && decimal_string_regex b
    then some
        (if ltb scaled_a scaled_b then less else if ltb scaled_b scaled_a then greater else equal)
    else none
