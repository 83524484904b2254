-- ===== src/Amount/Compare.antt =====
-- `compareDecimalStrings` compares the values that the texts stand for.
use hypertron_api.Prelude.{
  ℕ, ◌+◌, ◌-◌, ◌*◌, ◌^◌, ◌≤◌, ◌<◌, max, some, true, ◌≡◌, ◌↔◌, sym, ◌∙◌, ap, arith,
}
use hypertron_api.Prelude.Text.{Text}
use native.Mathlib.Nat.{mul_assoc, one-le-pow}
use hypertron_api.Amount.{
  decimal_string_regex, decimal_places, scale, less, equal, greater, compare_decimal_strings,
}
use hypertron_api.Amount.Digits.{pow-add}
use hypertron_api.Amount.Decimal.{
  mantissa, places, regex-Parts, Parts-places, Parts-decimal_places, Parts-scale,
}

-- The order and the equality of the values `mantissa / 10 ^ places`, by cross multiplication.
abbrev pub IsLess : Text → Text → Type 0
IsLess a b = mantissa a * 10 ^ places b < mantissa b * 10 ^ places a

abbrev pub IsSame : Text → Text → Type 0
IsSame a b = mantissa a * 10 ^ places b ≡ mantissa b * 10 ^ places a

pub scale_lem :
    (t : Text) (precision : ℕ)
    → decimal_string_regex t ≡ true
    → places t ≤ precision
    → scale t precision ≡ mantissa t * 10 ^ (precision - places t)
scale_lem t precision h le =
    let (i, f, p, _) = regex-Parts t h in
    rw (Parts-places p) (Parts-scale p precision (rw (Parts-places p) at le))

pub decimal_places_lem : (t : Text) → decimal_string_regex t ≡ true → decimal_places t ≡ places t
decimal_places_lem t h =
    let (i, f, p, _) = regex-Parts t h in Parts-decimal_places p ∙ sym (Parts-places p)

regroup : (m p q k r : ℕ) → p - q + k ≡ r → m * 10 ^ (p - q) * 10 ^ k ≡ m * 10 ^ r
regroup m p q k r e =
    mul_assoc m (10 ^ (p - q)) (10 ^ k)
    ∙ ap (λ x. m * x) (sym (pow-add 10 (p - q) k) ∙ ap (λ x. 10 ^ x) e)

lt-mul_iff : (a b k : ℕ) → 0 < k → (a < b) ↔ (a * k < b * k)
lt-mul_iff a b k h = (λ p. grind arith, λ p. grind arith)

eq-mul_iff : (a b k : ℕ) → 0 < k → (a ≡ b) ↔ (a * k ≡ b * k)
eq-mul_iff a b k h = (λ p. ap (λ x. x * k) p, λ p. grind arith)

module _ (a b : Text) (va : decimal_string_regex a ≡ true)
    (vb : decimal_string_regex b ≡ true) where
  abbrev precision : ℕ
  precision = max (places a) (places b)

  abbrev common : ℕ
  common = 10 ^ (places a + places b - precision)

  common_pos : 0 < common
  common_pos = one-le-pow (places a + places b - precision) 10 (omega arith)

  scaled_left : scale a precision * common ≡ mantissa a * 10 ^ places b
  scaled_left = rw (scale_lem a precision va (omega arith)) (
      regroup (mantissa a) precision (places a) (places a + places b - precision) (places b)
        (omega arith))

  scaled_right : scale b precision * common ≡ mantissa b * 10 ^ places a
  scaled_right = rw (scale_lem b precision vb (omega arith)) (
      regroup (mantissa b) precision (places b) (places a + places b - precision) (places a)
        (omega arith))

  scaled-lt_iff : (scale a precision < scale b precision) ↔ IsLess a b
  scaled-lt_iff =
      rw (← scaled_left, ← scaled_right)
        (lt-mul_iff (scale a precision) (scale b precision) common common_pos)

  scaled-gt_iff : (scale b precision < scale a precision) ↔ IsLess b a
  scaled-gt_iff =
      rw (← scaled_left, ← scaled_right)
        (lt-mul_iff (scale b precision) (scale a precision) common common_pos)

  scaled-eq_iff : (scale a precision ≡ scale b precision) ↔ IsSame a b
  scaled-eq_iff =
      rw (← scaled_left, ← scaled_right)
        (eq-mul_iff (scale a precision) (scale b precision) common common_pos)

  -- On two texts that the regex accepts, the comparison answers -1, 0 or 1 exactly when the value of
  -- the first is below, equal to or above that of the second.
  pub compare_decimal_strings_iff :
      ((compare_decimal_strings a b ≡ some less) ↔ IsLess a b)
      × ((compare_decimal_strings a b ≡ some equal) ↔ IsSame a b)
      × ((compare_decimal_strings a b ≡ some greater) ↔ IsLess b a)
  unfolding compare_decimal_strings
  compare_decimal_strings_iff =
      rw (decimal_places_lem a va, decimal_places_lem b vb)
        (rw (va, vb) (ground (arith, scaled-lt_iff, scaled-gt_iff, scaled-eq_iff)))
