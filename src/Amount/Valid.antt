-- ===== src/Amount/Valid.antt =====
-- `isValidPaymentAmount` accepts exactly the positive values with few enough places.
use hypertron_api.Prelude.{
  ℕ, ◌+◌, ◌-◌, ◌*◌, ◌^◌, ◌≤◌, ◌<◌, [], ◌∷◌, ◌++◌, Bool, true, false, leb, ◌==◌, ◌&&◌, if◌then◌else◌,
  length, all, ◌≡◌, ◌↔◌, inl, inr, refl, sym, ◌∙◌, ap, arith, Bool-cases,
}
use hypertron_api.Prelude.Text.{Text, text_eq, text_eq_sound}
use native.Mathlib.Nat.{one-le-pow}
use hypertron_api.Amount.{
  is_digit, decimal_string_regex, all_zeros, value_from, big_int, is_valid_decimal_string,
  check_precision, SupportedCurrency, usdc, currency_max_precision, is_valid_payment_amount,
}
use hypertron_api.Amount.Digits.{value_from-append, value_from-acc, first_nonzero}
use hypertron_api.Amount.Decimal.{
  mantissa, places, IsLeading, empty, regex-Parts, Parts-first, Parts-mantissa, Parts-places,
  Parts-check_precision, Parts-zero_fraction,
}

big_int-cons : (c : ℕ) (r : Text) → big_int (c ∷ r) ≡ (c - b'0') * 10 ^ length r + big_int r
unfolding value_from
big_int-cons c r = value_from-acc (10 * 0 + (c - b'0')) r ∙ omega arith

product_pos : (d p : ℕ) → 0 < p → 0 < d → 0 < d * p
product_pos d p h k = grind arith

cons_zero_iff :
    (c : ℕ) (r : Text)
    → is_digit c ≡ true
    → (big_int (c ∷ r) ≡ 0) ↔ (((c == b'0') ≡ true) × (big_int r ≡ 0))
cons_zero_iff c r h = rw (big_int-cons c r) (
    ground (arith, product_pos (c - b'0') (10 ^ length r) (one-le-pow (length r) 10 (omega arith))))

and_left : (a b : Bool) → (a && b) ≡ true → a ≡ true
and_left a b h = ground arith

and_right : (a b : Bool) → (a && b) ≡ true → b ≡ true
and_right a b h = ground arith

and_intro : (a b : Bool) → a ≡ true → b ≡ true → (a && b) ≡ true
and_intro a b h k = ground arith

-- A fraction is zero when it is missing or all zeros.
fraction_zero_iff :
    (f : Text)
    → all is_digit f ≡ true
    → ((if empty f then true else all_zeros f) ≡ true) ↔ (big_int f ≡ 0)
unfolding value_from
fraction_zero_iff [] h = (λ _. refl, λ _. refl)
fraction_zero_iff (c ∷ []) h = ground arith
fraction_zero_iff (c ∷ d ∷ ds) h =
    let e : (big_int (c ∷ d ∷ ds) ≡ 0) ↔ (((c == b'0') ≡ true) × (big_int (d ∷ ds) ≡ 0)) =
      cons_zero_iff c (d ∷ ds) (ground arith) in
    let k : (all_zeros (d ∷ ds) ≡ true) ↔ (big_int (d ∷ ds) ≡ 0) =
      fraction_zero_iff (d ∷ ds) (ground arith) in
    (λ z. e.1 (and_left _ _ z, k.0 (and_right _ _ z)), λ z. and_intro _ _ (e.0 z).0 (k.1 (e.0 z).1))

first_nonzero-pos : (i : Text) → first_nonzero i ≡ true → 0 < big_int i
first_nonzero-pos [] h = absurd (let e : false ≡ true = h in cc)
first_nonzero-pos (c ∷ cs) h =
    let pos : 0 < c - b'0' = ground arith in
    rw (big_int-cons c cs) (
      omega (
        arith,
        product_pos (c - b'0') (10 ^ length cs) (one-le-pow (length cs) 10 (omega arith)) pos,
      ))

leading_zero_iff : (i : Text) → IsLeading i → (text_eq i (b'0' ∷ []) ≡ true) ↔ (big_int i ≡ 0)
unfolding value_from
leading_zero_iff i (inl e) = rw e (λ _. refl, λ _. refl)
leading_zero_iff i (inr n) = (
  λ t. ap big_int (text_eq_sound i (b'0' ∷ []) t),
  λ z. absurd (omega (arith, first_nonzero-pos i n)),
)

sum_zero_iff : (i f : Text) → (big_int (i ++ f) ≡ 0) ↔ ((big_int i ≡ 0) × (big_int f ≡ 0))
sum_zero_iff i f =
    rw (value_from-append 0 i f, value_from-acc (big_int i) f)
      (ground
        (arith, product_pos (big_int i) (10 ^ length f) (one-le-pow (length f) 10 (omega arith))))

-- A text is a valid amount exactly when the regex accepts it and its value is not zero.
pub is_valid_decimal_string_iff :
    (t : Text)
    → (is_valid_decimal_string t ≡ true) ↔ ((decimal_string_regex t ≡ true) × (0 < mantissa t))
unfolding is_valid_decimal_string
is_valid_decimal_string_iff t = elim (Bool-cases (decimal_string_regex t)) [
  | inr refused ↦ rw refused (λ e. cc, λ e. cc)
  | inl accepted ↦
      let (i, f, p, l) = regex-Parts t accepted in
      rw (accepted, Parts-first p, Parts-zero_fraction p, Parts-mantissa p)
        (ground (arith, leading_zero_iff i l, fraction_zero_iff f p.fraction, sum_zero_iff i f))
]

check_precision_lem :
    (t : Text) (n : ℕ) → decimal_string_regex t ≡ true → check_precision t n ≡ leb (places t) n
check_precision_lem t n h =
    let (i, f, p, _) = regex-Parts t h in
    Parts-check_precision p n ∙ ap (λ k. leb k n) (sym (Parts-places p))

currency_max_precision_lem : (c : SupportedCurrency) → currency_max_precision c ≡ 7
currency_max_precision_lem usdc = refl
currency_max_precision_lem _ = refl

-- A payment amount is accepted exactly when the regex accepts it, its value is not zero, and it has
-- at most seven places, for each of the three currencies.
pub is_valid_payment_amount_iff :
    (t : Text) (c : SupportedCurrency)
    → (is_valid_payment_amount t c ≡ true)
      ↔ ((decimal_string_regex t ≡ true) × (0 < mantissa t) × (places t ≤ 7))
unfolding is_valid_payment_amount
is_valid_payment_amount_iff t c =
    ground
      (arith, is_valid_decimal_string_iff t, check_precision_lem t 7, currency_max_precision_lem c)
