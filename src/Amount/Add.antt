-- ===== src/Amount/Add.antt =====
-- `addDecimalStrings` returns the normal form of the sum of the values.
use hypertron_api.Prelude.{
  ℕ, ◌+◌, ◌-◌, ◌*◌, ◌/◌, ◌%◌, ◌^◌, ◌≤◌, ◌<◌, max, [], ◌∷◌, ◌++◌, some, true, false, ◌==◌, length,
  length-append, replicate, length-replicate, all, ◌≡◌, ◌⊎◌, inl, inr, refl, sym, ◌∙◌, ap, arith,
}
use mathlib.Core.Path.{subst}
use native.Mathlib.Decide.{dec_lt}
use hypertron_api.Prelude.Text.{Text}
use native.Mathlib.Nat.{one-le-pow, mod-lt, div-add-mod'}
use hypertron_api.Amount.{
  is_digit, digits_tail, decimal_string_regex, scale, value_from, big_int, to_string, pad_start,
  trim_zeros, with_fraction, descale_and_normalize, add_decimal_strings,
}
use hypertron_api.Amount.Digits.{
  pow-add, value_from-append, value_from-acc, value_from-zeros, Prints, to_string-Prints,
  first_nonzero,
}
use hypertron_api.Amount.Padding.{
  length-pad_start, big_int-pad_start, all-pad_start, ends_nonzero, trim_zeros-append,
  ends_nonzero-trim_zeros,
}
use hypertron_api.Amount.Decimal.{mantissa, places, Parts, Parts-places, Parts-mantissa}
use hypertron_api.Amount.Compare.{scale_lem, decimal_places_lem}

digits_tail-whole : (i : Text) → all is_digit i ≡ true → digits_tail i ≡ true
digits_tail-whole [] h = refl
digits_tail-whole (c ∷ i) h = ground (arith, digits_tail-whole i)

digits_tail-point :
    (i : Text) (d : ℕ) (ds : Text)
    → all is_digit i ≡ true
    → all is_digit (d ∷ ds) ≡ true
    → digits_tail (i ++ b'.' ∷ d ∷ ds) ≡ true
digits_tail-point [] d ds h k = ground arith
digits_tail-point (c ∷ i) d ds h k = ground (arith, digits_tail-point i d ds)

regex-with_fraction :
    (i f : Text) (n : ℕ)
    → Prints i n
    → all is_digit f ≡ true
    → decimal_string_regex (with_fraction i f) ≡ true
unfolding decimal_string_regex
regex-with_fraction i f n p h = elim (dec_lt 0 n) [
  | yes pos ↦ nonzero i f p.digits (p.leading pos) h
  | no zero_value ↦ rw (p.zero_text (omega arith)) (zero_first f h)
]
  where
    nonzero :
        (i f : Text)
        → all is_digit i ≡ true
        → first_nonzero i ≡ true
        → all is_digit f ≡ true
        → decimal_string_regex (with_fraction i f) ≡ true
    nonzero [] f h l k = cc
    nonzero (c ∷ i) [] h l k = ground (arith, digits_tail-whole i)
    nonzero (c ∷ i) (d ∷ ds) h l k = ground (arith, digits_tail-point i d ds)

    zero_first :
        (f : Text)
        → all is_digit f ≡ true
        → decimal_string_regex (with_fraction (b'0' ∷ []) f) ≡ true
    zero_first [] h = refl
    zero_first (d ∷ ds) h = ground arith

-- `t` is the shortest text of `n / 10 ^ p`.
pub record Describes (t : Text) (n p : ℕ) : Type 0 where
  pub accepted : decimal_string_regex t ≡ true
  pub short : places t ≤ p
  pub value : mantissa t * 10 ^ (p - places t) ≡ n
  pub normal : (places t ≡ 0) ⊎ (ends_nonzero t ≡ true)

all-append_left : (s t : Text) → all is_digit (s ++ t) ≡ true → all is_digit s ≡ true
all-append_left [] t h = refl
all-append_left (c ∷ s) t h = ground (arith, all-append_left s t)

ends_nonzero-append :
    (i : Text) (c : ℕ) (s : Text) → ends_nonzero (c ∷ s) ≡ true → ends_nonzero (i ++ c ∷ s) ≡ true
ends_nonzero-append [] c s h = h
ends_nonzero-append (a ∷ []) c s h = h
ends_nonzero-append (a ∷ b ∷ i) c s h = ends_nonzero-append (b ∷ i) c s h

normal-with_fraction :
    (i f : Text)
    → ends_nonzero f ≡ true
    → (length f ≡ 0) ⊎ (ends_nonzero (with_fraction i f) ≡ true)
normal-with_fraction i [] h = inl refl
normal-with_fraction i (d ∷ ds) h = inr (ends_nonzero-append i b'.' (d ∷ ds) h)

-- The text of a quotient and a remainder, once the zeros are off.
joined-Describes :
    (i f : Text) (q k : ℕ)
    → Prints i q
    → all is_digit f ≡ true
    → ends_nonzero f ≡ true
    → Describes (with_fraction i f) (q * 10 ^ (length f + k) + big_int f * 10 ^ k) (length f + k)
joined-Describes i f q k pr h z =
    let parts : Parts (with_fraction i f) i f = record {
      whole = pr.digits;
      fraction = h;
      joined = refl;
    } in
    let count : places (with_fraction i f) ≡ length f = Parts-places parts in
    let left : length f + k - length f ≡ k = omega arith in
    record {
      accepted = regex-with_fraction i f q pr h;
      short = omega (arith, count);
      value =
          rw (count, left, Parts-mantissa parts, value_from-append 0 i f, pr.value)
            (rw (value_from-acc q f, pow-add 10 (length f) k) (omega arith));
      normal = rw count (normal-with_fraction i f z);
    }

module _ (n p : ℕ) (pos : 0 < p) where
  abbrev remainder : ℕ
  remainder = n % 10 ^ p

  abbrev padded : Text
  padded = pad_start p (to_string remainder)

  length-padded : length padded ≡ p
  length-padded =
      length-pad_start p (to_string remainder)
        ((to_string-Prints remainder).short p pos (mod-lt n (one-le-pow p 10 (omega arith))))

  abbrev zeros : ℕ
  zeros = (trim_zeros-append padded).0

  trimmed_digits : all is_digit (trim_zeros padded) ≡ true
  trimmed_digits = all-append_left (trim_zeros padded) (replicate zeros b'0') (
      rw (← (trim_zeros-append padded).1)
        (all-pad_start p (to_string remainder) (to_string-Prints remainder).digits))

  trimmed_length : length (trim_zeros padded) + zeros ≡ p
  trimmed_length = omega (
    arith,
    length-padded,
    ap length (trim_zeros-append padded).1,
    length-append (trim_zeros padded) (replicate zeros b'0'),
    length-replicate {A = ℕ} zeros b'0',
  )

  trimmed_value : big_int (trim_zeros padded) * 10 ^ zeros ≡ remainder
  trimmed_value =
      sym (
        value_from-append 0 (trim_zeros padded) (replicate zeros b'0')
        ∙ value_from-zeros (big_int (trim_zeros padded)) zeros)
      ∙ ap big_int (sym (trim_zeros-append padded).1)
      ∙ big_int-pad_start p (to_string remainder)
      ∙ (to_string-Prints remainder).value

  fraction-Describes : Describes (with_fraction (to_string (n / 10 ^ p)) (trim_zeros padded)) n p
  fraction-Describes =
      subst (λ m. Describes (with_fraction (to_string (n / 10 ^ p)) (trim_zeros padded)) m p)
        (rw trimmed_value (div-add-mod' n (10 ^ p)))
        (subst
          (λ k.
            Describes (with_fraction (to_string (n / 10 ^ p)) (trim_zeros padded))
              (n / 10 ^ p * 10 ^ k + big_int (trim_zeros padded) * 10 ^ zeros) k)
          trimmed_length
          (joined-Describes (to_string (n / 10 ^ p)) (trim_zeros padded) (n / 10 ^ p) zeros
            (to_string-Prints (n / 10 ^ p)) trimmed_digits (ends_nonzero-trim_zeros padded)))

whole-Describes : (n : ℕ) → Describes (to_string n) n 0
unfolding value_from
whole-Describes n =
    subst (λ m. Describes (to_string n) m 0) (omega arith)
      (joined-Describes (to_string n) [] n 0 (to_string-Prints n) refl refl)

descale_and_normalize-Describes : (n p : ℕ) → Describes (descale_and_normalize n p) n p
unfolding descale_and_normalize
descale_and_normalize-Describes n p = elim (dec_lt 0 p) [
  | yes pos ↦
      let e : (p == 0) ≡ false = ground arith in
      rw (e, descale_and_normalize) (fraction-Describes n p pos)
  | no h ↦ let z : p ≡ 0 = omega arith in rw (z, descale_and_normalize) (whole-Describes n)
]

-- Two texts that the regex accepts have a sum: a text that the regex accepts, of the value of the
-- first plus that of the second at the larger number of places, with no more places than that and
-- with no zero at the end of its fraction.
pub add_decimal_strings-Describes :
    (a b : Text)
    → decimal_string_regex a ≡ true
    → decimal_string_regex b ≡ true
    → let p : ℕ = max (places a) (places b) in
      (t : Text) × (add_decimal_strings a b ≡ some t)
      × Describes t (mantissa a * 10 ^ (p - places a) + mantissa b * 10 ^ (p - places b)) p
unfolding add_decimal_strings
add_decimal_strings-Describes a b va vb =
    let p : ℕ = max (places a) (places b) in
    (
      descale_and_normalize (scale a p + scale b p) p,
      rw (va, vb) (rw (decimal_places_lem a va, decimal_places_lem b vb)),
      rw (scale_lem a p va (omega arith), scale_lem b p vb (omega arith))
          (descale_and_normalize-Describes _ p),
    )
