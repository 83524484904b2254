-- ===== src/Amount/Decimal.antt =====
-- The value of a decimal text, told without splitting or scaling: its digits as one number, over a
-- power of ten; and what the helpers of the source give on a text that the regex accepts.
use hypertron_api.Prelude.{
  ℕ, ◌+◌, ◌-◌, ◌*◌, ◌^◌, ◌≤◌, [], ◌∷◌, ◌++◌, none, some, Bool, true, false, ◌==◌, if◌then◌else◌,
  leb, length, length-append, take_all, replicate, length-replicate, all, ◌≡◌, refl, ◌∙◌, ap, arith,
  Bool-cases, ◌⊎◌, inl, inr,
}
use mathlib.Core.List.{append_assoc, append-nil}
use hypertron_api.Prelude.Text.{Text}
use hypertron_api.Amount.{
  is_digit, fraction_tail, digits_tail, decimal_string_regex, split, first_part, second_part,
  or_empty, index_of, decimal_places, check_precision, zero_fraction, all_zeros, value_from,
  big_int, pad_end, scale, with_fraction,
}
use hypertron_api.Amount.Digits.{value_from-append, value_from-zeros, first_nonzero}

-- The digits of a text as one number; the point is skipped.
mantissa_from : ℕ → Text → ℕ
mantissa_from acc [] = acc
mantissa_from acc (c ∷ cs) = mantissa_from (if c == b'.' then acc else 10 * acc + (c - b'0')) cs

pub mantissa : Text → ℕ
mantissa t = mantissa_from 0 t

-- The number of characters behind the point.
pub places : Text → ℕ
places [] = 0
places (c ∷ cs) = if c == b'.' then length cs else places cs

-- The parts of a text that the regex accepts.
pub record Parts (t i f : Text) : Type 0 where
  pub whole : all is_digit i ≡ true
  pub fraction : all is_digit f ≡ true
  pub joined : t ≡ with_fraction i f

fraction_tail-Parts : (t : Text) → fraction_tail t ≡ true → (f : Text) × Parts t [] f
fraction_tail-Parts [] h = ([], record { whole = refl; fraction = refl; joined = refl })
fraction_tail-Parts (c ∷ []) h = absurd (let e : false ≡ true = ground arith in cc)
fraction_tail-Parts (c ∷ d ∷ ds) h =
    (d ∷ ds, record { whole = refl; fraction = ground arith; joined = ground arith })

with_fraction-cons : (c : ℕ) (i f : Text) → c ∷ with_fraction i f ≡ with_fraction (c ∷ i) f
with_fraction-cons c i [] = refl
with_fraction-cons c i (d ∷ ds) = refl

Parts-cons : (c : ℕ) {t i f : Text} → is_digit c ≡ true → Parts t i f → Parts (c ∷ t) (c ∷ i) f
Parts-cons c {t} {i} {f} h p = record {
  whole = ground arith;
  fraction = p.fraction;
  joined = ap (λ s. c ∷ s) p.joined ∙ with_fraction-cons c i f;
}

digits_tail-Parts : (t : Text) → digits_tail t ≡ true → (i f : Text) × Parts t i f
digits_tail-Parts [] h = ([], [], record { whole = refl; fraction = refl; joined = refl })
digits_tail-Parts (c ∷ cs) h = elim (Bool-cases (is_digit c)) [
  | inl d ↦ let (i, f, p) = digits_tail-Parts cs (rw d at h) in (c ∷ i, f, Parts-cons c d p)
  | inr n ↦ let (f, p) = fraction_tail-Parts (c ∷ cs) (rw n at h) in ([], f, p)
]

abbrev pub IsLeading : Text → Type 0
IsLeading i = (i ≡ b'0' ∷ []) ⊎ (first_nonzero i ≡ true)

-- The whole part is 0 or begins with another digit.
pub regex-Parts :
    (t : Text) → decimal_string_regex t ≡ true → (i f : Text) × Parts t i f × IsLeading i
unfolding decimal_string_regex
regex-Parts [] h = absurd (let e : false ≡ true = h in cc)
regex-Parts (c ∷ cs) h = elim (Bool-cases (c == b'0')) [
  | inl z ↦
      let (f, p) = fraction_tail-Parts cs (rw z at h) in
      (c ∷ [], f, Parts-cons c (ground arith) p, inl (ground arith))
  | inr n ↦
      let (i, f, p) = digits_tail-Parts cs (ground arith) in
      (c ∷ i, f, Parts-cons c (ground arith) p, inr (ground arith))
]

split-digits : (f : Text) → all is_digit f ≡ true → split b'.' f ≡ f ∷ []
unfolding split
split-digits [] h = refl
split-digits (c ∷ f) h = ground (arith, split-digits f)

split-point : (i f : Text) → all is_digit i ≡ true → split b'.' (i ++ b'.' ∷ f) ≡ i ∷ split b'.' f
unfolding split
split-point [] f h = refl
split-point (c ∷ i) f h = ground (arith, split-point i f)

index_of-digits : (f : Text) → all is_digit f ≡ true → index_of b'.' f ≡ none
unfolding index_of
index_of-digits [] h = refl
index_of-digits (c ∷ f) h = ground (arith, index_of-digits f)

index_of-point :
    (i f : Text) → all is_digit i ≡ true → index_of b'.' (i ++ b'.' ∷ f) ≡ some (length i)
unfolding index_of
index_of-point [] f h = refl
index_of-point (c ∷ i) f h = ground (arith, index_of-point i f)

places-digits : (f : Text) → all is_digit f ≡ true → places f ≡ 0
unfolding places
places-digits [] h = refl
places-digits (c ∷ f) h = ground (arith, places-digits f)

places-point : (i f : Text) → all is_digit i ≡ true → places (i ++ b'.' ∷ f) ≡ length f
unfolding places
places-point [] f h = refl
places-point (c ∷ i) f h = ground (arith, places-point i f)

mantissa_from-digits :
    (acc : ℕ) (f : Text) → all is_digit f ≡ true → mantissa_from acc f ≡ value_from acc f
unfolding mantissa_from value_from
mantissa_from-digits acc [] h = refl
mantissa_from-digits acc (c ∷ f) h =
    let e : (c == b'.') ≡ false = ground arith in
    rw e (mantissa_from-digits (10 * acc + (c - b'0')) f (ground arith))

mantissa_from-point :
    (acc : ℕ) (i f : Text)
    → all is_digit i ≡ true
    → all is_digit f ≡ true
    → mantissa_from acc (i ++ b'.' ∷ f) ≡ value_from acc (i ++ f)
unfolding mantissa_from value_from
mantissa_from-point acc [] f h k = mantissa_from-digits acc f k
mantissa_from-point acc (c ∷ i) f h k =
    let e : (c == b'.') ≡ false = ground arith in
    rw (e, mantissa_from) (mantissa_from-point (10 * acc + (c - b'0')) i f (ground arith) k)

abbrev pub empty : Text → Bool
empty [] = true
empty (_ ∷ _) = false

-- Everything that the source reads off a text, from its parts.
module _ {t i f : Text} (p : Parts t i f) where
  pub Parts-first : first_part (split b'.' t) ≡ i
  Parts-first = rw p.joined (joined_first f)
    where
      joined_first : (f : Text) → first_part (split b'.' (with_fraction i f)) ≡ i
      joined_first [] = rw (split-digits i p.whole)
      joined_first (d ∷ ds) = rw (split-point i (d ∷ ds) p.whole)

  pub Parts-second : or_empty (second_part (split b'.' t)) ≡ f
  Parts-second = rw p.joined (joined_second f p.fraction)
    where
      joined_second :
          (f : Text)
          → all is_digit f ≡ true
          → or_empty (second_part (split b'.' (with_fraction i f))) ≡ f
      joined_second [] h = rw (split-digits i p.whole)
      joined_second (d ∷ ds) h = rw (split-point i (d ∷ ds) p.whole) (rw (split-digits (d ∷ ds) h))

  pub Parts-places : places t ≡ length f
  Parts-places = rw p.joined (joined_places f)
    where
      joined_places : (f : Text) → places (with_fraction i f) ≡ length f
      joined_places [] = places-digits i p.whole
      joined_places (d ∷ ds) = places-point i (d ∷ ds) p.whole

  pub Parts-check_precision : (n : ℕ) → check_precision t n ≡ leb (length f) n
  unfolding check_precision
  Parts-check_precision n = rw p.joined (joined_places f)
    where
      joined_places : (f : Text) → check_precision (with_fraction i f) n ≡ leb (length f) n
      joined_places [] = rw (index_of-digits i p.whole, check_precision) (ground arith)
      joined_places (d ∷ ds) =
          rw (index_of-point i (d ∷ ds) p.whole, check_precision)
            (ap (λ k. leb k n) (omega (arith, length-append i (b'.' ∷ d ∷ ds))))

  pub Parts-zero_fraction :
      zero_fraction (second_part (split b'.' t)) ≡ (if empty f then true else all_zeros f)
  Parts-zero_fraction = rw p.joined (joined_second f p.fraction)
    where
      joined_second :
          (f : Text)
          → all is_digit f ≡ true
          → zero_fraction (second_part (split b'.' (with_fraction i f)))
            ≡ (if empty f then true else all_zeros f)
      joined_second [] h = rw (split-digits i p.whole)
      joined_second (d ∷ ds) h = rw (split-point i (d ∷ ds) p.whole) (rw (split-digits (d ∷ ds) h))

  pub Parts-decimal_places : decimal_places t ≡ length f
  unfolding decimal_places
  Parts-decimal_places = rw p.joined (joined_places f)
    where
      joined_places : (f : Text) → decimal_places (with_fraction i f) ≡ length f
      joined_places [] = rw (index_of-digits i p.whole, decimal_places)
      joined_places (d ∷ ds) =
          rw (index_of-point i (d ∷ ds) p.whole, decimal_places)
            (omega (arith, length-append i (b'.' ∷ d ∷ ds)))

  pub Parts-mantissa : mantissa t ≡ big_int (i ++ f)
  unfolding mantissa
  Parts-mantissa = rw p.joined (joined_mantissa f p.fraction)
    where
      joined_mantissa :
          (f : Text)
          → all is_digit f ≡ true
          → mantissa_from 0 (with_fraction i f) ≡ big_int (i ++ f)
      joined_mantissa [] h = rw append-nil (mantissa_from-digits 0 i p.whole)
      joined_mantissa (d ∷ ds) h = mantissa_from-point 0 i (d ∷ ds) p.whole h

  -- Scaling to at least the places that the text has loses nothing.
  pub Parts-scale :
      (precision : ℕ)
      → length f ≤ precision
      → scale t precision ≡ mantissa t * 10 ^ (precision - length f)
  unfolding scale
  Parts-scale precision h =
      rw (Parts-first, Parts-second, Parts-mantissa)
        (rw
          (take_all precision (pad_end precision f) (
            omega (
              arith,
              length-append f (replicate (precision - length f) b'0'),
              length-replicate {A = ℕ} (precision - length f) b'0',
            )))
          (rw (← append_assoc i f (replicate (precision - length f) b'0')) (
            rw (value_from-append 0 (i ++ f) (replicate (precision - length f) b'0'))
              (value_from-zeros (big_int (i ++ f)) (precision - length f)))))
