-- ===== src/Amount/Digits.antt =====
-- Texts of digits and the numbers that they stand for.
use hypertron_api.Prelude.{
  ℕ, zero, suc, ◌+◌, ◌-◌, ◌*◌, ◌/◌, ◌%◌, ◌^◌, ◌≤◌, ◌<◌, [], ◌∷◌, ◌++◌, Bool, true, false, ltb,
  length, length-append, replicate, all, ◌≡◌, refl, sym, ◌∙◌, arith, Bool-cases, inl, inr,
}
use native.Mathlib.Nat.{pow-suc, pow-zero, zero-add, suc-add, one-mul}
use mathlib.Core.List.{append-nil, append_assoc}
use mathlib.Core.Path.{subst}
use hypertron_api.Prelude.Text.{Text}
use hypertron_api.Amount.{is_digit, value_from, big_int, digits_from, to_string}

pub pow-add : (b k j : ℕ) → b ^ (k + j) ≡ b ^ k * b ^ j
pow-add b zero j = rw (zero-add, pow-zero, one-mul)
pow-add b (suc k) j = rw (suc-add, pow-suc, pow-suc, pow-add b k j) (omega arith)

pub value_from-append :
    (acc : ℕ) (s t : Text) → value_from acc (s ++ t) ≡ value_from (value_from acc s) t
unfolding value_from
value_from-append acc [] t = refl
value_from-append acc (c ∷ s) t = value_from-append (10 * acc + (c - b'0')) s t

pub value_from-acc : (acc : ℕ) (t : Text) → value_from acc t ≡ acc * 10 ^ length t + big_int t
unfolding value_from
value_from-acc acc [] = omega arith
value_from-acc acc (c ∷ t) =
    rw (pow-suc, value_from-acc (10 * acc + (c - b'0')) t, value_from-acc (10 * 0 + (c - b'0')) t)
      (omega arith)

-- Zeros at the end multiply by a power of ten.
pub value_from-zeros : (acc k : ℕ) → value_from acc (replicate k b'0') ≡ acc * 10 ^ k
unfolding value_from
value_from-zeros acc zero = omega arith
value_from-zeros acc (suc k) =
    rw (pow-suc, value_from-zeros (10 * acc + (b'0' - b'0')) k) (omega arith)

digit-le : (c : ℕ) → is_digit c ≡ true → c - b'0' ≤ 9
digit-le c h = ground arith

mul-le : (d p : ℕ) → d ≤ 9 → d * p ≤ 9 * p
mul-le d p h = grind arith

pub all-append :
    (s t : Text) → all is_digit s ≡ true → all is_digit t ≡ true → all is_digit (s ++ t) ≡ true
all-append [] t h k = k
all-append (c ∷ s) t h k = ground (arith, all-append s t)

pub all-zeros : (n : ℕ) → all is_digit (replicate n b'0') ≡ true
all-zeros zero = refl
all-zeros (suc n) = all-zeros n

pub big_int-lt : (t : Text) → all is_digit t ≡ true → big_int t < 10 ^ length t
unfolding value_from
big_int-lt [] h = omega arith
big_int-lt (c ∷ t) h =
    let d : c - b'0' ≤ 9 = digit-le c (ground arith) in
    rw (pow-suc, value_from-acc (10 * 0 + (c - b'0')) t)
      (omega (arith, big_int-lt t (ground arith), mul-le (c - b'0') (10 ^ length t) d))

abbrev pub first_nonzero : Text → Bool
first_nonzero [] = false
first_nonzero (c ∷ _) = ltb b'0' c

-- `ds` is the decimal text of `n`: no leading zero, and no longer than the number needs.
pub record Prints (ds : Text) (n : ℕ) : Type 0 where
  pub digits : all is_digit ds ≡ true
  pub value : big_int ds ≡ n
  pub short : (k : ℕ) → 0 < k → n < 10 ^ k → length ds ≤ k
  pub leading : 0 < n → first_nonzero ds ≡ true
  pub zero_text : n ≡ 0 → ds ≡ b'0' ∷ []

first_nonzero-append : (s t : Text) → first_nonzero s ≡ true → first_nonzero (s ++ t) ≡ true
first_nonzero-append [] t h = cc
first_nonzero-append (c ∷ s) t h = h

one_digit : (n : ℕ) → n < 10 → Prints ((b'0' + n) ∷ []) n
unfolding value_from
one_digit n h = record {
  digits = ground arith;
  value = omega arith;
  short = λ k p _. omega arith;
  leading = λ p. ground arith;
  zero_text = λ e. rw e;
}

tenth-lt : (n k : ℕ) → 10 ≤ n → n < 10 ^ k → (j : ℕ) × (k ≡ suc j) × (0 < j) × (n / 10 < 10 ^ j)
tenth-lt n zero h lt = absurd (omega arith)
tenth-lt n (suc zero) h lt = absurd (omega arith)
tenth-lt n (suc (suc j)) h lt = (
  suc j,
  refl,
  omega arith,
  (let b : n < 10 ^ suc j * 10 = rw (← pow-suc 10 (suc j)) lt in omega arith),
)

more_digits :
    (n : ℕ) (es : Text) → 10 ≤ n → Prints es (n / 10) → Prints (es ++ (b'0' + n % 10) ∷ []) n
unfolding value_from
more_digits n es h p = record {
  digits = all-append es ((b'0' + n % 10) ∷ []) p.digits (ground arith);
  value = rw (value_from-append, p.value) (omega arith);
  short = λ k q lt.
      (let (j, e, pos, lt') = tenth-lt n k h lt in
        omega (arith, p.short j pos lt', length-append es ((b'0' + n % 10) ∷ [])));
  leading = λ q. first_nonzero-append es _ (p.leading (omega arith));
  zero_text = λ e. absurd (omega arith);
}

digits_from-Prints :
    (f n : ℕ) (acc : Text) → n < f → (ds : Text) × (digits_from f n acc ≡ ds ++ acc) × Prints ds n
unfolding digits_from
digits_from-Prints zero n acc h = absurd (omega arith)
digits_from-Prints (suc f) n acc h = elim (Bool-cases (ltb n 10)) [
  | inl e ↦ ((b'0' + n) ∷ [], rw e, one_digit n (ground arith))
  | inr e ↦
      let (es, q, p) = digits_from-Prints f (n / 10) ((b'0' + n % 10) ∷ acc) (ground arith) in
      (
        es ++ (b'0' + n % 10) ∷ [],
        rw e (rw q (sym (append_assoc es _ acc))),
        more_digits n es (ground arith) p,
      )
]

pub to_string-Prints : (n : ℕ) → Prints (to_string n) n
unfolding to_string
to_string-Prints n =
    let (ds, e, p) = digits_from-Prints (suc n) n [] (omega arith) in
    subst (λ t. Prints t n) (sym (e ∙ append-nil ds)) p
