-- ===== src/Amount/Padding.antt =====
-- Zeros put in front of a text of digits, and zeros taken off its end.
use hypertron_api.Prelude.{
  ℕ, suc, ◌-◌, ◌≤◌, [], ◌∷◌, ◌++◌, Bool, true, not, ◌==◌, length, length-append, replicate,
  length-replicate, all, ◌≡◌, refl, ap, arith, Bool-cases, inl, inr,
}
use native.Mathlib.Nat.{zero-mul}
use hypertron_api.Prelude.Text.{Text}
use hypertron_api.Amount.{is_digit, big_int, pad_start, keep, trim_zeros}
use hypertron_api.Amount.Digits.{value_from-append, value_from-zeros, all-append, all-zeros}

pub length-pad_start : (n : ℕ) (t : Text) → length t ≤ n → length (pad_start n t) ≡ n
length-pad_start n t h = omega (
  arith,
  length-append (replicate (n - length t) b'0') t,
  length-replicate {A = ℕ} (n - length t) b'0',
)

pub big_int-pad_start : (n : ℕ) (t : Text) → big_int (pad_start n t) ≡ big_int t
big_int-pad_start n t =
    rw (value_from-append 0 (replicate (n - length t) b'0') t, value_from-zeros 0 (n - length t))
      (rw zero-mul)

pub all-pad_start : (n : ℕ) (t : Text) → all is_digit t ≡ true → all is_digit (pad_start n t) ≡ true
all-pad_start n t h = all-append (replicate (n - length t) b'0') t (all-zeros (n - length t)) h

abbrev pub ends_nonzero : Text → Bool
ends_nonzero [] = true
ends_nonzero (c ∷ []) = not (c == b'0')
ends_nonzero (c ∷ d ∷ ds) = ends_nonzero (d ∷ ds)

-- What is taken off is zeros.
pub trim_zeros-append : (t : Text) → (k : ℕ) × (t ≡ trim_zeros t ++ replicate k b'0')
unfolding trim_zeros
trim_zeros-append [] = (0, refl)
trim_zeros-append (c ∷ cs) =
    let (k, e) = trim_zeros-append cs in keep_zeros c (trim_zeros cs) cs k e
  where
    keep_zeros :
        (c : ℕ) (r cs : Text) (k : ℕ)
        → cs ≡ r ++ replicate k b'0'
        → (j : ℕ) × (c ∷ cs ≡ keep c r ++ replicate j b'0')
    keep_zeros c [] cs k e = elim (Bool-cases (c == b'0')) [
      | inl z ↦ (suc k, ground (arith, e))
      | inr n ↦ (k, rw n (ap (λ t. c ∷ t) e))
    ]
    keep_zeros c (d ∷ ds) cs k e = (k, ap (λ t. c ∷ t) e)

pub ends_nonzero-trim_zeros : (t : Text) → ends_nonzero (trim_zeros t) ≡ true
unfolding trim_zeros
ends_nonzero-trim_zeros [] = refl
ends_nonzero-trim_zeros (c ∷ cs) = last_kept c (trim_zeros cs) (ends_nonzero-trim_zeros cs)
  where
    last_kept : (c : ℕ) (r : Text) → ends_nonzero r ≡ true → ends_nonzero (keep c r) ≡ true
    last_kept c [] h = ground arith
    last_kept c (d ∷ ds) h = h
