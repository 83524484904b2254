-- ===== src/Stellar/Horizon/Retry.antt =====
-- What a retried request does, and what the records of a page say of native payments.
use hypertron_api.Prelude.{
  ℕ, zero, suc, ◌+◌, ◌≤◌, ◌<◌, Bool, true, false, not, ◌||◌, ◌≡◌, ◌⊎◌, inl, inr, refl, arith,
  Bool-cases, if◌then◌else◌,
}
use mathlib.Core.Path.{subst, ◌∙◌, ap}
use native.Mathlib.Nat.{add-zero}
use hypertron_api.Stellar.Horizon.{
  Rejection, is_retryable, is_circuit_open, Outcome, ok, thrown, Trace, retry_loop, with_retry,
  max_retries,
}

-- An outcome after which the request is made again, if attempts are left.
abbrev pub retries {ℓ} : {A : Type ℓ} → Outcome A → Bool
retries (ok a) = false
retries (thrown e) = if is_circuit_open e || not (is_retryable e) then false else true

-- The loop ends at attempt `last`, counted from the first: every earlier one was worth a retry, and
-- this one was not, or was the final one.
pub record EndsAt {ℓ} {A : Type ℓ} (left first : ℕ) (fn : ℕ → Outcome A) (tr : Trace A) (last : ℕ)
    : Type ℓ where
  pub within : last ≤ left
  pub calls : tr.calls ≡ suc last
  pub outcome : tr.outcome ≡ fn (first + last)
  pub earlier : (j : ℕ) → j < last → retries (fn (first + j)) ≡ true
  pub ends : (last ≡ left) ⊎ (retries (fn (first + last)) ≡ false)

Outcome-cases {ℓ} :
    {A : Type ℓ} (o : Outcome A) → ((a : A) × (o ≡ ok a)) ⊎ ((e : Rejection) × (o ≡ thrown e))
Outcome-cases (ok a) = inl (a, refl)
Outcome-cases (thrown e) = inr (e, refl)

module _ {ℓ} {A : Type ℓ} (fn : ℕ → Outcome A) where
  stop :
      (left first : ℕ) (tr : Trace A)
      → tr.calls ≡ 1
      → tr.outcome ≡ fn first
      → (0 ≡ left) ⊎ (retries (fn first) ≡ false)
      → EndsAt left first fn tr 0
  stop left first tr c o e = record {
    within = omega arith;
    calls = c;
    outcome = rw add-zero o;
    earlier = λ j h. absurd (omega arith);
    ends = rw add-zero e;
  }

  go_on :
      (left first last : ℕ) (again tr : Trace A)
      → retries (fn first) ≡ true
      → tr.calls ≡ again.calls + 1
      → tr.outcome ≡ again.outcome
      → EndsAt left (first + 1) fn again last
      → EndsAt (suc left) first fn tr (suc last)
  go_on left first last again tr r c o e = record {
    within = omega (arith, e.within);
    calls = omega (arith, e.calls);
    outcome = o ∙ e.outcome ∙ ap fn (omega arith);
    earlier = λ j h. earlier_attempt j h;
    ends = elim e.ends [
      | inl x ↦ inl (omega arith)
      | inr y ↦ inr (subst (λ k. retries (fn k) ≡ false) (omega arith) y)
    ];
  }
    where
      earlier_attempt : (j : ℕ) → j < suc last → retries (fn (first + j)) ≡ true
      earlier_attempt zero h = rw add-zero r
      earlier_attempt (suc j) h =
          subst (λ k. retries (fn k) ≡ true) (omega arith) (e.earlier j (omega arith))

  retry_loop-EndsAt :
      (left first : ℕ) → (last : ℕ) × EndsAt left first fn (retry_loop left first fn) last
  unfolding retry_loop
  retry_loop-EndsAt zero first = (0, stop 0 first _ refl refl (inl refl))
  retry_loop-EndsAt (suc left) first = elim (Outcome-cases (fn first)) [
    | inl (a, e) ↦
        (0, stop (suc left) first _ (rw (e, retry_loop)) (rw (e, retry_loop)) (inr (rw e)))
    | inr (x, e) ↦ elim (Bool-cases (is_circuit_open x || not (is_retryable x))) [
      | inl s ↦ (
        0,
        stop (suc left) first _ (rw (e, retry_loop) (rw s)) (rw (e, retry_loop) (rw s))
            (inr (rw e (rw s))),
      )
      | inr s ↦
          let (last, again) = retry_loop-EndsAt left (first + 1) in
          (
            suc last,
            go_on left first last _ _ (rw e (rw s)) (rw (e, retry_loop) (rw s))
                (rw (e, retry_loop) (rw s)) again,
          )
    ]
  ]

  -- A retried request ends at its first success, at its first rejection that is not worth a retry,
  -- or at the fourth attempt; it settles as that attempt did, and made no call after it.
  pub with_retry-EndsAt : (last : ℕ) × EndsAt max_retries 0 fn (with_retry fn) last
  unfolding with_retry
  with_retry-EndsAt = retry_loop-EndsAt max_retries 0

  -- A retried request sleeps seven seconds at most in all.
  pub with_retry-slept : (with_retry fn).slept ≤ 7000
  unfolding with_retry
  with_retry-slept = ground arith
