-- ===== src/Tests/Horizon.antt =====
-- Examples for the circuit breaker, the retries, the verifier and the reconciler.
use hypertron_api.Prelude.{
  String, ℕ, zero, suc, List, [], ◌∷◌, none, some, true, ◌≡◌, ◌≢◌, ◌⊎◌, ◌↔◌, refl, arith, all, All,
}
use hypertron_api.Prelude.Text.{codes}
use hypertron_api.Store.Tables.{PaymentStatus, Payment, test, usdc}
use hypertron_api.Store.Effects.{World, ok, find_by, update_by}
use hypertron_api.Payments.Events.{emit}
use hypertron_api.Payments.StateMachine.{step, update_many, transition}
use hypertron_api.Stellar.CircuitBreaker.{
  CircuitBreaker, CircuitBreakerOptions, new, closed, opened, half_open, resolved, rejected, exec,
  circuit_open,
}
use hypertron_api.Stellar.CircuitBreaker.States.{
  here, next, settles, IsValid, Reach-IsValid, fail_all, fail_all_opens, admissions,
  half_open_admissions, Probed, exec_probe,
}
use hypertron_api.Stellar.Horizon.{HorizonPaymentRecord, Outcome, Rejection, with_retry}
use hypertron_api.Stellar.Horizon.Retry.{EndsAt, with_retry-EndsAt}
use hypertron_api.Stellar.Verifier.{
  PaymentMatchTarget, VerifyResult, VerifyFailureCode, check_record, verify, has,
}
use hypertron_api.Stellar.Verifier.Matching.{
  Matches, IsFirstHit, passes, check_record_iff, verify_iff, verify_codes,
}
use hypertron_api.Reconciler.{
  ReconcileOutcome, ReconcileInput, truthy, load_foreign_hashes, hashes_of,
}
use hypertron_api.Reconciler.Runs.{Finality, target_of, reconcile_payment, finalize_payment}
use hypertron_api.Reconciler.Runs.Settled.{finalize_payment-again}
use hypertron_api.Reconciler.Runs.Matched.{reconcile_payment-Matches}
use hypertron_api.Reconciler.Hashes.{has-load_foreign_hashes}
use hypertron_api.Tests.Fixtures.{invoice, one_payment, emit_input, stellar}

abbrev breaker : CircuitBreaker
breaker = record {
  state = closed;
  failures = 1;
  opened_at = 0;
  failure_threshold = 3;
  reset_timeout_ms = 1000;
}

abbrev open_breaker : CircuitBreaker
open_breaker = record breaker { state = opened; failures = 3; opened_at = 50 }

Reach-IsValid_example :
    IsValid (hypertron_api.Stellar.CircuitBreaker.settle {A = Unit {0}} (rejected 9) breaker)
Reach-IsValid_example =
    Reach-IsValid (next here (settles (rejected 9) breaker))
      (record { positive = omega arith; below = λ _. omega arith })

fail_all_opens_example :
    let c = fail_all (7 ∷ []) breaker in
    (c.state ≡ closed)
    × ((exec {A = Unit {0}} 9 (rejected 9) c).1.state ≡ opened)
    × ((exec {A = Unit {0}} 9 (rejected 9) c).1.opened_at ≡ 9)
fail_all_opens_example = fail_all_opens (7 ∷ []) 9 breaker refl refl

half_open_admissions_example :
    admissions (1 ∷ 2 ∷ 3 ∷ []) (record breaker { state = half_open }) ≡ 3
half_open_admissions_example =
    half_open_admissions (1 ∷ 2 ∷ 3 ∷ []) (record breaker { state = half_open }) refl

exec_probe_example :
    Probed (rejected 2000) (exec {A = Unit {0}} 1500 (rejected 2000) open_breaker).1
exec_probe_example = exec_probe 1500 (rejected 2000) open_breaker refl (omega arith)

-- A time-out, then an answer.
abbrev answers : ℕ → Outcome ℕ
answers zero = Outcome.thrown (Rejection.error (codes "Request timed out after 10000ms") none)
answers (suc k) = Outcome.ok k

with_retry-EndsAt_example : (last : ℕ) × EndsAt 3 0 answers (with_retry answers) last
with_retry-EndsAt_example = with_retry-EndsAt answers

abbrev target : PaymentMatchTarget
target = target_of invoice

abbrev paid : HorizonPaymentRecord
paid = record {
  id = "o1";
  transaction_hash = "h1";
  from = "GPAYER";
  to = codes "GDEST";
  amount = codes "10.5000000";
  asset_type = "credit_alphanum4";
  asset_code = some "USDC";
  asset_issuer = some "GTEST";
  created_at = 400;
  memo = some "hpl_1";
  memo_type = some "text";
  successful = true;
}

abbrev other : HorizonPaymentRecord
other = record paid { transaction_hash = "h0"; memo = some "hpl_9" }

check_record_iff_example :
    (check_record stellar target paid [] ≡ some (VerifyResult.matched paid))
    ↔ Matches stellar target [] paid
check_record_iff_example = check_record_iff stellar target [] paid

verify_iff_example :
    (verify stellar target (other ∷ paid ∷ []) [] ≡ some (VerifyResult.matched paid))
    ↔ (IsFirstHit stellar target [] (other ∷ paid ∷ []) paid × Matches stellar target [] paid)
verify_iff_example = verify_iff stellar target [] (other ∷ paid ∷ []) paid

verify_codes_example :
    (VerifyFailureCode.no_match ≢ VerifyFailureCode.tx_unsuccessful)
    × (VerifyFailureCode.no_match ≢ VerifyFailureCode.memo_mismatch)
    × (((VerifyFailureCode.no_match ≡ VerifyFailureCode.no_match)
          × (all (passes stellar target []) (other ∷ []) ≡ true))
        ⊎ ((VerifyFailureCode.no_match ≢ VerifyFailureCode.no_match)
            × (r : HorizonPaymentRecord) × IsFirstHit stellar target [] (other ∷ []) r
            × (none ≡ some r)))
unfolding verify
verify_codes_example =
    verify_codes stellar target [] (other ∷ []) VerifyFailureCode.no_match
      (codes "No Horizon payment matched this link memo") none refl

abbrev input : ReconcileInput
input = record {
  listed = ok (other ∷ paid ∷ []);
  now = 450;
  emit_input = emit_input;
  queue = hypertron_api.Payments.Events.Queue.up;
}

abbrev linked : World
linked = record one_payment {
  checkout_links =
      record {
        id = "l1";
        public_id = "cl_1";
        business_id = "shop";
        environment = test;
        amount = codes "10.5";
        currency = usdc;
        description = none;
        link_memo = "hpl_1";
        destination_address = codes "GDEST";
        expires_at = 5000;
        paid_at = none;
        payment_tx_hash = none;
      }
      ∷ [];
}

abbrev attributed : Payment
attributed = record invoice {
  status = PaymentStatus.confirmed;
  transaction_hash = some "h1";
  payer_address = some "GPAYER";
  asset_issuer = some "GTEST";
  paid_at = some 450;
  updated_at = 450;
}

reconcile_payment-Matches_example :
    (invoice.status ≡ PaymentStatus.pending)
    × (truthy invoice.transaction_hash ≡ none)
    × (rs : List HorizonPaymentRecord) × (r : HorizonPaymentRecord) × (input.listed ≡ ok rs)
    × IsFirstHit stellar target (load_foreign_hashes (hashes_of rs) "p1" linked.payments) rs r
    × Matches stellar target (load_foreign_hashes (hashes_of rs) "p1" linked.payments) r
    × (attributed.transaction_hash ≡ some r.transaction_hash)
    × All (λ q. (q.id ≡ "p1") ⊎ (q.transaction_hash ≢ some r.transaction_hash)) linked.payments
unfolding reconcile_payment hypertron_api.Reconciler.Runs.on_verified
    hypertron_api.Reconciler.Runs.on_match transition step update_many find_by update_by emit
    hypertron_api.Reconciler.sync_checkout_link hypertron_api.Reconciler.enqueue_finality_check
    load_foreign_hashes verify check_record hypertron_api.Stellar.Verifier.expected_issuer
    hypertron_api.Amount.compare_decimal_strings hypertron_api.Amount.decimal_string_regex
    hypertron_api.Amount.decimal_places hypertron_api.Amount.index_of hypertron_api.Amount.scale
    hypertron_api.Amount.value_from hypertron_api.Amount.split
    hypertron_api.Payments.StateMachine.hash_taken hypertron_api.Payments.StateMachine.steps
reconcile_payment-Matches_example =
    reconcile_payment-Matches invoice invoice attributed linked refl (ground arith) refl stellar
      input refl

-- Of two hashes that are asked for, one belongs to another payment.
has-load_foreign_hashes_example :
    has
      (load_foreign_hashes
        ("h1" ∷ "h2" ∷ [])
        "p1"
        (attributed ∷ record attributed { id = "p2"; transaction_hash = some "h2" } ∷ []))
      "h2"
    ≡ true
has-load_foreign_hashes_example =
    has-load_foreign_hashes ("h1" ∷ "h2" ∷ []) "p1"
      (attributed ∷ record attributed { id = "p2"; transaction_hash = some "h2" } ∷ []) "h2"

abbrev confirmed_world : World
confirmed_world = record linked {
  payments =
      record invoice {
        status = PaymentStatus.confirmed;
        transaction_hash = some "h1";
        paid_at = some 450;
      }
      ∷ [];
}

abbrev still_there : String → Finality
still_there h = Finality.found true

abbrev finalized : World
finalized = (finalize_payment "p1" still_there input confirmed_world).1

finalize_payment-again_example :
    finalize_payment "p1" (λ h. Finality.missing) (record input { now = 900 }) finalized
    ≡ (ok ReconcileOutcome.completed, finalized)
unfolding finalize_payment hypertron_api.Reconciler.Runs.on_finality
    hypertron_api.Reconciler.Runs.complete_payment transition step update_many find_by update_by
    emit hypertron_api.Reconciler.sync_checkout_link
    hypertron_api.Reconciler.update_customer_aggregates
    hypertron_api.Payments.StateMachine.hash_taken
finalize_payment-again_example =
    finalize_payment-again "p1" still_there (λ h. Finality.missing) input
      (record input { now = 900 }) confirmed_world refl
