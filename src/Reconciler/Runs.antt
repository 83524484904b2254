-- ===== src/Reconciler/Runs.antt =====
-- The reconciliation of one payment, its finality check, and the two cron entries
-- (src/modules/reconciler/reconciler.service.ts).
pub mod Settled
pub mod Matched
pub mod Answers
use hypertron_api.Prelude.{
  ℕ, ◌+◌, String, List, [], ◌∷◌, Option, none, some, Bool, true, false, not, ◌&&◌, ◌||◌, ltb,
  str_eq, if◌then◌else◌, take,
}
use hypertron_api.Prelude.Text.{Text, codes}
use hypertron_api.Store.Tables.{PaymentStatus, Payment}
use hypertron_api.Store.Effects.{
  World, Error, other_error, Result, ok, err, M, ◌>>=◌, ◌>>◌, return, throw, catch,
}
use hypertron_api.Stellar.Horizon.{HorizonPaymentRecord}
use hypertron_api.Stellar.Verifier.{
  StellarConfig, PaymentMatchTarget, VerifyFailureCode, VerifyResult, matched, verify, is_after,
}
use hypertron_api.Payments.Events.{status_eq}
use hypertron_api.Payments.StateMachine.{
  TransactionData, to_confirmed, to_failed, to_completed, transition, find_payment,
}
use hypertron_api.Reconciler.{
  ReconcileOutcome, confirmed, completed, failed, expired, skipped, no_match, horizon_unavailable,
  ReconcileInput, call_of, is_some, truthy, load_foreign_hashes, hashes_of, unless_transition,
  unless_conflict, expire_payment, enqueue_finality_check, sync_checkout_link,
  update_customer_aggregates,
}

abbrev pub target_of : Payment → PaymentMatchTarget
target_of p = record {
  link_memo = p.link_memo;
  destination_address = p.destination_address;
  amount = p.amount;
  currency = p.currency;
  environment = p.environment;
  expires_at = p.expires_at;
}

abbrev pub transaction_of : HorizonPaymentRecord → TransactionData
transaction_of r = record {
  transaction_hash = r.transaction_hash;
  payer_address = r.from;
  asset_issuer = r.asset_issuer;
}

-- `toFailed` with the code that is stored.
abbrev pub fail_payment : Payment → ReconcileInput → String → Text → M ReconcileOutcome
fail_payment p i code message =
    catch (do transition (call_of p (to_failed code message) i); return failed)
      (unless_transition skipped)

-- `!result.ok`.
unfoldable pub on_mismatch :
    Payment → ReconcileInput → VerifyFailureCode → Text → M ReconcileOutcome
on_mismatch p i VerifyFailureCode.no_match m = return no_match
on_mismatch p i VerifyFailureCode.duplicate_hash m = return skipped
on_mismatch p i VerifyFailureCode.expired m = do expire_payment p i; return expired
on_mismatch p i VerifyFailureCode.wrong_asset m = fail_payment p i "wrong_asset" m
on_mismatch p i VerifyFailureCode.wrong_issuer m = fail_payment p i "wrong_asset" m
on_mismatch p i VerifyFailureCode.insufficient_amount m = fail_payment p i "insufficient_amount" m
on_mismatch p i VerifyFailureCode.wrong_amount m = fail_payment p i "wrong_amount" m
on_mismatch p i _ m = return no_match

-- A match: confirm, mark the link paid, and enqueue the check of finality.
unfoldable pub on_match :
    StellarConfig → Payment → ReconcileInput → HorizonPaymentRecord → M ReconcileOutcome
on_match c p i r =
    catch
      (do
        q ← transition (call_of p (to_confirmed (transaction_of r)) i)
        sync_checkout_link q i.now
        enqueue_finality_check c q i.queue
        return confirmed)
      (unless_conflict skipped)

-- What the verifier says; a throw of its comparison is not caught.
unfoldable pub on_verified :
    StellarConfig → Payment → ReconcileInput → Option VerifyResult → M ReconcileOutcome
on_verified c p i none = throw (other_error "decimal")
on_verified c p i (some (matched r)) = on_match c p i r
on_verified c p i (some (VerifyResult.failed code m r)) = on_mismatch p i code m

abbrev pub verdict :
    StellarConfig → Payment → List HorizonPaymentRecord → World → Option VerifyResult
verdict c p records w =
    verify c (target_of p) records (load_foreign_hashes (hashes_of records) p.id w.payments)

abbrev pub on_listed :
    StellarConfig
    → Payment
    → ReconcileInput
    → Result (List HorizonPaymentRecord)
    → M ReconcileOutcome
on_listed c p i (err e) w = (ok horizon_unavailable, w)
on_listed c p i (ok records) w = on_verified c p i (verdict c p records w) w

unfoldable pub reconcile_payment : StellarConfig → Payment → ReconcileInput → M ReconcileOutcome
reconcile_payment c p i w =
    if not (status_eq p.status PaymentStatus.pending) || is_some (truthy p.transaction_hash)
    then (ok skipped, w)
    else on_listed c p i i.listed w

-- `getTransaction`: the circuit is open, another throw, no such transaction, or whether it was
-- successful.
pub data Finality : Type 0 where
  circuit_open missing : Finality
  lookup_failed : Error → Finality
  found : (successful : Bool) → Finality

unfoldable pub complete_payment : Payment → ReconcileInput → M ReconcileOutcome
complete_payment p i =
    catch
      (do
        q ← transition (call_of p to_completed i)
        sync_checkout_link q i.now
        update_customer_aggregates q i.now
        return completed)
      (unless_transition skipped)

unfoldable pub on_finality : Payment → ReconcileInput → Finality → M ReconcileOutcome
on_finality p i circuit_open = return horizon_unavailable
on_finality p i (lookup_failed e) = throw e
on_finality p i (found true) = complete_payment p i
on_finality p i _ =
    fail_payment p i "tx_unsuccessful" (codes "Transaction no longer successful at finality check")

-- `finality` is what Horizon says of the hash.
finalize_row : Option Payment → (String → Finality) → ReconcileInput → M ReconcileOutcome
finalize_row none finality i = return skipped
finalize_row (some p) finality i =
    if status_eq p.status PaymentStatus.completed
    then return completed
    else if not (status_eq p.status PaymentStatus.confirmed)
    then return skipped
    else elim (truthy p.transaction_hash) [
      | none ↦ return skipped
      | some h ↦ on_finality p i (finality h)
    ]

unfoldable pub finalize_payment : String → (String → Finality) → ReconcileInput → M ReconcileOutcome
unfolding finalize_row
finalize_payment id finality i w = finalize_row (find_payment id w) finality i w
