-- ===== src/Reconciler/Runs/Matched.antt =====
-- What a run of the reconciler over one payment has found where it confirms the payment.
use hypertron_api.Prelude.{
  String, List, [], ◌∷◌, Option, none, some, Bool, true, false, not, ◌||◌, eq_iff, All, ◌≡◌, refl,
  ◌∙◌, ap, ◌≢◌, ◌⊎◌, ◌↔◌, inl, inr, arith, Option-cases, Bool-cases,
}
use hypertron_api.Prelude.Text.{Text}
use hypertron_api.Store.Tables.{PaymentStatus, Payment}
use hypertron_api.Store.Effects.{World, Result, ok, err, return, find_by}
use hypertron_api.Store.Keeps.{Keeps-then, bind_result-Keeps}
use hypertron_api.Stellar.Horizon.{HorizonPaymentRecord}
use hypertron_api.Stellar.Verifier.{StellarConfig, VerifyResult, VerifyFailureCode, matched}
use hypertron_api.Stellar.Verifier.Matching.{Matches, IsFirstHit, verify_iff}
use hypertron_api.Payments.Events.{status_eq}
use hypertron_api.Payments.StateMachine.{
  Transition, TransactionData, to_status, to_expired, to_failed, to_confirmed, find_payment,
  transition, hash_taken,
}
use hypertron_api.Payments.StateMachine.Race.{updated-status}
use hypertron_api.Payments.StateMachine.Calls.{transition-row}
use hypertron_api.Reconciler.{
  ReconcileOutcome, confirmed, skipped, ReconcileInput, call_of, is_some, truthy,
  load_foreign_hashes, hashes_of, sync_checkout_link, enqueue_finality_check, expire_payment,
}
use hypertron_api.Reconciler.Keeping.{
  payments_of, sync-Keeps, enqueue-Keeps, conflict-keeps, caught-payments,
}
use hypertron_api.Reconciler.Runs.{
  target_of, transaction_of, fail_payment, on_mismatch, on_match, on_verified, verdict, on_listed,
  reconcile_payment,
}

abbrev pub is_skipped : Payment → Bool
is_skipped p = not (status_eq p.status PaymentStatus.pending) || is_some (truthy p.transaction_hash)

not_skipped :
    (p : Payment)
    → is_skipped p ≡ false
    → (p.status ≡ PaymentStatus.pending) × (truthy p.transaction_hash ≡ none)
not_skipped p h = ground arith

pub opened :
    (c : StellarConfig) (p : Payment) (i : ReconcileInput) (w : World)
    → is_skipped p ≡ false
    → reconcile_payment c p i w ≡ on_listed c p i i.listed w
unfolding reconcile_payment
opened c p i w f = rw f refl

pub on_match-payments :
    (p : Payment) (w : World) (c : StellarConfig) (i : ReconcileInput) (r : HorizonPaymentRecord)
    → (on_match c p i r w).1.payments
      ≡ (transition (call_of p (to_confirmed (transaction_of r)) i) w).1.payments
unfolding on_match
on_match-payments p w c i r =
    let m : Result Payment × World = transition (call_of p (to_confirmed (transaction_of r)) i) w in
    conflict-keeps _ skipped
    ∙ bind_result-Keeps payments_of m _ (λ q.
      Keeps-then payments_of (sync_checkout_link q i.now) _ (sync-Keeps q i.now) (
        Keeps-then payments_of (enqueue_finality_check c q i.queue) (return confirmed)
          (enqueue-Keeps c q i.queue) (λ v. refl)))

-- The unique index lets a confirmation through exactly if no row of another payment has its hash.
free_iff :
    (tx : TransactionData) (k : String) (ps : List Payment)
    → (hash_taken (to_confirmed tx) k ps ≡ false)
      ↔ All (λ q. (q.id ≡ k) ⊎ (q.transaction_hash ≢ some tx.transaction_hash)) ps
unfolding hash_taken
free_iff tx k [] = ground arith
free_iff tx k (q ∷ ps) = elim (Option-cases q.transaction_hash) [
  | inl n ↦ ground (arith, n, eq_iff q.id k, free_iff tx k ps)
  | inr (g, e) ↦ ground (arith, e, eq_iff q.id k, eq_iff g tx.transaction_hash, free_iff tx k ps)
]

module _ (p before after : Payment) (w : World) (found : find_payment p.id w ≡ some before)
    (unconfirmed : before.status ≢ PaymentStatus.confirmed)
    (done : after.status ≡ PaymentStatus.confirmed) where
  -- The row is not confirmed where the payments are the same, or a transition elsewhere has run.
  same_row : (v : World) → v.payments ≡ w.payments → find_payment p.id v ≢ some after
  same_row v e h = ground (arith, ap (λ ps. find_by (λ x. x.id) p.id ps) e, found)

  moved_elsewhere :
      (t : Transition) (i : ReconcileInput) (v : World)
      → to_status t ≢ PaymentStatus.confirmed
      → v.payments ≡ (transition (call_of p t i) w).1.payments
      → find_payment p.id v ≢ some after
  moved_elsewhere t i v n e h = ground (
    arith,
    ap (λ ps. find_by (λ x. x.id) p.id ps) e,
    transition-row (call_of p t i) w before found,
    updated-status t i.now before,
  )

  failed_row :
      (i : ReconcileInput) (k : String) (m : Text)
      → find_payment p.id (fail_payment p i k m w).1 ≢ some after
  failed_row i k m =
      moved_elsewhere (to_failed k m) i (fail_payment p i k m w).1 (ground arith) (
        caught-payments (transition (call_of p (to_failed k m) i) w) ReconcileOutcome.failed
          skipped)

  expired_row :
      (i : ReconcileInput)
      → find_payment p.id (on_mismatch p i VerifyFailureCode.expired [] w).1 ≢ some after
  unfolding on_mismatch expire_payment
  expired_row i =
      moved_elsewhere to_expired i (on_mismatch p i VerifyFailureCode.expired [] w).1 (ground arith)
        (bind_result-Keeps payments_of (expire_payment p i w) (λ _. return ReconcileOutcome.expired)
            (λ _ v. refl)
          ∙ caught-payments (transition (call_of p to_expired i) w) true false)

  on_mismatch-row :
      (i : ReconcileInput) (k : VerifyFailureCode) (m : Text)
      → find_payment p.id (on_mismatch p i k m w).1 ≢ some after
  unfolding on_mismatch
  on_mismatch-row i VerifyFailureCode.wrong_asset m = failed_row i "wrong_asset" m
  on_mismatch-row i VerifyFailureCode.wrong_issuer m = failed_row i "wrong_asset" m
  on_mismatch-row i VerifyFailureCode.insufficient_amount m = failed_row i "insufficient_amount" m
  on_mismatch-row i VerifyFailureCode.wrong_amount m = failed_row i "wrong_amount" m
  on_mismatch-row i VerifyFailureCode.expired m = expired_row i
  on_mismatch-row i _ m = same_row w refl

  -- No row of another payment has the hash.
  abbrev IsNew : HorizonPaymentRecord → Type 0
  IsNew r = All (λ q. (q.id ≡ p.id) ⊎ (q.transaction_hash ≢ some r.transaction_hash)) w.payments

  on_match-row :
      (c : StellarConfig) (i : ReconcileInput) (r : HorizonPaymentRecord)
      → find_payment p.id (on_match c p i r w).1 ≡ some after
      → (after.transaction_hash ≡ some r.transaction_hash) × IsNew r
  on_match-row c i r h =
      elim (transition-row (call_of p (to_confirmed (transaction_of r)) i) w before found) [
        | inl e ↦
            ground (arith, ap (λ ps. find_by (λ x. x.id) p.id ps) (on_match-payments p w c i r))
        | inr (free, e) ↦ (
          ground (arith, ap (λ ps. find_by (λ x. x.id) p.id ps) (on_match-payments p w c i r)),
          (free_iff (transaction_of r) p.id w.payments).0 free,
        )
      ]

  on_verified-row :
      (c : StellarConfig) (i : ReconcileInput) (o : Option VerifyResult)
      → find_payment p.id (on_verified c p i o w).1 ≡ some after
      → (r : HorizonPaymentRecord) × (o ≡ some (matched r))
        × (after.transaction_hash ≡ some r.transaction_hash)
        × IsNew r
  unfolding on_verified
  on_verified-row c i none h = absurd (same_row w refl h)
  on_verified-row c i (some (matched r)) h =
      let (hash, new) = on_match-row c i r h in (r, refl, hash, new)
  on_verified-row c i (some (VerifyResult.failed k m r)) h = absurd (on_mismatch-row i k m h)

  on_listed-row :
      (c : StellarConfig) (i : ReconcileInput) (o : Result (List HorizonPaymentRecord))
      → find_payment p.id (on_listed c p i o w).1 ≡ some after
      → (rs : List HorizonPaymentRecord) × (r : HorizonPaymentRecord) × (o ≡ ok rs)
        × (verdict c p rs w ≡ some (matched r))
        × (after.transaction_hash ≡ some r.transaction_hash)
        × IsNew r
  on_listed-row c i (err e) h = absurd (same_row w refl h)
  on_listed-row c i (ok rs) h =
      let (r, e, hash, new) = on_verified-row c i (verdict c p rs w) h in
      (rs, r, refl, e, hash, new)

  -- A payment becomes confirmed only on a match. Where the stored row is not confirmed before a run
  -- and is after it, the payment that was read is pending with no hash or an empty one, and Horizon's
  -- answer holds a record that is the first successful one under the payment's memo, that pays the
  -- payment in every respect, whose hash the row then carries, and whose hash no row of another
  -- payment had.
  pub reconcile_payment-Matches :
      (c : StellarConfig) (i : ReconcileInput)
      → find_payment p.id (reconcile_payment c p i w).1 ≡ some after
      → (p.status ≡ PaymentStatus.pending)
        × (truthy p.transaction_hash ≡ none)
        × (rs : List HorizonPaymentRecord) × (r : HorizonPaymentRecord) × (i.listed ≡ ok rs)
        × IsFirstHit c (target_of p) (load_foreign_hashes (hashes_of rs) p.id w.payments) rs r
        × Matches c (target_of p) (load_foreign_hashes (hashes_of rs) p.id w.payments) r
        × (after.transaction_hash ≡ some r.transaction_hash)
        × All (λ q. (q.id ≡ p.id) ⊎ (q.transaction_hash ≢ some r.transaction_hash)) w.payments
  unfolding reconcile_payment
  reconcile_payment-Matches c i h = elim (Bool-cases (is_skipped p)) [
    | inl t ↦ absurd (same_row (reconcile_payment c p i w).1 (rw t refl) h)
    | inr f ↦
        let (pending, no_hash) = not_skipped p f in
        let (rs, r, answer, e, hash, new) =
          on_listed-row c i i.listed (rw (← opened c p i w f) h) in
        let (first, matches) =
          (verify_iff c (target_of p) (load_foreign_hashes (hashes_of rs) p.id w.payments) rs r).0
            e in
        (pending, no_hash, rs, r, answer, first, matches, hash, new)
  ]
