-- ===== src/Reconciler/Runs/Answers.antt =====
-- What a run of the reconciler over one payment leaves where it answers `confirmed`.
use hypertron_api.Prelude.{
  List, Option, none, some, ◌≡◌, refl, ◌∙◌, ap, ◌≢◌, inl, inr, arith, Bool-cases,
}
use mathlib.Core.Path.{subst}
use hypertron_api.Prelude.Text.{Text}
use hypertron_api.Store.Tables.{PaymentStatus, Payment}
use hypertron_api.Store.Effects.{
  World, Error, Result, ok, err, bind_result, handle_result, ◌>>◌, return, find_by,
}
use hypertron_api.Stellar.Horizon.{HorizonPaymentRecord}
use hypertron_api.Stellar.Verifier.{StellarConfig, VerifyResult, VerifyFailureCode, matched}
use hypertron_api.Payments.StateMachine.{to_confirmed, find_payment, Call, transition}
use hypertron_api.Payments.StateMachine.Calls.{Returns, transition-Returns}
use hypertron_api.Reconciler.{
  confirmed, skipped, ReconcileInput, call_of, unless_conflict, sync_checkout_link,
  enqueue_finality_check,
}
use hypertron_api.Reconciler.Runs.{
  transaction_of, on_mismatch, on_match, on_verified, verdict, on_listed, reconcile_payment,
}
use hypertron_api.Reconciler.Runs.Matched.{is_skipped, opened, on_match-payments}

handled-confirmed : (e : Error) (w : World) → (unless_conflict skipped e w).0 ≢ ok confirmed
handled-confirmed e w = ground arith

module _ (c : StellarConfig) (p : Payment) (i : ReconcileInput) where
  -- The stored row was pending in `w` and is confirmed in `v`.
  abbrev IsConfirming : World → World → Type 0
  IsConfirming w v =
      (before : Payment) × (after : Payment) × (find_payment p.id w ≡ some before)
      × (before.status ≡ PaymentStatus.pending)
      × (find_payment p.id v ≡ some after)
      × (after.status ≡ PaymentStatus.confirmed)

  on_match-returns :
      (r : HorizonPaymentRecord) (w : World) (t : Result Payment × World)
      → transition (call_of p (to_confirmed (transaction_of r)) i) w ≡ t
      → (on_match c p i r w).0 ≡ ok confirmed
      → (q : Payment) × (t.0 ≡ ok q)
  unfolding on_match
  on_match-returns r w (ok q, w') e h = (q, refl)
  on_match-returns r w (err x, w') e h = ground (
    arith,
    handled-confirmed x w',
    subst
        (λ t.
          (handle_result
            (bind_result t (λ q.
              sync_checkout_link q i.now
              >> (enqueue_finality_check c q i.queue >> return confirmed)))
            (unless_conflict skipped)).0
          ≡ ok confirmed)
        e h,
  )

  on_match-IsConfirming :
      (r : HorizonPaymentRecord) (w : World)
      → (on_match c p i r w).0 ≡ ok confirmed
      → IsConfirming w (on_match c p i r w).1
  on_match-IsConfirming r w h =
      let call : Call = call_of p (to_confirmed (transaction_of r)) i in
      let (q, e) = on_match-returns r w (transition call w) refl h in
      let t : Returns call w q = transition-Returns call w q e in
      let pending : t.row.status ≡ PaymentStatus.pending = ground (arith, t.allowed) in
      (
        t.row,
        q,
        t.found,
        pending,
        ap (λ ps. find_by (λ x. x.id) p.id ps) (on_match-payments p w c i r) ∙ t.stored,
        ap (λ x. x.status) t.result,
      )

  on_mismatch-confirmed :
      (k : VerifyFailureCode) (m : Text) (w : World) → (on_mismatch p i k m w).0 ≢ ok confirmed
  unfolding on_mismatch
  on_mismatch-confirmed k m w = ground arith

  on_verified-IsConfirming :
      (o : Option VerifyResult) (w : World)
      → (on_verified c p i o w).0 ≡ ok confirmed
      → IsConfirming w (on_verified c p i o w).1
  unfolding on_verified
  on_verified-IsConfirming none w h = ground arith
  on_verified-IsConfirming (some (matched r)) w h = on_match-IsConfirming r w h
  on_verified-IsConfirming (some (VerifyResult.failed k m r)) w h =
      absurd (on_mismatch-confirmed k m w h)

  on_listed-IsConfirming :
      (o : Result (List HorizonPaymentRecord)) (w : World)
      → (on_listed c p i o w).0 ≡ ok confirmed
      → IsConfirming w (on_listed c p i o w).1
  on_listed-IsConfirming (err e) w h = ground arith
  on_listed-IsConfirming (ok rs) w h = on_verified-IsConfirming (verdict c p rs w) w h

-- A run that answers `confirmed` has found the stored row pending, and leaves it confirmed.
pub reconcile_payment-confirmed :
    (c : StellarConfig) (p : Payment) (i : ReconcileInput) (w : World)
    → (reconcile_payment c p i w).0 ≡ ok confirmed
    → (before : Payment) × (after : Payment) × (find_payment p.id w ≡ some before)
      × (before.status ≡ PaymentStatus.pending)
      × (find_payment p.id (reconcile_payment c p i w).1 ≡ some after)
      × (after.status ≡ PaymentStatus.confirmed)
unfolding reconcile_payment
reconcile_payment-confirmed c p i w h = elim (Bool-cases (is_skipped p)) [
  | inl t ↦ ground (arith, t)
  | inr f ↦
      let e : reconcile_payment c p i w ≡ on_listed c p i i.listed w = opened c p i w f in
      rw e (on_listed-IsConfirming c p i i.listed w (rw (← e) h))
]
