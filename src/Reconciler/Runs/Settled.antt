-- ===== src/Reconciler/Runs/Settled.antt =====
-- What a finality check that completes a payment leaves, and what a later check then does.
use hypertron_api.Prelude.{
  String, Option, none, some, true, false, ◌≡◌, refl, sym, ◌∙◌, ap, ◌≢◌, inl, inr, arith,
  Option-cases, Bool-cases,
}
use mathlib.Core.Path.{subst}
use hypertron_api.Prelude.Text.{codes}
use hypertron_api.Store.Tables.{PaymentStatus, Payment}
use hypertron_api.Store.Effects.{
  World, Error, Result, ok, err, M, bind_result, handle_result, ◌>>◌, return, find_by, find_by-key,
}
use hypertron_api.Store.Keeps.{Keeps, Keeps-then}
use hypertron_api.Payments.Events.{status_eq}
use hypertron_api.Payments.StateMachine.{find_payment, Call, transition, to_completed}
use hypertron_api.Payments.StateMachine.Calls.{Returns, transition-Returns}
use hypertron_api.Reconciler.{
  ReconcileOutcome, completed, skipped, ReconcileInput, call_of, truthy, unless_transition,
  sync_checkout_link, update_customer_aggregates,
}
use hypertron_api.Reconciler.Keeping.{payments_of, sync-Keeps, aggregates-keep, handled-keeps}
use hypertron_api.Reconciler.Runs.{
  fail_payment, Finality, on_finality, found, complete_payment, finalize_payment, finalize_row,
}

after_transition-Keeps :
    (q : Payment) (i : ReconcileInput)
    → Keeps payments_of
        (sync_checkout_link q i.now >> (update_customer_aggregates q i.now >> return completed))
after_transition-Keeps q i =
    Keeps-then payments_of (sync_checkout_link q i.now)
      (update_customer_aggregates q i.now >> return completed) (sync-Keeps q i.now)
      (Keeps-then payments_of (update_customer_aggregates q i.now) (return completed)
        (aggregates-keep q i.now) (λ w. refl))

handled-completed : (e : Error) (w : World) → (unless_transition skipped e w).0 ≢ ok completed
handled-completed e w = ground arith

-- A finality check that completes leaves the row completed.
complete_payment-row :
    (p : Payment) (i : ReconcileInput) (w : World) (r : Result Payment × World)
    → transition (call_of p to_completed i) w ≡ r
    → (complete_payment p i w).0 ≡ ok completed
    → (q : Payment) × (r.0 ≡ ok q) × ((complete_payment p i w).1.payments ≡ r.1.payments)
unfolding complete_payment
complete_payment-row p i w (err e, w') t h = ground (
  arith,
  handled-completed e w',
  subst
      (λ r.
        (handle_result
          (bind_result r (λ q.
            sync_checkout_link q i.now >> (update_customer_aggregates q i.now >> return completed)))
          (unless_transition skipped)).0
        ≡ ok completed)
      t h,
)
complete_payment-row p i w (ok q, w') t h = (
  q,
  refl,
  rw t (
      handled-keeps
        ((sync_checkout_link q i.now >> (update_customer_aggregates q i.now >> return completed))
          w')
        skipped
      ∙ after_transition-Keeps q i w'),
)

abbrev IsCompleted : String → World → Type 0
IsCompleted id w =
    (q : Payment) × (find_payment id w ≡ some q) × (q.status ≡ PaymentStatus.completed)

complete_payment-IsCompleted :
    (p : Payment) (i : ReconcileInput) (w : World)
    → (complete_payment p i w).0 ≡ ok completed
    → IsCompleted p.id (complete_payment p i w).1
complete_payment-IsCompleted p i w h =
    let call : Call = call_of p to_completed i in
    let (q, e, same) = complete_payment-row p i w (transition call w) refl h in
    let r : Returns call w q = transition-Returns call w q e in
    (q, ap (λ ps. find_by (λ x. x.id) p.id ps) same ∙ r.stored, ap (λ x. x.status) r.result)

fail-completed :
    (p : Payment) (i : ReconcileInput) (k : String) (m : _) (w : World)
    → (fail_payment p i k m w).0 ≢ ok completed
fail-completed p i k m w = ground arith

on_finality-IsCompleted :
    (p : Payment) (i : ReconcileInput) (f : Finality) (w : World)
    → (on_finality p i f w).0 ≡ ok completed
    → IsCompleted p.id (on_finality p i f w).1
unfolding on_finality
on_finality-IsCompleted p i (found true) w h = complete_payment-IsCompleted p i w h
on_finality-IsCompleted p i (found false) w h = ground (
  arith,
  fail-completed p i "tx_unsuccessful" (codes "Transaction no longer successful at finality check")
      w,
)
on_finality-IsCompleted p i Finality.missing w h = ground (
  arith,
  fail-completed p i "tx_unsuccessful" (codes "Transaction no longer successful at finality check")
      w,
)
on_finality-IsCompleted p i Finality.circuit_open w h = ground arith
on_finality-IsCompleted p i (Finality.lookup_failed e) w h = ground arith

finalize_row-IsCompleted :
    (id : String) (o : Option Payment) (finality : String → Finality) (i : ReconcileInput)
    (w : World)
    → find_payment id w ≡ o
    → (finalize_row o finality i w).0 ≡ ok completed
    → IsCompleted id (finalize_row o finality i w).1
unfolding finalize_row
finalize_row-IsCompleted id none finality i w e h = ground arith
finalize_row-IsCompleted id (some p) finality i w e h =
    elim (Bool-cases (status_eq p.status PaymentStatus.completed)) [
      | inl t ↦ rw t (p, e, ground (arith, t))
      | inr n ↦ elim (Bool-cases (status_eq p.status PaymentStatus.confirmed)) [
        | inr m ↦ ground (arith, n, m)
        | inl t ↦ elim (Option-cases (truthy p.transaction_hash)) [
          | inl k ↦ ground (arith, n, t, k)
          | inr (g, k) ↦
              let same : finalize_row (some p) finality i w ≡ on_finality p i (finality g) w =
                rw (n, t)
                  (ap
                    (λ o.
                      (elim o as (λ _. M ReconcileOutcome) [
                        | none ↦ return skipped
                        | some j ↦ on_finality p i (finality j)
                      ])
                        w)
                    k) in
              rw same (
                subst (λ j. IsCompleted j (on_finality p i (finality g) w).1)
                  (find_by-key (λ x. x.id) id w.payments {r = p} e)
                  (on_finality-IsCompleted p i (finality g) w (ap (λ r. r.0) (sym same) ∙ h)))
        ]
      ]
    ]

finalize-found_completed :
    (id : String) (o : Option Payment) (finality : String → Finality) (i : ReconcileInput)
    (w : World) (q : Payment)
    → o ≡ some q
    → q.status ≡ PaymentStatus.completed
    → finalize_row o finality i w ≡ (ok completed, w)
unfolding finalize_row
finalize-found_completed id o finality i w q e h = rw e (ground (arith, h))

-- A finality check that answers `completed` settles the payment: any later check of it answers
-- `completed` and changes nothing, the customer's totals included.
pub finalize_payment-again :
    (id : String) (finality finality' : String → Finality) (i i' : ReconcileInput) (w : World)
    → (finalize_payment id finality i w).0 ≡ ok completed
    → finalize_payment id finality' i' (finalize_payment id finality i w).1
      ≡ (ok completed, (finalize_payment id finality i w).1)
unfolding finalize_payment
finalize_payment-again id finality finality' i i' w h =
    let (q, row, done) = finalize_row-IsCompleted id (find_payment id w) finality i w refl h in
    finalize-found_completed id _ finality' i' (finalize_payment id finality i w).1 q row done
