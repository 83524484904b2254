-- ===== src/Tests/Cron.antt =====
-- Examples for the cron entries: one payment whose time is over.
use hypertron_api.Prelude.{[], ◌∷◌, take, filter, All, ◌≡◌, true, refl}
use hypertron_api.Store.Effects.{ok}
use hypertron_api.Payments.Events.{Queue}
use hypertron_api.Payments.StateMachine.{find_payment}
use hypertron_api.Reconciler.{ReconcileOutcome, ReconcileInput}
use hypertron_api.Reconciler.Cron.{poll_open_payments, expire_overdue_payments}
use hypertron_api.Reconciler.Cron.Expiry.{is_closed, is_due, expire_overdue_payments-closes}
use hypertron_api.Tests.Fixtures.{emit_input, one_payment, stellar}

abbrev late : ReconcileInput
late = record { listed = ok []; now = 6000; emit_input = emit_input; queue = Queue.up }

polled_late :
    (poll_open_payments stellar (λ p. late) one_payment).0
    ≡ ok (record { processed = 1; outcomes = (ReconcileOutcome.expired, 1) ∷ [] })
unfolding poll_open_payments hypertron_api.Reconciler.expire_payment
    hypertron_api.Payments.StateMachine.transition hypertron_api.Store.Effects.find_by
    hypertron_api.Payments.StateMachine.update_many hypertron_api.Store.Effects.update_by
    hypertron_api.Payments.Events.emit
polled_late = refl

expire_overdue_payments-closes_example :
    All
      (λ p.
        is_closed (find_payment p.id (expire_overdue_payments 6000 (λ p. late) one_payment).1)
        ≡ true)
      (take 200 (filter (is_due 6000) one_payment.payments))
unfolding expire_overdue_payments hypertron_api.Reconciler.expire_payment
    hypertron_api.Payments.StateMachine.transition hypertron_api.Store.Effects.find_by
    hypertron_api.Payments.StateMachine.update_many hypertron_api.Store.Effects.update_by
    hypertron_api.Payments.Events.emit
expire_overdue_payments-closes_example =
    expire_overdue_payments-closes 6000 (λ p. late) one_payment 1 refl
