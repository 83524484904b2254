-- ===== src/Reconciler/Keeping.antt =====
-- What the steps after a transition leave alone (src/modules/reconciler/reconciler.service.ts).
use hypertron_api.Prelude.{List, ◌≡◌, ◌∙◌, refl, arith}
use hypertron_api.Store.Tables.{Payment}
use hypertron_api.Store.Effects.{World, Result, ok, err, handle_result, bind_result, return}
use hypertron_api.Store.Keeps.{Keeps, bind_result-Keeps}
use hypertron_api.Reconciler.{
  unless_transition, unless_conflict, sync_checkout_link, enqueue_finality_check,
  update_customer_aggregates,
}

abbrev pub payments_of : World → List Payment
payments_of w = w.payments

pub sync-Keeps : (p : Payment) (now : _) → Keeps payments_of (sync_checkout_link p now)
unfolding sync_checkout_link
sync-Keeps p now w = ground arith

pub aggregates-keep : (p : Payment) (now : _) → Keeps payments_of (update_customer_aggregates p now)
unfolding update_customer_aggregates
aggregates-keep p now w = ground arith

pub enqueue-Keeps : (c : _) (p : Payment) (q : _) → Keeps payments_of (enqueue_finality_check c p q)
unfolding enqueue_finality_check
enqueue-Keeps c p q w = ground arith

module _ {ℓ} {A : Type ℓ} where
  pub handled-keeps :
      (r : Result A × World) (a : A)
      → (handle_result r (unless_transition a)).1.payments ≡ r.1.payments
  handled-keeps (ok b, w) a = refl
  handled-keeps (err e, w) a = ground arith

  pub conflict-keeps :
      (r : Result A × World) (a : A)
      → (handle_result r (unless_conflict a)).1.payments ≡ r.1.payments
  conflict-keeps (ok b, w) a = refl
  conflict-keeps (err e, w) a = ground arith

-- The payments after a caught transition are those that the transition leaves.
pub caught-payments :
    {A : Type 0} {B : Type 0} (r : Result A × World) (a b : B)
    → (handle_result (bind_result r (λ _. return a)) (unless_transition b)).1.payments
      ≡ r.1.payments
caught-payments r a b =
    handled-keeps (bind_result r (λ _. return a)) b
    ∙ bind_result-Keeps payments_of r (λ _. return a) (λ _ w. refl)
