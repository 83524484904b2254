-- ===== src/Reconciler/Cron.antt =====
-- The two cron entries of the reconciler (src/modules/reconciler/reconciler.service.ts). The rows
-- are read once, before the loop; `inputs` gives each payment what its run gets from the outside.
pub mod Polls
pub mod Expiry
use hypertron_api.Prelude.{
  ℕ, ◌+◌, List, [], ◌∷◌, Bool, true, false, length, ◌&&◌, ◌||◌, leb, if◌then◌else◌, take,
}
use hypertron_api.Store.Tables.{PaymentStatus, Payment}
use hypertron_api.Store.Effects.{World, M, ◌>>=◌, ◌>>◌, return}
use hypertron_api.Stellar.Verifier.{StellarConfig, is_after}
use hypertron_api.Payments.Events.{status_eq}
use hypertron_api.Reconciler.{
  ReconcileOutcome, confirmed, completed, failed, expired, skipped, no_match, horizon_unavailable,
  ReconcileInput, expire_payment,
}
use hypertron_api.Reconciler.Runs.{reconcile_payment}

abbrev pub batch : ℕ
batch = 200

-- `findMany` with a filter.
unfoldable pub where_rows : (Payment → Bool) → List Payment → List Payment
where_rows f [] = []
where_rows f (p ∷ ps) = let rest = where_rows f ps in if f p then p ∷ rest else rest

-- `orderBy: { createdAt: 'asc' }`.
unfoldable pub insert_row : Payment → List Payment → List Payment
insert_row p [] = p ∷ []
insert_row p (q ∷ qs) =
    let rest = insert_row p qs in if leb p.created_at q.created_at then p ∷ q ∷ qs else q ∷ rest

unfoldable pub order_by_created : List Payment → List Payment
unfolding insert_row
order_by_created [] = []
order_by_created (p ∷ ps) = insert_row p (order_by_created ps)

-- `payment.expiresAt < now`.
abbrev pub is_overdue : ℕ → Payment → Bool
is_overdue now p = is_after now p.expires_at

unfoldable pub poll_one : StellarConfig → Payment → ReconcileInput → M ReconcileOutcome
poll_one c p i =
    if is_overdue i.now p then (do expire_payment p i; return expired) else reconcile_payment c p i

abbrev outcome_eq : ReconcileOutcome → ReconcileOutcome → Bool
outcome_eq confirmed confirmed = true
outcome_eq completed completed = true
outcome_eq failed failed = true
outcome_eq expired expired = true
outcome_eq skipped skipped = true
outcome_eq no_match no_match = true
outcome_eq horizon_unavailable horizon_unavailable = true
outcome_eq _ _ = false

-- `outcomes[o] = (outcomes[o] ?? 0) + 1`.
unfoldable pub bump : ReconcileOutcome → List (ReconcileOutcome × ℕ) → List (ReconcileOutcome × ℕ)
bump o [] = (o, 1) ∷ []
bump o ((x, n) ∷ outcomes) =
    let rest = bump o outcomes in if outcome_eq x o then (x, n + 1) ∷ outcomes else (x, n) ∷ rest

unfoldable pub poll_loop :
    StellarConfig
    → List Payment
    → (Payment → ReconcileInput)
    → List (ReconcileOutcome × ℕ)
    → M (List (ReconcileOutcome × ℕ))
unfolding poll_one bump
poll_loop c [] inputs outcomes = return outcomes
poll_loop c (p ∷ ps) inputs outcomes = do
  o ← poll_one c p (inputs p)
  poll_loop c ps inputs (bump o outcomes)

abbrev pub open_payments : World → List Payment
open_payments w =
    take batch
      (order_by_created (where_rows (λ p. status_eq p.status PaymentStatus.pending) w.payments))

pub record PollResult : Type 0 where
  pub processed : ℕ
  pub outcomes : List (ReconcileOutcome × ℕ)

unfoldable pub poll_open_payments : StellarConfig → (Payment → ReconcileInput) → M PollResult
unfolding poll_loop where_rows order_by_created
poll_open_payments c inputs w =
    let rows = open_payments w in
    (do
      outcomes ← poll_loop c rows inputs []
      return (record { processed = length rows; outcomes = outcomes }))
      w

-- `status in (created, pending) and expiresAt < now`.
abbrev pub can_expire : ℕ → Payment → Bool
can_expire now p =
    (status_eq p.status PaymentStatus.created || status_eq p.status PaymentStatus.pending)
    && is_overdue now p

abbrev pub overdue_payments : ℕ → World → List Payment
overdue_payments now w = take batch (where_rows (can_expire now) w.payments)

unfoldable pub expire_loop : List Payment → (Payment → ReconcileInput) → M ℕ
expire_loop [] inputs = return 0
expire_loop (p ∷ ps) inputs = do
  b ← expire_payment p (inputs p)
  n ← expire_loop ps inputs
  return (if b then n + 1 else n)

unfoldable pub expire_overdue_payments : ℕ → (Payment → ReconcileInput) → M ℕ
unfolding expire_loop where_rows
expire_overdue_payments now inputs w = expire_loop (overdue_payments now w) inputs w
