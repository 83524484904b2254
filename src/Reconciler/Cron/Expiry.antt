-- ===== src/Reconciler/Cron/Expiry.antt =====
-- What a run of the expiry cron leaves of the payments that it takes.
use hypertron_api.Prelude.{
  ℕ, String, List, [], ◌∷◌, Option, none, some, Bool, true, false, not, ◌||◌, ◌&&◌, ltb, All,
  filter, take, any, eq_iff, ◌≡◌, refl, sym, ap, ◌∙◌, inl, inr, arith, Option-cases, Bool-cases,
}
use mathlib.Core.Path.{subst}
use hypertron_api.Store.Tables.{PaymentStatus, Payment}
use hypertron_api.Store.Effects.{World, Result, ok, err, unique_violation, bind_result, find_by, M}
use hypertron_api.Payments.Events.{status_eq, is_event_of}
use hypertron_api.Payments.StateMachine.{
  to_expired, allowed_from, includes, find_payment, Call, Pc, step, transition, hash_taken,
}
use hypertron_api.Payments.StateMachine.Race.{step-row, step-missing, updated-status}
use hypertron_api.Payments.StateMachine.Calls.{
  refuses, transition_refused, transition_logged, transition_done,
}
use hypertron_api.Payments.StateMachine.Steps.{transition-keeps}
use hypertron_api.Reconciler.{ReconcileInput, call_of, expire_payment}
use hypertron_api.Reconciler.Keeping.{caught-payments}
use hypertron_api.Reconciler.Cron.{
  where_rows, can_expire, overdue_payments, expire_loop, expire_overdue_payments,
}

-- A row that is neither created nor pending, or is not there.
abbrev pub is_closed : Option Payment → Bool
is_closed none = true
is_closed (some q) =
    not (status_eq q.status PaymentStatus.created || status_eq q.status PaymentStatus.pending)

abbrev pub IsClosed : String → World → Type 0
IsClosed k w = is_closed (find_payment k w) ≡ true

step-IsClosed :
    (k : String) (c : Call) (pc : Pc) (w : World) → IsClosed k w → IsClosed k (step c pc w).1
step-IsClosed k c pc w h = elim (Option-cases (find_payment k w)) [
  | inl n ↦ rw (step-missing c pc w k n) refl
  | inr (p, e) ↦ ground (arith, e, step-row c pc w k p e, updated-status c.move c.now p)
]

transition-IsClosed :
    (k : String) (c : Call) (w : World) → IsClosed k w → IsClosed k (transition c w).1
transition-IsClosed k c w h = transition-keeps (IsClosed k) (step-IsClosed k) c w h

module _ (p : Payment) (i : ReconcileInput) (w : World) where
  expire-payments :
      (expire_payment p i w).1.payments ≡ (transition (call_of p to_expired i) w).1.payments
  unfolding expire_payment
  expire-payments = caught-payments (transition (call_of p to_expired i) w) true false

  expire-find :
      (k : String)
      → find_payment k (expire_payment p i w).1
        ≡ find_payment k (transition (call_of p to_expired i) w).1
  expire-find k = ap (λ ps. find_by (λ q. q.id) k ps) expire-payments

  expire_payment-IsClosed : (k : String) → IsClosed k w → IsClosed k (expire_payment p i w).1
  expire_payment-IsClosed k h =
      rw (expire-find k) (transition-IsClosed k (call_of p to_expired i) w h)

  expire-refused :
      refuses to_expired (find_payment p.id w) ≡ true → IsClosed p.id (expire_payment p i w).1
  expire-refused h = elim (Option-cases (find_payment p.id w)) [
    | inl n ↦
        rw (expire-find p.id) (ground (arith, n, transition_refused (call_of p to_expired i) w))
    | inr (q, e) ↦
        rw (expire-find p.id) (ground (arith, e, transition_refused (call_of p to_expired i) w))
  ]

  logged-throws :
      (transition (call_of p to_expired i) w).0 ≡ err unique_violation
      → (expire_payment p i w).0 ≡ err unique_violation
  unfolding expire_payment
  logged-throws h = rw h refl

  expire-allowed :
      (q : Payment) (b : Bool)
      → find_payment p.id w ≡ some q
      → includes (allowed_from PaymentStatus.expired) q.status ≡ true
      → (expire_payment p i w).0 ≡ ok b
      → IsClosed p.id (expire_payment p i w).1
  unfolding hash_taken
  expire-allowed q b e a h =
      elim (Bool-cases (any (is_event_of p.id PaymentStatus.expired) w.events)) [
        | inl l ↦
            ground
              (arith, logged-throws (transition_logged (call_of p to_expired i) w q e a refl l))
        | inr first ↦
            let (_, row, _) = transition_done (call_of p to_expired i) w q e a refl p.id first in
            rw (expire-find p.id) (ground (arith, row, eq_iff p.id p.id))
      ]

  -- An expiry that returns, whether it has expired the row or not, leaves it closed.
  expire_payment-closes :
      (b : Bool) → (expire_payment p i w).0 ≡ ok b → IsClosed p.id (expire_payment p i w).1
  expire_payment-closes b h = elim (Option-cases (find_payment p.id w)) [
    | inl e ↦ expire-refused (ground (arith, e))
    | inr (q, e) ↦ elim (Bool-cases (includes (allowed_from PaymentStatus.expired) q.status)) [
      | inl a ↦ expire-allowed q b e a h
      | inr n ↦ expire-refused (ground (arith, e, n))
    ]
  ]

bind-IsClosed :
    {A B : Type 0} (k : String) (r : Result A × World) (f : A → M B)
    → IsClosed k r.1
    → ((a : A) (v : World) → IsClosed k v → IsClosed k (f a v).1)
    → IsClosed k (bind_result r f).1
bind-IsClosed k (ok a, v) f h g = g a v h
bind-IsClosed k (err e, v) f h g = h

-- A bind that returns: its first part has returned as well.
bind-returns :
    {A B : Type 0} (r : Result A × World) (f : A → M B) (b : B)
    → (bind_result r f).0 ≡ ok b
    → (a : A) × (r.0 ≡ ok a) × (bind_result r f ≡ f a r.1)
bind-returns (ok a, w) f b h = (a, refl, refl)
bind-returns (err e, w) f b h = ground arith

expire_loop-IsClosed :
    (k : String) (ps : List Payment) (inputs : Payment → ReconcileInput) (w : World)
    → IsClosed k w
    → IsClosed k (expire_loop ps inputs w).1
unfolding expire_loop
expire_loop-IsClosed k [] inputs w h = h
expire_loop-IsClosed k (p ∷ ps) inputs w h =
    bind-IsClosed k (expire_payment p (inputs p) w) _ (expire_payment-IsClosed p (inputs p) w k h)
      (λ b v g.
        bind-IsClosed k (expire_loop ps inputs v) _ (expire_loop-IsClosed k ps inputs v g)
          (λ n u j. j))

expire_loop-closes :
    (ps : List Payment) (inputs : Payment → ReconcileInput) (w : World) (n : ℕ)
    → (expire_loop ps inputs w).0 ≡ ok n
    → All (λ p. IsClosed p.id (expire_loop ps inputs w).1) ps
unfolding expire_loop
expire_loop-closes [] inputs w n h = tt
expire_loop-closes (p ∷ ps) inputs w n h =
    let (b, first, e) = bind-returns (expire_payment p (inputs p) w) _ n h in
    let v : World = (expire_payment p (inputs p) w).1 in
    let (m, others, f) = bind-returns (expire_loop ps inputs v) _ n (ap (λ r. r.0) (sym e) ∙ h) in
    let same : (expire_loop (p ∷ ps) inputs w).1 ≡ (expire_loop ps inputs v).1 =
      ap (λ r. r.1) e ∙ ap (λ r. r.1) f in
    subst (λ u. IsClosed p.id u × All (λ q. IsClosed q.id u) ps) (sym same)
      (
        expire_loop-IsClosed p.id ps inputs v (expire_payment-closes p (inputs p) w b first),
        expire_loop-closes ps inputs v m others,
      )

-- A payment that is created or pending, and whose expiry is before `now`.
abbrev pub is_due : ℕ → Payment → Bool
is_due now p = not (is_closed (some p)) && elim p.expires_at [ none ↦ false | some t ↦ ltb t now ]

can_expire-is_due : (now : ℕ) (p : Payment) → can_expire now p ≡ is_due now p
can_expire-is_due now p = ground arith

where_rows-filter :
    (now : ℕ) (ps : List Payment) → where_rows (can_expire now) ps ≡ filter (is_due now) ps
unfolding where_rows
where_rows-filter now [] = refl
where_rows-filter now (p ∷ ps) = ground (arith, can_expire-is_due now p, where_rows-filter now ps)

-- A run of the expiry cron that returns leaves the first two hundred payments that were created or
-- pending with an expiry before `now` in another state: none of them is created or pending any more,
-- whether the run has expired it or has found it settled.
pub expire_overdue_payments-closes :
    (now : ℕ) (inputs : Payment → ReconcileInput) (w : World) (n : ℕ)
    → (expire_overdue_payments now inputs w).0 ≡ ok n
    → All
        (λ p. is_closed (find_payment p.id (expire_overdue_payments now inputs w).1) ≡ true)
        (take 200 (filter (is_due now) w.payments))
unfolding expire_overdue_payments
expire_overdue_payments-closes now inputs w n h =
    rw (← where_rows-filter now w.payments)
      (expire_loop-closes (overdue_payments now w) inputs w n h)
