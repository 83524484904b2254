-- ===== src/Reconciler/Cron/Polls.antt =====
-- Which payments a poll takes, and what its tally counts.
use hypertron_api.Prelude.{
  ℕ, suc, ◌+◌, List, [], ◌∷◌, leb, All, length, ◌≤◌, ◌≡◌, refl, arith, Bool-cases, inl, inr,
}
use hypertron_api.Store.Tables.{Payment}
use hypertron_api.Store.Effects.{World, Result, ok, err, M, bind_result, return}
use hypertron_api.Stellar.Verifier.{StellarConfig}
use hypertron_api.Reconciler.{ReconcileOutcome, ReconcileInput}
use hypertron_api.Reconciler.Cron.{
  insert_row, order_by_created, bump, poll_one, poll_loop, open_payments, PollResult,
  poll_open_payments,
}

-- The oldest first.
abbrev pub IsOrdered : List Payment → Type 0
IsOrdered [] = Unit
IsOrdered (p ∷ ps) = All (λ q. p.created_at ≤ q.created_at) ps × IsOrdered ps

All-insert_row :
    (n : ℕ) (p : Payment) (ps : List Payment)
    → n ≤ p.created_at
    → All (λ q. n ≤ q.created_at) ps
    → All (λ q. n ≤ q.created_at) (insert_row p ps)
unfolding insert_row
All-insert_row n p [] h a = (h, tt)
All-insert_row n p (q ∷ qs) h (b, a) = elim (Bool-cases (leb p.created_at q.created_at)) [
  | inl t ↦ rw (insert_row, t) (h, (b, a))
  | inr f ↦ rw (insert_row, f) (b, All-insert_row n p qs h a)
]

All-above :
    (m n : ℕ) (ps : List Payment)
    → m ≤ n
    → All (λ q. n ≤ q.created_at) ps
    → All (λ q. m ≤ q.created_at) ps
All-above m n [] h a = tt
All-above m n (q ∷ qs) h (b, a) = (omega arith, All-above m n qs h a)

insert_row-IsOrdered :
    (p : Payment) (ps : List Payment) → IsOrdered ps → IsOrdered (insert_row p ps)
unfolding insert_row
insert_row-IsOrdered p [] h = (tt, tt)
insert_row-IsOrdered p (q ∷ qs) (a, h) = elim (Bool-cases (leb p.created_at q.created_at)) [
  | inl t ↦
      let le : p.created_at ≤ q.created_at = ground (arith, t) in
      rw (insert_row, t) ((le, All-above p.created_at q.created_at qs le a), (a, h))
  | inr f ↦
      rw (insert_row, f)
        (All-insert_row q.created_at p qs (ground (arith, f)) a, insert_row-IsOrdered p qs h)
]

-- The rows of a poll are sorted before the first two hundred are taken.
pub order_by_created-IsOrdered : (ps : List Payment) → IsOrdered (order_by_created ps)
unfolding order_by_created
order_by_created-IsOrdered [] = tt
order_by_created-IsOrdered (p ∷ ps) =
    insert_row-IsOrdered p (order_by_created ps) (order_by_created-IsOrdered ps)

abbrev total : List (ReconcileOutcome × ℕ) → ℕ
total [] = 0
total ((_, n) ∷ outcomes) = n + total outcomes

total-bump :
    (o : ReconcileOutcome) (outcomes : List (ReconcileOutcome × ℕ))
    → total (bump o outcomes) ≡ suc (total outcomes)
unfolding bump
total-bump o [] = refl
total-bump o ((x, n) ∷ outcomes) = ground (arith, total-bump o outcomes)

bind-total :
    {A : Type 0} (r : Result A × World) (f : A → M (List (ReconcileOutcome × ℕ)))
    (t : List (ReconcileOutcome × ℕ)) (n : ℕ)
    → ((a : A) (v : World) → (f a v).0 ≡ ok t → total t ≡ n)
    → (bind_result r f).0 ≡ ok t
    → total t ≡ n
bind-total (ok a, v) f t n k h = k a v h
bind-total (err e, v) f t n k h = ground arith

total-poll_loop :
    (c : StellarConfig) (ps : List Payment) (inputs : Payment → ReconcileInput)
    (outcomes t : List (ReconcileOutcome × ℕ)) (w : World)
    → (poll_loop c ps inputs outcomes w).0 ≡ ok t
    → total t ≡ length ps + total outcomes
unfolding poll_loop
total-poll_loop c [] inputs outcomes t w h = ground arith
total-poll_loop c (p ∷ ps) inputs outcomes t w h =
    bind-total (poll_one c p (inputs p) w) _ t (length (p ∷ ps) + total outcomes)
      (λ o v e.
        omega (arith, total-poll_loop c ps inputs (bump o outcomes) t v e, total-bump o outcomes))
      h

tallied :
    (o : Result (List (ReconcileOutcome × ℕ)) × World) (n : ℕ) (r : PollResult)
    → ((t : List (ReconcileOutcome × ℕ)) → o.0 ≡ ok t → total t ≡ n)
    → (bind_result o (λ t. return (record { processed = n; outcomes = t }))).0 ≡ ok r
    → total r.outcomes ≡ r.processed
tallied (ok t, w) n r k h = ground (arith, k t refl, h)
tallied (err e, w) n r k h = ground arith

-- The tally of a poll that returns adds up to the number of payments that it has processed.
pub total-poll_open_payments :
    (c : StellarConfig) (inputs : Payment → ReconcileInput) (w : World) (r : PollResult)
    → (poll_open_payments c inputs w).0 ≡ ok r
    → total r.outcomes ≡ r.processed
unfolding poll_open_payments
total-poll_open_payments c inputs w r h =
    tallied (poll_loop c (open_payments w) inputs [] w) (length (open_payments w)) r
      (λ t e. omega (arith, total-poll_loop c (open_payments w) inputs [] t w e)) h
