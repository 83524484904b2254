-- ===== src/Payments/StateMachine/Race/History.antt =====
-- What a row goes through under any schedule of calls.
use hypertron_api.Prelude.{ℕ, String, some, true, ◌≡◌, inl, inr, arith}
use hypertron_api.Store.Tables.{PaymentStatus, Payment}
use hypertron_api.Store.Effects.{find_by-append}
use hypertron_api.Payments.StateMachine.{
  to_status, allowed_from, includes, updated, find_payment, Transition,
}
use hypertron_api.Payments.StateMachine.Race.{step-row}
use hypertron_api.Payments.StateMachine.Race.Schedule.{
  System, Move, runs, arrives, inserts, Reach, here, next,
}

-- A walk in the diagram of the allowed transitions.
pub data Follows (s : PaymentStatus) : PaymentStatus → Type 0 where
  same : Follows s s
  edge :
      {t : PaymentStatus} (u : PaymentStatus)
      → Follows s t
      → includes (allowed_from u) t ≡ true
      → Follows s u

-- The invoice itself: what the merchant asked for and where the money goes.
pub record SameInvoice (p q : Payment) : Type 0 where
  pub amount : q.amount ≡ p.amount
  pub currency : q.currency ≡ p.currency
  pub business_id : q.business_id ≡ p.business_id
  pub environment : q.environment ≡ p.environment
  pub destination_address : q.destination_address ≡ p.destination_address
  pub link_memo : q.link_memo ≡ p.link_memo
  pub expires_at : q.expires_at ≡ p.expires_at

abbrev pub Becomes : Payment → Payment → Type 0
Becomes p q = Follows p.status q.status × SameInvoice p q

updated-SameInvoice :
    (t : Transition) (now : ℕ) (p q : Payment) → SameInvoice p q → SameInvoice p (updated t now q)
updated-SameInvoice t now p q h = ground arith

Move-Becomes :
    {s u : System} (pid : String) (p q : Payment)
    → Move s u
    → find_payment pid s.world ≡ some q
    → Becomes p q
    → (r : Payment) × (find_payment pid u.world ≡ some r) × Becomes p r
Move-Becomes {s} pid p q (runs i c pc e) h (f, k) = elim (step-row c pc s.world pid q h) [
  | inl stays ↦ (q, stays, (f, k))
  | inr (allowed, moves) ↦ (
    updated c.move c.now q,
    moves,
    (edge (to_status c.move) f allowed, updated-SameInvoice c.move c.now p q k),
  )
]
Move-Becomes {s} pid p q (arrives c) h b = (q, h, b)
Move-Becomes {s} pid p q (inserts n e k) h b =
    (q, ground (arith, h, find_by-append (λ x. x.id) pid s.world.payments n), b)

-- However the calls interleave, a row that is there stays there, its status has gone along allowed
-- transitions only, and amount, currency, owner, environment, destination, memo and expiry are
-- those it had.
pub Reach-Becomes :
    {s u : System} (pid : String) (p : Payment)
    → Reach s u
    → find_payment pid s.world ≡ some p
    → (q : Payment) × (find_payment pid u.world ≡ some q) × Becomes p q
Reach-Becomes pid p here h = (p, h, (same, ground arith))
Reach-Becomes pid p (next r m) h =
    let (q, k, b) = Reach-Becomes pid p r h in Move-Becomes pid p q m k b
