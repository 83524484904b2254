-- ===== src/Payments/StateMachine/Steps.antt =====
-- What every step of a call keeps (src/modules/payments/payment-state-machine.ts).
use hypertron_api.Prelude.{ℕ, zero, suc}
use hypertron_api.Store.Effects.{World}
use hypertron_api.Payments.StateMachine.{Call, Pc, begin, step, steps, transition}

-- What each step keeps, a call keeps.
module _ {κ} (P : World → Type κ)
    (keep : (c : Call) (pc : Pc) (w : World) → P w → P (step c pc w).1) where
  steps-keep : (n : ℕ) (c : Call) (pc : Pc) (w : World) → P w → P (steps n c pc w).1
  unfolding steps
  steps-keep zero c pc w h = h
  steps-keep (suc n) c pc w h = steps-keep n c (step c pc w).0 (step c pc w).1 (keep c pc w h)

  pub transition-keeps : (c : Call) (w : World) → P w → P (transition c w).1
  unfolding transition
  transition-keeps c w h = steps-keep 4 c begin w h
