-- ===== src/Reconciler.antt =====
-- src/modules/reconciler/reconciler.service.ts: payments driven from what Horizon reports. What the
-- outside answers (Horizon, the clock, the queue service) is an argument; metrics and the log are
-- left out.
pub mod Runs
pub mod Cron
pub mod Hashes
pub mod Keeping
use hypertron_api.Prelude.{
  ℕ, ◌+◌, String, List, [], ◌∷◌, Option, none, some, Bool, true, false, not, ◌&&◌, ◌||◌, str_eq,
  str_append, if◌then◌else◌, take,
}
use hypertron_api.Prelude.Text.{Text, codes}
use hypertron_api.Store.Tables.{
  PaymentStatus, PaymentCurrency, usdc, Payment, CheckoutLink, Customer, Job, finality_check,
}
use hypertron_api.Store.Effects.{
  World, Error, other_error, Result, ok, err, M, ◌>>=◌, ◌>>◌, return, throw, catch, find_by,
  update_by,
}
use hypertron_api.Amount.{add_decimal_strings}
use hypertron_api.Stellar.Horizon.{HorizonPaymentRecord}
use hypertron_api.Stellar.Verifier.{
  StellarConfig, PaymentMatchTarget, VerifyFailureCode, VerifyResult, matched, verify,
}
use hypertron_api.Payments.Events.{status_eq, Queue, EmitInput, add_job}
use hypertron_api.Payments.StateMachine.{
  Transition, to_confirmed, to_failed, to_completed, to_expired, Call, transition, find_payment,
}

pub data ReconcileOutcome : Type 0 where
  confirmed completed failed expired skipped no_match horizon_unavailable : ReconcileOutcome

-- What the outside gives to one run over a payment: Horizon's answer, the wall clock, what the
-- transition's event gets, and the state of the queue service.
pub record ReconcileInput : Type 0 where
  pub listed : Result (List HorizonPaymentRecord)
  pub now : ℕ
  pub emit_input : EmitInput
  pub queue : Queue

abbrev pub call_of : Payment → Transition → ReconcileInput → Call
call_of p t i = record { payment_id = p.id; move = t; now = i.now; emit_input = i.emit_input }

abbrev pub is_some {ℓ} : {A : Type ℓ} → Option A → Bool
is_some none = false
is_some (some _) = true

-- A hash as a condition reads it: the empty one counts as none.
abbrev pub truthy : Option String → Option String
truthy none = none
truthy (some h) = if str_eq h "" then none else some h

-- The hashes of `hashes` that a payment other than `exclude` carries.
abbrev pub contains : List String → String → Bool
contains [] s = false
contains (h ∷ hs) s = if str_eq h s then true else contains hs s

unfoldable pub load_foreign_hashes : List String → String → List Payment → List String
load_foreign_hashes hashes exclude [] = []
load_foreign_hashes hashes exclude (p ∷ ps) =
    let rest = load_foreign_hashes hashes exclude ps in
    elim (truthy p.transaction_hash) [
      | none ↦ rest
      | some h ↦ if contains hashes h && not (str_eq p.id exclude) then h ∷ rest else rest
    ]

abbrev pub hashes_of : List HorizonPaymentRecord → List String
hashes_of [] = []
hashes_of (r ∷ rs) = r.transaction_hash ∷ hashes_of rs

-- `catch (err) { if (err instanceof StateTransitionException) return ...; throw err; }`.
abbrev pub unless_transition {ℓ} : {A : Type ℓ} → A → Error → M A
unless_transition a (Error.state_transition from to) = return a
unless_transition a e = throw e

-- The same, where a unique violation is skipped as well.
abbrev pub unless_conflict {ℓ} : {A : Type ℓ} → A → Error → M A
unless_conflict a Error.unique_violation = return a
unless_conflict a e = unless_transition a e

unfoldable pub expire_payment : Payment → ReconcileInput → M Bool
expire_payment p i =
    catch (do transition (call_of p to_expired i); return true) (unless_transition false)

unfoldable pub enqueue_finality_check : StellarConfig → Payment → Queue → M (Unit {0})
enqueue_finality_check c p Queue.absent w = (ok tt, w)
enqueue_finality_check c p Queue.up w = (
  ok tt,
  record w {
    jobs = add_job (finality_check (str_append "finality_" p.id) p.id c.finality_delay_ms) w.jobs;
  },
)
enqueue_finality_check c p Queue.down w = (err (other_error "queue"), w)

abbrev or_now : Option ℕ → ℕ → ℕ
or_now none now = now
or_now (some t) now = t

-- `checkoutLink.update`, which throws where the row is missing.
unfoldable pub sync_checkout_link : Payment → ℕ → M (Unit {0})
sync_checkout_link p now w =
    if str_eq p.checkout_link_id "" || not (is_some (truthy p.transaction_hash))
    then (ok tt, w)
    else if is_some (find_by (λ l. l.id) p.checkout_link_id w.checkout_links)
    then (
      ok tt,
      record w {
        checkout_links =
            update_by (λ l. l.id) p.checkout_link_id
              (λ l. record l {
                payment_tx_hash = p.transaction_hash;
                paid_at = some (or_now p.paid_at now);
              })
              w.checkout_links;
      },
    )
    else (err (other_error "P2025"), w)

-- `customer.lifetimeValue || '0'`.
abbrev or_zero : Text → Text
or_zero [] = codes "0"
or_zero v = v

abbrev pub counted : Payment → ℕ → Text → Customer → Customer
counted p now lifetime q = record q {
  payment_count = q.payment_count + 1;
  last_payment_at = some (or_now p.completed_at now);
  lifetime_value = lifetime;
}

-- The new lifetime value, none where the addition throws: only USDC counts.
abbrev pub lifetime : PaymentCurrency → Text → Text → Option Text
lifetime usdc old amount = add_decimal_strings (or_zero old) amount
lifetime _ old amount = some old

aggregate : Payment → ℕ → Option Customer → M (Unit {0})
aggregate p now none w = (ok tt, w)
aggregate p now (some q) w = elim (lifetime p.currency q.lifetime_value p.amount) [
  | none ↦ (err (other_error "decimal"), w)
  | some v ↦
      (ok tt, record w { customers = update_by (λ r. r.id) q.id (counted p now v) w.customers })
]

unfoldable pub update_customer_aggregates : Payment → ℕ → M (Unit {0})
unfolding aggregate
update_customer_aggregates p now w = elim p.customer_id [
  | none ↦ (ok tt, w)
  | some k ↦ aggregate p now (find_by (λ r. r.id) k w.customers) w
]
