-- ===== src/Payments/StateMachine/Race.antt =====
-- Concurrent calls of `transition` over one database, in any order of their steps.
pub mod Schedule
pub mod History
use hypertron_api.Prelude.{
  ℕ, zero, suc, ◌+◌, ◌≤◌, ◌<◌, String, List, [], ◌∷◌, ◌++◌, Option, none, some, Bool, true, false,
  str_eq, eq_iff, if◌then◌else◌, any, get_elem?, set, count, count-append, count-set, bit, ◌&&◌,
  ◌≡◌, ◌⊎◌, inl, inr, refl, arith, Bool-cases, Option-cases,
}
use hypertron_api.Store.Tables.{
  PaymentStatus, created, pending, confirmed, completed, failed, expired, canceled, Payment,
  PaymentEvent,
}
use hypertron_api.Store.Effects.{
  World, Error, state_transition, Result, ok, err, M, find_by, update_by, find_by-update_by,
  find_by-key,
}
use hypertron_api.Payments.Events.{status_eq, is_event_of, event_of, EmitInput, emit}
use hypertron_api.Payments.StateMachine.{
  Transition, to_status, allowed_from, includes, updated, find_payment, update_many, Call, Pc,
  begin, checked, lost, won, emitting, finished, step,
}

abbrev pub rank : PaymentStatus → ℕ
rank created = 0
rank pending = 1
rank confirmed = 2
rank _ = 3

-- 0 for a payment that is not there, and more the further the payment has come.
abbrev standing_of : Option Payment → ℕ
standing_of none = 0
standing_of (some p) = suc (rank p.status)

abbrev pub standing : String → World → ℕ
standing pid w = standing_of (find_payment pid w)

pub allowed_from-rank : (s t : PaymentStatus) → includes (allowed_from t) s ≡ true → rank s < rank t
allowed_from-rank s t h = ground arith

pub status_eq_sound : (s t : PaymentStatus) → status_eq s t ≡ true → s ≡ t
status_eq_sound s t h = ground arith

pub status_eq_refl : (s : PaymentStatus) → status_eq s s ≡ true
status_eq_refl created = refl
status_eq_refl _ = refl

pub updated-id : (t : Transition) (now : ℕ) (p : Payment) → (updated t now p).id ≡ p.id
updated-id t now p = ground arith

pub updated-status :
    (t : Transition) (now : ℕ) (p : Payment) → (updated t now p).status ≡ to_status t
updated-status t now p = ground arith

module _ (t : Transition) (now : ℕ) (k : String) (w : World) where
  pub update_many-events : (update_many t now k w).1.events ≡ w.events
  unfolding update_many
  update_many-events = ground arith

  pub find_payment-updated :
      (pid : String)
      → find_payment pid
          (record w { payments = update_by (λ q. q.id) k (updated t now) w.payments })
        ≡ (if str_eq k pid
            then mathlib.Core.Option.map (updated t now) (find_payment pid w)
            else find_payment pid w)
  find_payment-updated pid =
      find_by-update_by (λ q. q.id) k pid (updated t now) w.payments (updated-id t now)

  -- The one row that an update may change goes along an allowed transition.
  update_many-row :
      (pid : String) (p : Payment)
      → find_payment pid w ≡ some p
      → (find_payment pid (update_many t now k w).1 ≡ some p)
        ⊎ ((includes (allowed_from (to_status t)) p.status ≡ true)
            × (find_payment pid (update_many t now k w).1 ≡ some (updated t now p)))
  unfolding update_many
  update_many-row pid p e = elim (Option-cases (find_payment k w)) [
    | inl n ↦ ground (arith, n)
    | inr (q, n) ↦ ground (arith, n, find_payment-updated pid, eq_iff k pid)
  ]

  update_many-hit :
      (update_many t now k w).0 ≡ ok true
      → (standing k w ≤ rank (to_status t))
        × (standing k (update_many t now k w).1 ≡ suc (rank (to_status t)))
  unfolding update_many
  update_many-hit h = elim (Option-cases (find_payment k w)) [
    | inl e ↦ ground (arith, e)
    | inr (p, e) ↦ ground (
      arith,
      e,
      find_payment-updated k,
      eq_iff k k,
      allowed_from-rank p.status (to_status t),
      updated-status t now p,
    )
  ]

  update_many-standing : (pid : String) → standing pid w ≤ standing pid (update_many t now k w).1
  unfolding update_many
  update_many-standing pid = elim (Option-cases (find_payment k w)) [
    | inl e ↦ ground (arith, e)
    | inr (p, e) ↦ ground (
      arith,
      e,
      find_payment-updated pid,
      eq_iff k pid,
      allowed_from-rank p.status (to_status t),
      updated-status t now p,
    )
  ]

-- A call that has won its race and has not yet appended the event that it owes.
abbrev pub holds : String → PaymentStatus → Call × Pc → Bool
holds pid s (c, won _) = str_eq c.payment_id pid && status_eq (to_status c.move) s
holds pid s (c, emitting row) = str_eq row.id pid && status_eq (to_status c.move) s
holds pid s _ = false

-- The events of a payment with one type in the log.
abbrev pub logged : String → PaymentStatus → World → ℕ
logged pid s w = count (is_event_of pid s) w.events

emit-logged :
    (pid : String) (s : PaymentStatus) (i : EmitInput) (p : Payment) (t : PaymentStatus) (w : World)
    → logged pid s (emit i p t w).1 ≤ logged pid s w + bit (str_eq p.id pid && status_eq t s)
unfolding emit
emit-logged pid s i p t w =
    ground (arith, count-append (is_event_of pid s) w.events (event_of i p t ∷ []))

pub emit-payments :
    (i : EmitInput) (p : Payment) (t : PaymentStatus) (w : World)
    → (emit i p t w).1.payments ≡ w.payments
unfolding emit
emit-payments i p t w = ground arith

pub step-standing :
    (c : Call) (pc : Pc) (w : World) (pid : String) → standing pid w ≤ standing pid (step c pc w).1
unfolding step
step-standing c begin w pid = omega arith
step-standing c (checked current) w pid = update_many-standing c.move c.now c.payment_id w pid
step-standing c (emitting row) w pid =
    rw (emit-payments c.emit_input row (to_status c.move) w) (omega arith)
step-standing c _ w pid = omega arith

-- A step adds at most one event that is logged or owed, and only where it moves the payment there.
pub step-tokens :
    (c : Call) (pc : Pc) (w : World) (pid : String) (s : PaymentStatus)
    → let (pc', w') = step c pc w in
      let old : ℕ = logged pid s w + bit (holds pid s (c, pc)) in
      let new : ℕ = logged pid s w' + bit (holds pid s (c, pc')) in
      (new ≤ old) ⊎ ((new ≤ suc old) × (standing pid w ≤ rank s) × (rank s < standing pid w'))
unfolding step
step-tokens c begin w pid s = ground arith
step-tokens c (checked current) w pid s = ground (
  arith,
  update_many-events c.move c.now c.payment_id w,
  update_many-hit c.move c.now c.payment_id w,
  eq_iff c.payment_id pid,
  status_eq_sound (to_status c.move) s,
)
step-tokens c (lost current) w pid s = ground arith
step-tokens c (won current) w pid s = elim (Option-cases (find_payment c.payment_id w)) [
  | inl e ↦ ground (arith, e)
  | inr (p, e) ↦ ground (arith, e, find_by-key (λ q. q.id) c.payment_id w.payments {r = p} e)
]
step-tokens c (emitting row) w pid s =
    ground (arith, emit-logged pid s c.emit_input row (to_status c.move) w)
step-tokens c (finished r) w pid s = ground arith

pub step-row :
    (c : Call) (pc : Pc) (w : World) (pid : String) (p : Payment)
    → find_payment pid w ≡ some p
    → (find_payment pid (step c pc w).1 ≡ some p)
      ⊎ ((includes (allowed_from (to_status c.move)) p.status ≡ true)
          × (find_payment pid (step c pc w).1 ≡ some (updated c.move c.now p)))
unfolding step
step-row c begin w pid p e = inl e
step-row c (checked current) w pid p e = update_many-row c.move c.now c.payment_id w pid p e
step-row c (emitting row) w pid p e =
    inl (rw (emit-payments c.emit_input row (to_status c.move) w) e)
step-row c _ w pid p e = inl e

pub step-missing :
    (c : Call) (pc : Pc) (w : World) (pid : String)
    → find_payment pid w ≡ none
    → find_payment pid (step c pc w).1 ≡ none
unfolding step update_many
step-missing c (checked current) w pid n = elim (Option-cases (find_payment c.payment_id w)) [
  | inl e ↦ ground (arith, e)
  | inr (p, e) ↦ ground (arith, e, find_payment-updated c.move c.now c.payment_id w pid)
]
step-missing c (emitting row) w pid n = rw (emit-payments c.emit_input row (to_status c.move) w) n
step-missing c _ w pid n = n
