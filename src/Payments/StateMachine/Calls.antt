-- ===== src/Payments/StateMachine/Calls.antt =====
-- One call of `transition` with nothing else running: its result on every branch.
use hypertron_api.Prelude.{
  ℕ, String, [], ◌∷◌, ◌++◌, Option, none, some, Bool, true, false, eq_iff, any, str_eq, ◌≡◌, refl,
  sym, ◌∙◌, ap, ◌⊎◌, inl, inr, arith, Bool-cases, Option-cases, if◌then◌else◌,
}
use mathlib.Core.Option
use mathlib.Core.Path.{subst}
use hypertron_api.Store.Tables.{PaymentStatus, Payment}
use hypertron_api.Store.Effects.{
  World, state_transition, unique_violation, ok, err, find_by, update_by, find_by-key,
}
use hypertron_api.Payments.Events.{is_event_of, event_of, EmitInput, emit}
use hypertron_api.Payments.StateMachine.{
  Transition, to_completed, to_canceled, to_confirmed, to_failed, to_pending, to_expired, to_status,
  allowed_from, includes, updated, find_payment, hash_taken, update_many, Call, transition,
  result_of, after_emit,
}
use hypertron_api.Payments.StateMachine.Race.{find_payment-updated, updated-id, emit-payments}

-- The row is not there, or is in no state from which the transition may go.
abbrev pub refuses : Transition → Option Payment → Bool
refuses t none = true
refuses t (some p) = if includes (allowed_from (to_status t)) p.status then false else true

-- A transition of a missing row, or from a state that is not allowed, throws the state and the
-- target, and changes nothing.
pub transition_refused :
    (c : Call) (w : World)
    → refuses c.move (find_payment c.payment_id w) ≡ true
    → transition c w ≡ (
      err (
          state_transition
            (Option.map (λ p. p.status) (find_payment c.payment_id w))
            (to_status c.move)),
      w,
    )
unfolding transition
transition_refused c w h = elim (Option-cases (find_payment c.payment_id w)) [
  | inl e ↦ ground (arith, e)
  | inr (p, e) ↦ ground (arith, e)
]

-- A transition that is allowed, but whose hash another payment has, throws the violation of the
-- unique index and changes nothing.
pub transition-hash_taken :
    (c : Call) (w : World) (p : Payment)
    → find_payment c.payment_id w ≡ some p
    → includes (allowed_from (to_status c.move)) p.status ≡ true
    → hash_taken c.move c.payment_id w.payments ≡ true
    → transition c w ≡ (err unique_violation, w)
unfolding transition update_many
transition-hash_taken c w p e a h = ground (arith, e)

emit_lem :
    (i : EmitInput) (p : Payment) (t : PaymentStatus) (w : World)
    → any (is_event_of p.id t) w.events ≡ false
    → ((emit i p t w).0 ≡ ok (event_of i p t))
      × ((emit i p t w).1.events ≡ w.events ++ event_of i p t ∷ [])
      × ((emit i p t w).1.payments ≡ w.payments)
unfolding emit
emit_lem i p t w h = ground arith

emit-taken :
    (i : EmitInput) (p : Payment) (t : PaymentStatus) (w : World)
    → any (is_event_of p.id t) w.events ≡ true
    → (emit i p t w).0 ≡ err unique_violation
unfolding emit
emit-taken i p t w h = ground arith

module _ (c : Call) (w : World) (p : Payment) (found : find_payment c.payment_id w ≡ some p)
    (allowed : includes (allowed_from (to_status c.move)) p.status ≡ true)
    (free : hash_taken c.move c.payment_id w.payments ≡ false) where
  abbrev after : World
  after = record w {
    payments = update_by (λ q. q.id) c.payment_id (updated c.move c.now) w.payments;
  }

  hit : update_many c.move c.now c.payment_id w ≡ (ok true, after)
  unfolding update_many
  hit = ground (arith, found)

  reloaded : find_payment c.payment_id after ≡ some (updated c.move c.now p)
  reloaded = ground (
    arith,
    found,
    find_payment-updated c.move c.now c.payment_id w c.payment_id,
    eq_iff c.payment_id c.payment_id,
  )

  transition-eq-emit : transition c w ≡ (
      let (r, w') = emit c.emit_input (updated c.move c.now p) (to_status c.move) after in
      (result_of (after_emit (updated c.move c.now p) r), w'))
  unfolding transition
  transition-eq-emit = ground (arith, found, hit, reloaded)

  event_key :
      (b : Bool)
      → any (is_event_of c.payment_id (to_status c.move)) w.events ≡ b
      → any (is_event_of (updated c.move c.now p).id (to_status c.move)) after.events ≡ b
  event_key b h =
      subst (λ k. any (is_event_of k (to_status c.move)) w.events ≡ b)
        (sym (
          updated-id c.move c.now p
          ∙ find_by-key (λ q. q.id) c.payment_id w.payments {r = p} found))
        h

  -- A transition that is allowed returns the row with the new status and the timestamps or fields
  -- of the transition; that row and no other is changed, and one event with this snapshot is
  -- appended. It needs the transaction hash to be free and no such event to be in the log.
  pub transition_done :
      (k : String)
      → any (is_event_of c.payment_id (to_status c.move)) w.events ≡ false
      → ((transition c w).0 ≡ ok (updated c.move c.now p))
        × (find_payment k (transition c w).1
            ≡ (if str_eq c.payment_id k then some (updated c.move c.now p) else find_payment k w))
        × ((transition c w).1.events
            ≡ w.events ++ event_of c.emit_input (updated c.move c.now p) (to_status c.move) ∷ [])
  unfolding after_emit
  transition_done k first =
      let row : Payment = updated c.move c.now p in
      let (returned, appended, kept) =
        emit_lem c.emit_input row (to_status c.move) after (event_key false first) in
      (
        rw transition-eq-emit (ground (arith, returned)),
        rw transition-eq-emit (
            ground (
              arith,
              found,
              kept,
              find_payment-updated c.move c.now c.payment_id w k,
              eq_iff c.payment_id k,
            )),
        rw transition-eq-emit (ground (arith, appended)),
      )

  -- The event is in the log already: the row is changed, and the call throws.
  pub transition_logged :
      any (is_event_of c.payment_id (to_status c.move)) w.events ≡ true
      → (transition c w).0 ≡ err unique_violation
  unfolding after_emit
  transition_logged h = rw transition-eq-emit (
      ground (
        arith,
        emit-taken c.emit_input (updated c.move c.now p) (to_status c.move) after
            (event_key true h),
      ))

  transition_stored : find_payment c.payment_id (transition c w).1 ≡ some (updated c.move c.now p)
  transition_stored = rw transition-eq-emit (
      ap (λ ps. find_by (λ q. q.id) c.payment_id ps)
        (emit-payments c.emit_input (updated c.move c.now p) (to_status c.move) after)
      ∙ reloaded)

-- Whatever a transition returns or throws, its row is as before, or the update was allowed, with a
-- hash that was free, and was made.
pub transition-row :
    (c : Call) (w : World) (p : Payment)
    → find_payment c.payment_id w ≡ some p
    → (find_payment c.payment_id (transition c w).1 ≡ some p)
      ⊎ ((hash_taken c.move c.payment_id w.payments ≡ false)
          × (find_payment c.payment_id (transition c w).1 ≡ some (updated c.move c.now p)))
transition-row c w p f = elim (Bool-cases (includes (allowed_from (to_status c.move)) p.status)) [
  | inr n ↦ inl (ground (arith, f, n, transition_refused c w))
  | inl a ↦ elim (Bool-cases (hash_taken c.move c.payment_id w.payments)) [
    | inl t ↦ inl (ground (arith, f, transition-hash_taken c w p f a t))
    | inr free ↦ inr (free, transition_stored c w p f a free)
  ]
]

-- What each transition writes of its arguments and of the clock, beside the status.
abbrev pub IsStamped : Transition → ℕ → Payment → Type 0
IsStamped to_completed now q = q.completed_at ≡ some now
IsStamped to_canceled now q = q.canceled_at ≡ some now
IsStamped (to_confirmed tx) now q =
    (q.transaction_hash ≡ some tx.transaction_hash)
    × (q.payer_address ≡ some tx.payer_address)
    × (q.asset_issuer ≡ tx.asset_issuer)
    × (q.paid_at ≡ some now)
IsStamped (to_failed code message) now q =
    (q.failure_code ≡ some code) × (q.failure_message ≡ some message)
IsStamped _ now q = Unit

updated-IsStamped : (t : Transition) (now : ℕ) (p : Payment) → IsStamped t now (updated t now p)
updated-IsStamped to_pending now p = tt
updated-IsStamped to_completed now p = refl
updated-IsStamped to_expired now p = tt
updated-IsStamped to_canceled now p = refl
updated-IsStamped (to_confirmed tx) now p = (refl, refl, refl, refl)
updated-IsStamped (to_failed code message) now p = (refl, refl)

-- The row that a transition which returns has changed, and what it returns.
pub record Returns (c : Call) (w : World) (q : Payment) : Type 0 where
  pub row : Payment
  pub found : find_payment c.payment_id w ≡ some row
  pub allowed : includes (allowed_from (to_status c.move)) row.status ≡ true
  pub free : hash_taken c.move c.payment_id w.payments ≡ false
  pub result : q ≡ updated c.move c.now row
  pub stamped : IsStamped c.move c.now q
  pub stored : find_payment c.payment_id (transition c w).1 ≡ some q

-- A transition that returns has found its row in a state that is allowed, with the hash free; what
-- it returns is that row with the update, its time and fields set, and it is the row that is then
-- stored.
pub transition-Returns :
    (c : Call) (w : World) (q : Payment) → (transition c w).0 ≡ ok q → Returns c w q
transition-Returns c w q h = elim (Option-cases (find_payment c.payment_id w)) [
  | inl n ↦ ground (arith, n, transition_refused c w)
  | inr (p, f) ↦ returns_at p f
]
  where
    returns_at : (p : Payment) → find_payment c.payment_id w ≡ some p → Returns c w q
    returns_at p f = elim (Bool-cases (includes (allowed_from (to_status c.move)) p.status)) [
      | inr n ↦ ground (arith, f, n, transition_refused c w)
      | inl a ↦ elim (Bool-cases (hash_taken c.move c.payment_id w.payments)) [
        | inl t ↦ ground (arith, f, a, t, transition-hash_taken c w p)
        | inr free ↦
            elim (Bool-cases (any (is_event_of c.payment_id (to_status c.move)) w.events)) [
              | inl l ↦ ground (arith, l, transition_logged c w p f a free)
              | inr first ↦
                  let (returned, row, _) = transition_done c w p f a free c.payment_id first in
                  let same : q ≡ updated c.move c.now p = ground (arith, returned, h) in
                  record {
                    row = p;
                    found = f;
                    allowed = a;
                    free = free;
                    result = same;
                    stamped =
                        subst (IsStamped c.move c.now) (sym same)
                          (updated-IsStamped c.move c.now p);
                    stored = ground (arith, row, same, eq_iff c.payment_id c.payment_id);
                  }
            ]
      ]
    ]
