-- ===== src/Payments/StateMachine.antt =====
-- src/modules/payments/payment-state-machine.ts: the compare-and-set engine, as steps between which
-- other requests may run, and the six transitions.
pub mod Race
pub mod Calls
pub mod Steps
use hypertron_api.Prelude.{
  ℕ, zero, suc, String, List, [], ◌∷◌, Option, none, some, Bool, true, false, not, ◌&&◌, str_eq,
  if◌then◌else◌, any, get_elem?, set,
}
use hypertron_api.Prelude.Text.{Text}
use hypertron_api.Store.Tables.{
  PaymentStatus, created, pending, confirmed, completed, failed, expired, canceled, Payment,
  PaymentEvent,
}
use hypertron_api.Store.Effects.{
  World, Error, state_transition, Result, ok, err, M, find_by, update_by, unique_violation,
}
use hypertron_api.Payments.Events.{status_eq, EmitInput, emit}

pub record TransactionData : Type 0 where
  pub transaction_hash : String
  pub payer_address : String
  pub asset_issuer : Option String

-- The six public methods, with their arguments.
pub data Transition : Type 0 where
  to_pending to_completed to_expired to_canceled : Transition
  to_confirmed : TransactionData → Transition
  to_failed : (failure_code : String) (failure_message : Text) → Transition

abbrev pub to_status : Transition → PaymentStatus
to_status to_pending = pending
to_status to_completed = completed
to_status to_expired = expired
to_status to_canceled = canceled
to_status (to_confirmed _) = confirmed
to_status (to_failed _ _) = failed

abbrev pub allowed_from : PaymentStatus → List PaymentStatus
allowed_from created = []
allowed_from pending = created ∷ []
allowed_from confirmed = pending ∷ []
allowed_from completed = confirmed ∷ []
allowed_from failed = pending ∷ confirmed ∷ []
allowed_from expired = created ∷ pending ∷ []
allowed_from canceled = created ∷ pending ∷ []

abbrev pub includes : List PaymentStatus → PaymentStatus → Bool
includes l s = any (status_eq s) l

-- The `data` of the update: the status and `extraData`; the row's `updatedAt` is set as well.
abbrev pub extra_data : Transition → ℕ → Payment → Payment
extra_data to_pending now p = p
extra_data to_completed now p = record p { completed_at = some now }
extra_data to_expired now p = p
extra_data to_canceled now p = record p { canceled_at = some now }
extra_data (to_confirmed tx) now p = record p {
  transaction_hash = some tx.transaction_hash;
  payer_address = some tx.payer_address;
  asset_issuer = tx.asset_issuer;
  paid_at = some now;
}
extra_data (to_failed code message) now p = record p {
  failure_code = some code;
  failure_message = some message;
}

abbrev pub updated : Transition → ℕ → Payment → Payment
updated t now p = record (extra_data t now p) { status = to_status t; updated_at = now }

abbrev pub find_payment : String → World → Option Payment
find_payment k w = find_by (λ p. p.id) k w.payments

-- The unique index on `transactionHash`: another row has this hash.
abbrev pub has_hash : String → Payment → Bool
has_hash h p = elim p.transaction_hash [ none ↦ false | some g ↦ str_eq g h ]

unfoldable pub hash_taken : Transition → String → List Payment → Bool
hash_taken (to_confirmed tx) k ps =
    any (λ p. not (str_eq p.id k) && has_hash tx.transaction_hash p) ps
hash_taken _ k ps = false

-- `updateMany({ where: { id, status: { in: from } }, data })`: the row is changed in one step, if
-- it is still in an allowed state; the number of rows changed is 1 or 0, as the id is unique.
unfoldable pub update_many : Transition → ℕ → String → World → Result Bool × World
unfolding hash_taken
update_many t now k w = elim (find_payment k w) [
  | none ↦ (ok false, w)
  | some p ↦
      if includes (allowed_from (to_status t)) p.status
      then if hash_taken t k w.payments
        then (err unique_violation, w)
        else (ok true, record w { payments = update_by (λ q. q.id) k (updated t now) w.payments })
      else (ok false, w)
]

-- One call of `transition`: its arguments and what the outside gives it.
pub record Call : Type 0 where
  pub payment_id : String
  pub move : Transition
  pub now : ℕ
  pub emit_input : EmitInput

-- Where a call stands between two accesses to the database.
pub data Pc : Type 0 where
  begin : Pc
  checked : (current : PaymentStatus) → Pc
  lost : (current : PaymentStatus) → Pc
  won : (current : PaymentStatus) → Pc
  emitting : (row : Payment) → Pc
  finished : Result Payment → Pc

abbrev refuse : Option PaymentStatus → Call → Pc
refuse from c = finished (err (state_transition from (to_status c.move)))

-- 1. Load the payment and check its state.
check : Call → Option Payment → Pc
check c none = refuse none c
check c (some p) =
    if includes (allowed_from (to_status c.move)) p.status
    then checked p.status
    else refuse (some p.status) c

-- 2. After a lost race: the state that is wanted may be reached already.
recheck : Call → PaymentStatus → Option Payment → Pc
recheck c current none = refuse (some current) c
recheck c current (some p) =
    if status_eq p.status (to_status c.move) then finished (ok p) else refuse (some current) c

-- 3. Reload the updated record.
reload : Call → PaymentStatus → Option Payment → Pc
reload c current none = refuse (some current) c
reload c current (some p) = emitting p

-- `updateMany` matched no row, one row, or hit the unique index.
decide_race : PaymentStatus → Result Bool → Pc
decide_race current (ok true) = won current
decide_race current (ok false) = lost current
decide_race current (err e) = finished (err e)

-- 4. Emit the event, then return the record.
after_emit : Payment → Result PaymentEvent → Pc
after_emit row (ok _) = finished (ok row)
after_emit row (err e) = finished (err e)

unfoldable pub step : Call → Pc → World → Pc × World
unfolding check recheck reload decide_race after_emit
step c begin w = (check c (find_payment c.payment_id w), w)
step c (checked current) w =
    let (r, w') = update_many c.move c.now c.payment_id w in (decide_race current r, w')
step c (lost current) w = (recheck c current (find_payment c.payment_id w), w)
step c (won current) w = (reload c current (find_payment c.payment_id w), w)
step c (emitting row) w =
    let (r, w') = emit c.emit_input row (to_status c.move) w in (after_emit row r, w')
step c (finished r) w = (finished r, w)

abbrev result_of : Pc → Result Payment
result_of (finished r) = r
result_of _ = err (state_transition none created)

unfoldable pub steps : ℕ → Call → Pc → World → Pc × World
steps zero c pc w = (pc, w)
steps (suc n) c pc w = let (pc', w') = step c pc w in steps n c pc' w'

-- `transition` where nothing else runs in between: four accesses at most.
unfoldable pub transition : Call → M Payment
unfolding steps step
transition c w = let (pc, w') = steps 4 c begin w in (result_of pc, w')
