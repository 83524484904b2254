-- ===== src/Payments/StateMachine/Race/Schedule.antt =====
-- Every schedule of concurrent calls: what holds however their steps are ordered.
use hypertron_api.Prelude.{
  ℕ, ◌+◌, ◌≤◌, ◌<◌, String, List, [], ◌∷◌, ◌++◌, none, some, eq_iff, get_elem?, set, count,
  count-append, count-set, any-of_count, ◌≡◌, ◌⊎◌, arith,
}
use hypertron_api.Store.Tables.{PaymentStatus, created, Payment}
use hypertron_api.Store.Effects.{World, ok, find_by-append}
use hypertron_api.Payments.Events.{is_event_of, emit}
use hypertron_api.Payments.StateMachine.{
  to_status, find_payment, Call, Pc, begin, emitting, finished, step,
}
use hypertron_api.Payments.StateMachine.Race.{
  rank, standing, holds, logged, step-standing, step-tokens, status_eq_refl,
}

-- The database and the calls that have come in so far.
pub record System : Type 0 where
  pub world : World
  pub calls : List (Call × Pc)

abbrev pub advance : ℕ → Call → Pc × World → List (Call × Pc) → System
advance i c (pc, w) cs = record { world = w; calls = set cs i (c, pc) }

-- A call makes one access to the database, a call comes in, or `PaymentsRepository.create` inserts
-- a row under a new id.
pub data Move (s : System) : System → Type 0 where
  runs :
      (i : ℕ) (c : Call) (pc : Pc)
      → get_elem? s.calls i ≡ some (c, pc)
      → Move s (advance i c (step c pc s.world) s.calls)
  arrives : (c : Call) → Move s (record s { calls = s.calls ++ (c, begin) ∷ [] })
  inserts :
      (p : Payment)
      → find_payment p.id s.world ≡ none
      → p.status ≡ created
      → Move s (record s { world = record (s.world) { payments = s.world.payments ++ p ∷ [] } })

pub data Reach (s : System) : System → Type 0 where
  here : Reach s s
  next : {t u : System} → Reach s t → Move t u → Reach s u

-- The events of a type that a payment has, or that a call owes it.
abbrev pub tokens : String → PaymentStatus → System → ℕ
tokens pid t s = logged pid t s.world + count (holds pid t) s.calls

-- At most one, and only of a status that the payment has reached.
abbrev pub IsAccounted : System → Type 0
IsAccounted s =
    (pid : String) (t : PaymentStatus)
    → (tokens pid t s ≤ 1) × (0 < tokens pid t s → rank t < standing pid s.world)

insert-standing :
    (pid : String) (p : Payment) (w : World)
    → standing pid w ≤ standing pid (record w { payments = w.payments ++ p ∷ [] })
insert-standing pid p w = ground (arith, find_by-append (λ q. q.id) pid w.payments p)

Move-IsAccounted : {s u : System} → Move s u → IsAccounted s → IsAccounted u
Move-IsAccounted {s} (runs i c pc e) h pid t = ground (
  arith,
  h pid t,
  step-tokens c pc s.world pid t,
  step-standing c pc s.world pid,
  count-set (holds pid t) s.calls i {x = (c, pc)} (c, (step c pc s.world).0) e,
)
Move-IsAccounted {s} (arrives c) h pid t =
    ground (arith, h pid t, count-append (holds pid t) s.calls ((c, begin) ∷ []))
Move-IsAccounted {s} (inserts p e k) h pid t =
    ground (arith, h pid t, insert-standing pid p s.world)

pub Reach-IsAccounted : {s u : System} → Reach s u → IsAccounted s → IsAccounted u
Reach-IsAccounted here h = h
Reach-IsAccounted (next r m) h = Move-IsAccounted m (Reach-IsAccounted r h)

-- A service that starts: no event is in the log and no call has come in.
abbrev pub IsFresh : System → Type 0
IsFresh s = (s.world.events ≡ []) × (s.calls ≡ [])

IsFresh-IsAccounted : (s : System) → IsFresh s → IsAccounted s
IsFresh-IsAccounted s (e, c) pid t = rw (e, c) (ground arith)

-- From a service that starts with an empty log, however the calls interleave: of the events of one
-- type, a payment has at most one that is in the log or that a call which has won its race still
-- owes; and where it has one, the payment is there and has come at least as far as the status that
-- the event tells, where created, pending, confirmed and then all final states follow one another.
pub Reach-tokens :
    {s u : System}
    → Reach s u
    → IsFresh s
    → (pid : String) (t : PaymentStatus)
    → (logged pid t u.world + count (holds pid t) u.calls ≤ 1)
      × ((logged pid t u.world + count (holds pid t) u.calls ≡ 0) ⊎ (rank t < standing pid u.world))
Reach-tokens {s} r f pid t = ground (arith, Reach-IsAccounted r (IsFresh-IsAccounted s f) pid t)

emit-ok :
    (c : Call) (row : Payment) (w : World)
    → logged row.id (to_status c.move) w ≡ 0
    → (step c (emitting row) w).0 ≡ finished (ok row)
unfolding step emit
emit-ok c row w h = ground (arith, any-of_count (is_event_of row.id (to_status c.move)) w.events h)

-- From a service that starts with an empty log, however the calls interleave, a call that has won
-- its race and reloaded its row always appends its event and returns the row: the unique index
-- `(paymentId, type)` never refuses it.
pub Reach-emit_ok :
    {s u : System}
    → Reach s u
    → IsFresh s
    → (i : ℕ) (c : Call) (row : Payment) → get_elem? u.calls i ≡ some (c, emitting row)
    → (step c (emitting row) u.world).0 ≡ finished (ok row)
Reach-emit_ok {s} {u} r f i c row e = emit-ok c row u.world (
    ground (
      arith,
      Reach-IsAccounted r (IsFresh-IsAccounted s f) row.id (to_status c.move),
      count-set (holds row.id (to_status c.move)) u.calls i {x = (c, emitting row)} (c, begin) e,
      eq_iff row.id row.id,
      status_eq_refl (to_status c.move),
    ))
