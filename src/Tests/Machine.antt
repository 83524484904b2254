-- ===== src/Tests/Machine.antt =====
-- Examples for the state machine of payments.
use hypertron_api.Prelude.{[], ◌∷◌, some, count, ◌+◌, ◌<◌, ◌≡◌, ◌≤◌, ◌⊎◌, refl}
use hypertron_api.Store.Tables.{PaymentStatus, Payment}
use hypertron_api.Store.Effects.{World, Error, ok, err, state_transition}
use hypertron_api.Payments.Events.{event_of}
use hypertron_api.Payments.StateMachine.{
  Call, begin, checked, won, emitting, finished, update_many, to_expired, to_confirmed,
  to_completed, updated, find_payment, step, transition,
}
use hypertron_api.Payments.StateMachine.Calls.{
  transition_refused, transition_done, transition-Returns, Returns,
}
use hypertron_api.Payments.StateMachine.Race.{rank, standing, holds, logged}
use hypertron_api.Payments.StateMachine.Race.Schedule.{
  System, Reach, here, next, runs, arrives, Reach-tokens, Reach-emit_ok,
}
use hypertron_api.Payments.StateMachine.Race.History.{Becomes, Reach-Becomes}
use hypertron_api.Tests.Fixtures.{invoice, one_payment, emit_input}

abbrev expiry : Call
expiry = record { payment_id = "p1"; move = to_expired; now = 6000; emit_input = emit_input }

abbrev completion : Call
completion = record { payment_id = "p1"; move = to_completed; now = 6000; emit_input = emit_input }

abbrev payment_seen : Call
payment_seen = record {
  payment_id = "p1";
  move =
      to_confirmed
        (record { transaction_hash = "h1"; payer_address = "GPAYER"; asset_issuer = some "GTEST" });
  now = 300;
  emit_input = emit_input;
}

abbrev start : System
start = record { world = one_payment; calls = [] }

abbrev expired_row : Payment
expired_row = updated to_expired 6000 invoice

-- Two expiries come in, and the first one runs.
abbrev racing : System
racing = record {
  world = record one_payment { payments = expired_row ∷ [] };
  calls = (expiry, emitting expired_row) ∷ (expiry, begin) ∷ [];
}

start_to_racing : Reach start racing
unfolding step update_many hypertron_api.Store.Effects.find_by hypertron_api.Store.Effects.update_by
start_to_racing =
    next
      (next (next (next (next here (arrives expiry)) (arrives expiry)) (runs 0 expiry begin refl))
        (runs 0 expiry (checked PaymentStatus.pending) refl))
      (runs 0 expiry (won PaymentStatus.pending) refl)

Reach-tokens_example :
    (logged "p1" PaymentStatus.expired racing.world
        + count (holds "p1" PaymentStatus.expired) racing.calls
      ≤ 1)
    × ((logged "p1" PaymentStatus.expired racing.world
            + count (holds "p1" PaymentStatus.expired) racing.calls
          ≡ 0)
        ⊎ (rank PaymentStatus.expired < standing "p1" racing.world))
Reach-tokens_example = Reach-tokens start_to_racing (refl, refl) "p1" PaymentStatus.expired

Reach-emit_ok_example :
    (step expiry (emitting expired_row) racing.world).0 ≡ finished (ok expired_row)
Reach-emit_ok_example = Reach-emit_ok start_to_racing (refl, refl) 0 expiry expired_row refl

Reach-Becomes_example :
    (q : Payment) × (find_payment "p1" racing.world ≡ some q) × Becomes invoice q
unfolding hypertron_api.Store.Effects.find_by
Reach-Becomes_example = Reach-Becomes "p1" invoice start_to_racing refl

transition_refused_example :
    transition completion one_payment
    ≡ (err (state_transition (some PaymentStatus.pending) PaymentStatus.completed), one_payment)
unfolding hypertron_api.Store.Effects.find_by
transition_refused_example = transition_refused completion one_payment refl

transition_done_example :
    ((transition payment_seen one_payment).0 ≡ ok (updated payment_seen.move 300 invoice))
    × (find_payment "p1" (transition payment_seen one_payment).1
        ≡ some (updated payment_seen.move 300 invoice))
    × ((transition payment_seen one_payment).1.events
        ≡ event_of emit_input (updated payment_seen.move 300 invoice) PaymentStatus.confirmed ∷ [])
unfolding hypertron_api.Store.Effects.find_by hypertron_api.Payments.StateMachine.hash_taken
transition_done_example = transition_done payment_seen one_payment invoice refl refl refl "p1" refl

transition-Returns_example : Returns expiry one_payment expired_row
unfolding transition step update_many hypertron_api.Store.Effects.find_by
    hypertron_api.Store.Effects.update_by hypertron_api.Payments.Events.emit
transition-Returns_example = transition-Returns expiry one_payment expired_row refl
