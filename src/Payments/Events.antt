-- ===== src/Payments/Events.antt =====
-- src/modules/events/events.service.ts: the append-only log of payment events.
use hypertron_api.Prelude.{
  ℕ, String, List, [], ◌∷◌, ◌++◌, Bool, true, false, ◌&&◌, str_eq, str_append, if◌then◌else◌, any,
}
use hypertron_api.Store.Tables.{
  PaymentStatus, created, pending, confirmed, completed, failed, expired, canceled, Payment,
  PaymentEvent, Job, fanout_event,
}
use hypertron_api.Store.Effects.{
  unique_violation, other_error, ok, err, M, ◌>>=◌, ◌>>◌, return, catch,
}

abbrev pub status_eq : PaymentStatus → PaymentStatus → Bool
status_eq created created = true
status_eq pending pending = true
status_eq confirmed confirmed = true
status_eq completed completed = true
status_eq failed failed = true
status_eq expired expired = true
status_eq canceled canceled = true
status_eq _ _ = false

-- The queue service is not configured (DISABLE_REDIS), answers, or refuses the job.
pub data Queue : Type 0 where
  absent up down : Queue

-- What the outside gives to one `emit`: the row's id, the ULID of the public id, the time, and the
-- state of the queue service.
pub record EmitInput : Type 0 where
  pub row_id : String
  pub ulid : String
  pub now : ℕ
  pub queue : Queue

abbrev pub is_event_of : String → PaymentStatus → PaymentEvent → Bool
is_event_of pid t e = str_eq e.payment_id pid && status_eq e.type t

-- `create` of a row; the table has the unique index `(paymentId, type)`.
pub create_event : PaymentEvent → M PaymentEvent
create_event e w =
    if any (is_event_of e.payment_id e.type) w.events
    then (err unique_violation, w)
    else (ok e, record w { events = w.events ++ e ∷ [] })

abbrev pub job_id : Job → String
job_id (fanout_event j _) = j
job_id (Job.deliver j _ _) = j
job_id (Job.finality_check j _ _) = j

-- `queue.add`: a job whose id is in the queue already is dropped.
abbrev pub add_job : Job → List Job → List Job
add_job j js = if any (λ k. str_eq (job_id k) (job_id j)) js then js else js ++ j ∷ []

-- `dispatchEvent` of the webhook service.
pub dispatch_event : Queue → PaymentEvent → M (Unit {0})
dispatch_event Queue.absent e w = (ok tt, w)
dispatch_event Queue.up e w = (
  ok tt,
  record w { jobs = add_job (fanout_event (str_append "fanout_" e.public_id) e.id) w.jobs },
)
dispatch_event Queue.down e w = (err (other_error "queue"), w)

-- `dispatchWebhooks`: a failure of the queue is logged and swallowed.
pub dispatch_webhooks : Queue → PaymentEvent → M (Unit {0})
dispatch_webhooks q e = catch (dispatch_event q e) (λ _. return tt)

abbrev pub event_of : EmitInput → Payment → PaymentStatus → PaymentEvent
event_of i p t = record {
  id = i.row_id;
  public_id = str_append "evt_" i.ulid;
  business_id = p.business_id;
  payment_id = p.id;
  type = t;
  snapshot = p;
  created_at = i.now;
}

unfoldable pub emit : EmitInput → Payment → PaymentStatus → M PaymentEvent
unfolding create_event dispatch_event dispatch_webhooks
emit i p t = do e ← create_event (event_of i p t); dispatch_webhooks i.queue e; return e
