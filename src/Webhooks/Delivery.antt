-- ===== src/Webhooks/Delivery.antt =====
-- src/modules/webhooks/webhook-delivery.service.ts: fan-out of an event to the endpoints, attempts,
-- and manual retries. What an endpoint answers is an argument; the log and the metrics are left out.
pub mod Replay
use hypertron_api.Prelude.{
  ℕ, ◌+◌, ◌≤◌, ◌<◌, String, List, [], ◌∷◌, ◌++◌, Option, none, some, Bool, true, false, not, ◌&&◌,
  ◌||◌, ◌==◌, leb, ltb, str_eq, str_append, any, length, take, get_elem?, if◌then◌else◌,
}
use hypertron_api.Prelude.Text.{Text, codes}
use hypertron_api.Store.Tables.{
  Environment, PaymentStatus, PaymentEvent, DeliveryStatus, WebhookEndpoint, WebhookDelivery, Job,
}
use hypertron_api.Store.Effects.{
  World, Error, unique_violation, invalid_request, resource_missing, other_error, Result, ok, err,
  M, ◌>>=◌, ◌>>◌, return, throw, catch, find_by, update_by,
}
use hypertron_api.Amount.{to_string}
use hypertron_api.Payments.Events.{status_eq, Queue, add_job}
use hypertron_api.Payments.Create.{env_eq}
use hypertron_api.Webhooks.Schedule.{response_body_max_chars, is_retryable_status, retry_delay_ms}

pub record AttemptResult : Type 0 where
  pub ok : Bool
  pub status : Option ℕ
  pub body : Option Text
  pub error : Option Text

pub data DeliveryOutcome : Type 0 where
  delivered retry_scheduled failed skipped : DeliveryOutcome

-- An empty text is stored as null.
unfoldable pub truncate : Option Text → Option Text
truncate none = none
truncate (some []) = none
truncate (some (c ∷ s)) =
    if ltb response_body_max_chars (length (c ∷ s))
    then some (take response_body_max_chars (c ∷ s))
    else some (c ∷ s)

abbrev pub or_else {ℓ} : {A : Type ℓ} → Option A → Option A → Option A
or_else none o = o
or_else (some a) o = some a

-- A number in the id of a job.
abbrev digit : ℕ → String
digit c =
    if c == b'0'
    then "0"
    else if c == b'1'
    then "1"
    else if c == b'2'
    then "2"
    else if c == b'3'
    then "3"
    else if c == b'4'
    then "4"
    else if c == b'5'
    then "5"
    else if c == b'6'
    then "6"
    else if c == b'7'
    then "7"
    else if c == b'8'
    then "8"
    else "9"

digits : Text → String
digits [] = ""
digits (c ∷ s) = str_append (digit c) (digits s)

unfoldable pub show : ℕ → String
unfolding digits
show n = digits (to_string n)

abbrev pub suffix_of : WebhookDelivery → Option String → String
suffix_of d (some s) = s
suffix_of d none = if ltb 0 d.attempt_count then str_append "r" (show d.attempt_count) else ""

abbrev pub deliver_job : WebhookDelivery → ℕ → Option String → Job
deliver_job d delay suffix =
    Job.deliver
      (if str_eq (suffix_of d suffix) ""
        then d.public_id
        else str_append d.public_id (str_append "_" (suffix_of d suffix)))
      d.id delay

unfoldable pub enqueue_attempt : Queue → WebhookDelivery → ℕ → Option String → M (Unit {0})
enqueue_attempt Queue.absent d delay suffix w = (ok tt, w)
enqueue_attempt Queue.up d delay suffix w =
    (ok tt, record w { jobs = add_job (deliver_job d delay suffix) w.jobs })
enqueue_attempt Queue.down d delay suffix w = (err (other_error "queue"), w)

-- The unique index `(endpointId, eventId)`.
abbrev pub is_delivery_of : String → String → WebhookDelivery → Bool
is_delivery_of endpoint event d = str_eq d.endpoint_id endpoint && str_eq d.event_id event

-- The ids that the database and the ULID generator give to the delivery to an endpoint.
pub record Ids : Type 0 where
  pub row_id : String
  pub ulid : String

abbrev pub new_delivery : PaymentEvent → WebhookEndpoint → Ids → ℕ → WebhookDelivery
new_delivery e endpoint ids now = record {
  id = ids.row_id;
  public_id = str_append "whd_" ids.ulid;
  business_id = e.business_id;
  endpoint_id = endpoint.id;
  event_id = e.public_id;
  status = DeliveryStatus.pending;
  attempt_count = 0;
  next_attempt_at = some now;
  last_attempt_at = none;
  response_status = none;
  response_body = none;
  delivered_at = none;
  created_at = now;
}

insert_delivery : WebhookDelivery → M (Option WebhookDelivery)
insert_delivery d w =
    if any (is_delivery_of d.endpoint_id d.event_id) w.deliveries
    then (err unique_violation, w)
    else (ok (some d), record w { deliveries = w.deliveries ++ d ∷ [] })

abbrev none_if_taken : Error → M (Option WebhookDelivery)
none_if_taken unique_violation = return none
none_if_taken e = throw e

-- `createDelivery`: none where the endpoint has a delivery of the event.
unfoldable pub create_delivery : WebhookDelivery → M (Option WebhookDelivery)
unfolding insert_delivery
create_delivery d = catch (insert_delivery d) none_if_taken

-- `findMany` of the endpoints that are subscribed to the event.
abbrev pub is_subscribed : PaymentEvent → WebhookEndpoint → Bool
is_subscribed e p =
    str_eq p.business_id e.business_id
    && env_eq p.environment e.snapshot.environment
    && p.active
    && any (status_eq e.type) p.events

unfoldable pub subscribed : PaymentEvent → List WebhookEndpoint → List WebhookEndpoint
subscribed e [] = []
subscribed e (p ∷ ps) = let rest = subscribed e ps in if is_subscribed e p then p ∷ rest else rest

-- The first attempt of a delivery that is new.
abbrev pub enqueue_new : Queue → Option WebhookDelivery → M ℕ
enqueue_new q none = return 0
enqueue_new q (some d) = do enqueue_attempt q d 0 none; return 1

unfoldable pub deliver_each :
    Queue → PaymentEvent → (WebhookEndpoint → Ids) → ℕ → List WebhookEndpoint → M ℕ
deliver_each q e ids now [] = return 0
deliver_each q e ids now (p ∷ ps) = do
  d ← create_delivery (new_delivery e p (ids p) now)
  n ← enqueue_new q d
  k ← deliver_each q e ids now ps
  return (n + k)

unfoldable pub enqueue_deliveries : Queue → PaymentEvent → (WebhookEndpoint → Ids) → ℕ → M ℕ
unfolding deliver_each subscribed
enqueue_deliveries q e ids now w = deliver_each q e ids now (subscribed e w.endpoints) w

unfoldable pub fanout_event : Queue → String → (WebhookEndpoint → Ids) → ℕ → M ℕ
fanout_event q id ids now w = elim (find_by (λ e. e.id) id w.events) [
  | none ↦ (ok 0, w)
  | some e ↦ enqueue_deliveries q e ids now w
]
