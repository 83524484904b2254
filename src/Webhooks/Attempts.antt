-- ===== src/Webhooks/Attempts.antt =====
-- One attempt of a delivery and the manual retry
-- (src/modules/webhooks/webhook-delivery.service.ts).
pub mod Bounds
use hypertron_api.Prelude.{
  ℕ, ◌+◌, ◌≤◌, ◌<◌, String, List, [], ◌∷◌, Option, none, some, Bool, true, false, not, ◌&&◌, str_eq,
  str_append, if◌then◌else◌,
}
use hypertron_api.Prelude.Text.{Text, codes}
use hypertron_api.Store.Tables.{
  PaymentEvent, DeliveryStatus, pending, delivered, failed, WebhookEndpoint, WebhookDelivery,
}
use hypertron_api.Store.Effects.{
  World, invalid_request, resource_missing, Result, ok, err, M, ◌>>=◌, ◌>>◌, return, throw, find_by,
  update_by,
}
use hypertron_api.Payments.Events.{Queue}
use hypertron_api.Webhooks.Schedule.{is_retryable_status, retry_delay_ms}
use hypertron_api.Webhooks.Delivery.{
  AttemptResult, DeliveryOutcome, truncate, or_else, show, enqueue_attempt,
}

abbrev pub delivery_eq : DeliveryStatus → DeliveryStatus → Bool
delivery_eq pending pending = true
delivery_eq delivered delivered = true
delivery_eq failed failed = true
delivery_eq _ _ = false

-- What one attempt gets from the outside: the endpoint's answer to the signed payload, the clock,
-- and the state of the queue service.
pub record AttemptInput : Type 0 where
  pub send : WebhookEndpoint → PaymentEvent → AttemptResult
  pub now : ℕ
  pub queue : Queue

-- The fields that every attempt sets.
abbrev pub attempted : ℕ → Option ℕ → Option Text → WebhookDelivery → WebhookDelivery
attempted now status body d = record d {
  attempt_count = d.attempt_count + 1;
  last_attempt_at = some now;
  response_status = status;
  response_body = truncate body;
}

abbrev pub succeeded : ℕ → AttemptResult → WebhookDelivery → WebhookDelivery
succeeded now r d = record (attempted now r.status r.body d) {
  status = delivered;
  delivered_at = some now;
  next_attempt_at = none;
}

abbrev pub given_up : ℕ → AttemptResult → WebhookDelivery → WebhookDelivery
given_up now r d = record (attempted now r.status (or_else r.body r.error) d) {
  status = failed;
  next_attempt_at = none;
}

abbrev pub rescheduled : ℕ → ℕ → AttemptResult → WebhookDelivery → WebhookDelivery
rescheduled now delay r d = record (attempted now r.status (or_else r.body r.error) d) {
  next_attempt_at = some (now + delay);
}

-- `markFailed`: no request was sent.
abbrev pub marked_failed : ℕ → Text → WebhookDelivery → WebhookDelivery
marked_failed now message d = record (attempted now none (some message) d) {
  status = failed;
  next_attempt_at = none;
}

abbrev pub find_delivery : String → World → Option WebhookDelivery
find_delivery k w = find_by (λ d. d.id) k w.deliveries

-- `update` of the row of a delivery that was read.
unfoldable pub write_delivery : WebhookDelivery → M (Unit {0})
write_delivery d w =
    (ok tt, record w { deliveries = update_by (λ q. q.id) d.id (λ _. d) w.deliveries })

-- Network errors and time-outs have no status, and can always be retried.
abbrev pub is_retryable : Option ℕ → Bool
is_retryable none = true
is_retryable (some status) = is_retryable_status status

abbrev pub delay_after : WebhookDelivery → AttemptResult → Option ℕ
delay_after d r = if is_retryable r.status then retry_delay_ms (d.attempt_count + 1) else none

unfoldable pub after_failure :
    AttemptInput → WebhookDelivery → AttemptResult → Option ℕ → M DeliveryOutcome
after_failure i d r none = do write_delivery (given_up i.now r d); return DeliveryOutcome.failed
after_failure i d r (some delay) = do
  write_delivery (rescheduled i.now delay r d)
  enqueue_attempt i.queue (rescheduled i.now delay r d) delay none
  return DeliveryOutcome.retry_scheduled

unfoldable pub after_send : AttemptInput → WebhookDelivery → AttemptResult → M DeliveryOutcome
unfolding after_failure
after_send i d r =
    if r.ok
    then (do write_delivery (succeeded i.now r d); return DeliveryOutcome.delivered)
    else after_failure i d r (delay_after d r)

abbrev pub mark_failed : AttemptInput → WebhookDelivery → Text → M DeliveryOutcome
mark_failed i d message = do
  write_delivery (marked_failed i.now message d)
  return DeliveryOutcome.failed

-- The endpoint if it is there and active, and the source event if it is there.
abbrev active_endpoint : Option WebhookEndpoint → Option WebhookEndpoint
active_endpoint none = none
active_endpoint (some p) = if p.active then some p else none

to_endpoint :
    AttemptInput
    → WebhookDelivery
    → Option PaymentEvent
    → Option WebhookEndpoint
    → M DeliveryOutcome
to_endpoint i d event none = mark_failed i d (codes "Endpoint is inactive or no longer exists")
to_endpoint i d none (some p) = mark_failed i d (codes "Source event no longer exists")
to_endpoint i d (some e) (some p) = after_send i d (i.send p e)

attempt_row : AttemptInput → Option WebhookDelivery → M DeliveryOutcome
attempt_row i none w = (ok DeliveryOutcome.skipped, w)
attempt_row i (some d) w =
    if delivery_eq d.status pending
    then to_endpoint i d (find_by (λ e. e.public_id) d.event_id w.events)
        (active_endpoint (find_by (λ p. p.id) d.endpoint_id w.endpoints)) w
    else (ok DeliveryOutcome.skipped, w)

unfoldable pub attempt_delivery : String → AttemptInput → M DeliveryOutcome
unfolding attempt_row to_endpoint
attempt_delivery id i w = attempt_row i (find_delivery id w) w

-- `findOneOrThrow` of the endpoint, by its public id and the merchant.
unfoldable pub find_endpoint : String → String → List WebhookEndpoint → Option WebhookEndpoint
find_endpoint public_id business_id [] = none
find_endpoint public_id business_id (p ∷ ps) =
    let rest = find_endpoint public_id business_id ps in
    if str_eq p.public_id public_id && str_eq p.business_id business_id then some p else rest

abbrev is_own_delivery : String → String → String → WebhookDelivery → Bool
is_own_delivery public_id business_id endpoint_id d =
    str_eq d.public_id public_id
    && str_eq d.business_id business_id
    && str_eq d.endpoint_id endpoint_id

unfoldable pub find_own_delivery :
    String → String → String → List WebhookDelivery → Option WebhookDelivery
find_own_delivery public_id business_id endpoint_id [] = none
find_own_delivery public_id business_id endpoint_id (d ∷ ds) =
    let rest = find_own_delivery public_id business_id endpoint_id ds in
    if is_own_delivery public_id business_id endpoint_id d then some d else rest

abbrev pub reset : ℕ → WebhookDelivery → WebhookDelivery
reset now d = record d { status = pending; attempt_count = 0; next_attempt_at = some now }

retry_row : Queue → ℕ → Option WebhookDelivery → M WebhookDelivery
retry_row q now none = throw (invalid_request "delivery_not_found")
retry_row q now (some d) =
    if delivery_eq d.status delivered
    then throw (invalid_request "delivery_already_delivered")
    else (do
      write_delivery (reset now d)
      enqueue_attempt q (reset now d) 0 (some (str_append "manual_" (show now)))
      return (reset now d))

retry_at : Queue → ℕ → String → String → Option WebhookEndpoint → M WebhookDelivery
retry_at q now public_id business_id none w = (err (resource_missing "webhook_endpoint"), w)
retry_at q now public_id business_id (some p) w =
    retry_row q now (find_own_delivery public_id business_id p.id w.deliveries) w

unfoldable pub retry_delivery : String → String → String → ℕ → Queue → M WebhookDelivery
unfolding retry_row retry_at find_endpoint find_own_delivery
retry_delivery endpoint_id public_id business_id now q w =
    retry_at q now public_id business_id (find_endpoint endpoint_id business_id w.endpoints) w
