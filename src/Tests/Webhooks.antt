-- ===== src/Tests/Webhooks.antt =====
-- Examples for the webhooks.
use hypertron_api.Prelude.{[], ◌∷◌, none, some, true, false, ◌≡◌, refl}
use hypertron_api.Prelude.Text.{codes}
use hypertron_api.Store.Tables.{PaymentStatus, test, PaymentEvent, WebhookEndpoint}
use hypertron_api.Store.Effects.{World, ok}
use hypertron_api.Payments.Events.{Queue}
use hypertron_api.Webhooks.Delivery.{Ids, subscribed, new_delivery, enqueue_deliveries}
use hypertron_api.Webhooks.Delivery.Replay.{enqueue_deliveries_taken}
use hypertron_api.Webhooks.Attempts.{AttemptInput}
use hypertron_api.Webhooks.Attempts.Bounds.{IsBounded, fan_out, attempt, retry, run, run-IsBounded}
use hypertron_api.Tests.Fixtures.{invoice, empty_world}

abbrev event : PaymentEvent
event = record {
  id = "e1";
  public_id = "evt_1";
  business_id = "shop";
  payment_id = "p1";
  type = PaymentStatus.pending;
  snapshot = invoice;
  created_at = 10;
}

abbrev endpoint : WebhookEndpoint
endpoint = record {
  id = "w1";
  public_id = "whe_1";
  business_id = "shop";
  environment = test;
  url = codes "https://example.org/hook";
  description = none;
  events = PaymentStatus.pending ∷ [];
  signing_secret_encrypted = [];
  secret_last_four = codes "cdef";
  active = true;
  disabled_at = none;
}

abbrev ids : WebhookEndpoint → Ids
ids p = record { row_id = "d1"; ulid = "D1" }

abbrev with_endpoint : World
with_endpoint = record empty_world { events = event ∷ []; endpoints = endpoint ∷ [] }

abbrev refused : AttemptInput
refused = record {
  send = λ p e. record { ok = false; status = some 503; body = none; error = none };
  now = 20;
  queue = Queue.up;
}

run-IsBounded_example : IsBounded (
    run
      (fan_out Queue.up "e1" ids 15
        ∷ attempt "d1" refused
        ∷ retry "whe_1" "whd_D1" "shop" 30 Queue.up
        ∷ [])
      with_endpoint)
run-IsBounded_example =
    run-IsBounded
      (fan_out Queue.up "e1" ids 15
        ∷ attempt "d1" refused
        ∷ retry "whe_1" "whd_D1" "shop" 30 Queue.up
        ∷ [])
      with_endpoint refl

abbrev delivered_once : World
delivered_once = record with_endpoint {
  deliveries = new_delivery event endpoint (ids endpoint) 15 ∷ [];
}

enqueue_deliveries_taken_example :
    enqueue_deliveries Queue.up event ids 16 delivered_once ≡ (ok 0, delivered_once)
unfolding subscribed
enqueue_deliveries_taken_example =
    enqueue_deliveries_taken Queue.up event ids 16 delivered_once refl
