-- ===== src/Webhooks/Sending.antt =====
-- The request that a delivery sends: src/modules/webhooks/webhook-payload.ts and the methods send and
-- sendTest of webhook-delivery.service.ts. JSON and `fetch` belong to the runtime and are arguments;
-- a snapshot is a payment already, so that its dates need no coercion.
pub mod Signed
use hypertron_api.Prelude.{
  ℕ, ◌/◌, String, List, [], ◌∷◌, Option, none, some, Bool, true, false, ◌&&◌, leb, ltb, str_eq,
  replicate, if◌then◌else◌,
}
use hypertron_api.Prelude.Text.{Text, codes}
use hypertron_api.Store.Tables.{
  Environment, PaymentStatus, usdc, Payment, PaymentEvent, PaymentResponse, WebhookEndpoint,
}
use hypertron_api.Store.Effects.{Result, ok, err, M, ◌>>=◌}
use hypertron_api.Payments.Service.{to_payment_response}
use hypertron_api.Crypto.{Primitives}
use hypertron_api.Webhooks.Signer.{decrypt, build_headers}
use hypertron_api.Webhooks.Delivery.{AttemptResult}
use hypertron_api.Webhooks.Endpoints.{find_one_or_throw, lift}

pub record WebhookEventPayload : Type 0 where
  pub id : Text
  pub type : PaymentStatus
  pub environment : Environment
  pub created_at : ℕ
  pub object : PaymentResponse

abbrev pub build_webhook_payload : PaymentEvent → WebhookEventPayload
build_webhook_payload event = record {
  id = codes event.public_id;
  type = event.type;
  environment = event.snapshot.environment;
  created_at = event.created_at;
  object = to_payment_response event.snapshot;
}

-- The payload of a test. The row is made up and never stored.
abbrev pub test_payment : Environment → String → ℕ → Payment
test_payment environment business_id now = record {
  id = "";
  public_id = "pay_00000000000000000000000000";
  business_id = business_id;
  environment = environment;
  status = PaymentStatus.completed;
  amount = codes "10.00";
  currency = usdc;
  description = some "Test webhook delivery";
  customer_id = some "cus_00000000000000000000000000";
  metadata = ("test", "true") ∷ [];
  checkout_url = "https://pay.hypertron.xyz/pay/test";
  checkout_link_id = "";
  link_memo = "hpl_test";
  destination_address = codes "GAAAAAAAAAAAAAAAAAAAAAAAAAAAAAAAAAAAAAAAAAAAAAAAAAAAAWHF";
  payer_address = some "GBBBBBBBBBBBBBBBBBBBBBBBBBBBBBBBBBBBBBBBBBBBBBBBBBBBBWHF";
  transaction_hash = some "0000000000000000000000000000000000000000000000000000000000000000";
  asset_issuer = none;
  failure_code = none;
  failure_message = none;
  expires_at = none;
  paid_at = some now;
  completed_at = some now;
  canceled_at = none;
  created_at = now;
  updated_at = now;
}

abbrev pub build_test_payload : Environment → String → ℕ → WebhookEventPayload
build_test_payload environment business_id now = record {
  id = codes "evt_00000000000000000000000000";
  type = PaymentStatus.completed;
  environment = environment;
  created_at = now;
  object = to_payment_response (test_payment environment business_id now);
}

pub record WebhookRequest : Type 0 where
  pub url : Text
  pub headers : List (String × Text)
  pub body : Text

-- What `fetch` comes to: a status and a text, or an error.
pub data Fetched : Type 0 where
  answered : ℕ → Text → Fetched
  broken : Text → Fetched

abbrev attempt_result : Fetched → AttemptResult
attempt_result (answered status body) = record {
  ok = leb 200 status && ltb status 300;
  status = some status;
  body = some body;
  error = none;
}
attempt_result (broken message) = record {
  ok = false;
  status = none;
  body = none;
  error = some message;
}

module _ (p : Primitives) (stringify : WebhookEventPayload → Text) (configured : Option Text) where
  abbrev request_under :
      WebhookEndpoint → WebhookEventPayload → Text → ℕ → Result Text → Result WebhookRequest
  request_under endpoint payload delivery_id timestamp (err e) = err e
  request_under endpoint payload delivery_id timestamp (ok secret) = ok (record {
    url = endpoint.url;
    headers = build_headers p secret (stringify payload) payload.id delivery_id timestamp;
    body = stringify payload;
  })

  -- The request of an attempt; the clock is in seconds.
  unfoldable pub signed_request :
      WebhookEndpoint → WebhookEventPayload → Text → ℕ → Result WebhookRequest
  unfolding build_headers decrypt
  signed_request endpoint payload delivery_id timestamp =
      request_under endpoint payload delivery_id timestamp
        (decrypt p configured endpoint.signing_secret_encrypted)

  abbrev fetched : (WebhookRequest → Fetched) → Result WebhookRequest → Result AttemptResult
  fetched fetch (err e) = err e
  fetched fetch (ok r) = ok (attempt_result (fetch r))

  unfoldable pub send :
      (WebhookRequest → Fetched)
      → WebhookEndpoint
      → WebhookEventPayload
      → Text
      → ℕ
      → Result AttemptResult
  unfolding signed_request
  send fetch endpoint payload delivery_id timestamp =
      fetched fetch (signed_request endpoint payload delivery_id timestamp)

  abbrev sent_test :
      (WebhookRequest → Fetched) → Text → ℕ → String → WebhookEndpoint → Result AttemptResult
  sent_test fetch delivery_id now_ms business_id endpoint =
      send fetch endpoint (build_test_payload endpoint.environment business_id now_ms) delivery_id
        (now_ms / 1000)

  -- `delivery_id` is the id that is drawn; nothing is written.
  unfoldable pub send_test :
      (WebhookRequest → Fetched) → String → String → Text → ℕ → M AttemptResult
  unfolding send find_one_or_throw
  send_test fetch endpoint_id business_id delivery_id now_ms = do
    endpoint ← find_one_or_throw endpoint_id business_id
    lift (sent_test fetch delivery_id now_ms business_id endpoint)
