-- ===== src/Tests/Endpoints.antt =====
-- Examples for the endpoints and their requests.
use hypertron_api.Prelude.{
  ◌*◌, List, [], ◌∷◌, Option, none, some, true, false, filter, leb, eq_iff, ◌≡◌, refl, arith,
}
use hypertron_api.Prelude.Text.{Text, codes}
use hypertron_api.Store.Tables.{PaymentStatus, test, live, WebhookEndpoint}
use hypertron_api.Store.Effects.{World, ok}
use hypertron_api.Store.Rows.{Unique}
use hypertron_api.Crypto.{pos, distance, verify_webhook_signature}
use hypertron_api.Webhooks.Endpoints.{
  Url, CreateEndpointInput, UpdateEndpointInput, EndpointWithSecret, EndpointDraw, create,
}
use hypertron_api.Webhooks.Endpoints.Calls.{Op, creates, updates, removes, IsValid, row_id}
use hypertron_api.Webhooks.Endpoints.Runs.{run_all}
use hypertron_api.Webhooks.Endpoints.Others.{AllValid, is_other, run_all-others, run_all-AllValid}
use hypertron_api.Webhooks.Sending.{
  WebhookEventPayload, WebhookRequest, build_test_payload, signed_request,
}
use hypertron_api.Webhooks.Sending.Signed.{header_value, signed_request-create}
use hypertron_api.Tests.Fixtures.{empty_world}
use hypertron_api.Tests.Runtimes.{zeros, primitives, primitives-IsSound, primitives-IsMac}

-- Every text is a URL over https.
abbrev parse_url : Text → Option Url
parse_url t = some (record { protocol = codes "https:"; hostname = codes "example.org"; text = t })

abbrev hook : Text
hook = codes "https://example.org/hook"

abbrev endpoint : WebhookEndpoint
endpoint = record {
  id = "w1";
  public_id = "whe_1";
  business_id = "shop";
  environment = live;
  url = hook;
  description = none;
  events = PaymentStatus.completed ∷ [];
  signing_secret_encrypted = [];
  secret_last_four = codes "cdef";
  active = true;
  disabled_at = none;
}

abbrev two_endpoints : World
two_endpoints = record empty_world {
  endpoints =
      endpoint ∷ record endpoint { id = "w2"; public_id = "whe_2"; business_id = "other" } ∷ [];
}

two_endpoints-Unique : Unique row_id two_endpoints.endpoints
two_endpoints-Unique id = ground (arith, eq_iff "w1" id, eq_iff "w2" id, eq_iff "w1" "w2")

abbrev input : CreateEndpointInput
input = record {
  business_id = "shop";
  url = hook;
  environment = test;
  events = codes "payment.completed" ∷ codes "payment.failed" ∷ codes "payment.completed" ∷ [];
  description = none;
}

abbrev draw : EndpointDraw
draw = record { row_id = "w3"; ulid = "whe_3"; signing_secret = codes "0f"; iv = zeros 12 }

abbrev switch_off : UpdateEndpointInput
switch_off = record { url = none; events = none; description = none; active = some false }

abbrev ops : List Op
ops = creates input draw ∷ updates "whe_1" switch_off 5 ∷ removes "whe_2" ∷ removes "whe_1" ∷ []

-- 64 digits.
abbrev configured : Option Text
configured = some (codes "00112233445566778899aabbccddeeff00112233445566778899aabbccddeeff")

run_all-others_example :
    filter
      (is_other "shop")
      (run_all parse_url "shop" primitives configured ops two_endpoints).endpoints
    ≡ filter (is_other "shop") two_endpoints.endpoints
run_all-others_example =
    run_all-others parse_url "shop" primitives configured ops two_endpoints two_endpoints-Unique

endpoint-IsValid :
    (p : WebhookEndpoint)
    → p.url ≡ hook
    → p.events ≡ PaymentStatus.completed ∷ []
    → IsValid parse_url p
endpoint-IsValid p e h = record {
  url = (
    hook,
    record { protocol = codes "https:"; hostname = codes "example.org"; text = hook },
    refl,
    refl,
    e,
  );
  events = λ k. absurd (let f : false ≡ true = cc in cc);
}

run_all-AllValid_example :
    AllValid parse_url "shop"
      (run_all parse_url "shop" primitives configured ops two_endpoints).endpoints
run_all-AllValid_example =
    run_all-AllValid parse_url "shop" primitives configured ops two_endpoints two_endpoints-Unique
      (endpoint-IsValid _ refl refl, (endpoint-IsValid _ refl refl, tt))

abbrev created_endpoint : EndpointWithSecret
created_endpoint = record {
  endpoint = record endpoint {
    id = "w3";
    public_id = "whe_3";
    environment = test;
    events = PaymentStatus.completed ∷ PaymentStatus.failed ∷ [];
    signing_secret_encrypted =
        codes "000000000000000000000000:00000000000000000000000000000000:3066";
    secret_last_four = codes "0f";
  };
  signing_secret = codes "0f";
}

is_created :
    (create parse_url primitives configured input draw two_endpoints).0 ≡ ok created_endpoint
unfolding create hypertron_api.Crypto.from_hex hypertron_api.Crypto.to_hex
is_created = refl

abbrev stringify : WebhookEventPayload → Text
stringify p = p.id

-- The endpoint after its URL and its events were changed.
abbrev changed_endpoint : WebhookEndpoint
changed_endpoint = record (created_endpoint.endpoint) {
  url = codes "https://example.org/other";
  events = PaymentStatus.failed ∷ [];
}

signed_request-create_example :
    (q : WebhookRequest) × (signature : Text) × (signed_request primitives stringify configured
        changed_endpoint
        (build_test_payload test "shop" 7)
        (codes "whd_1")
        1000
      ≡ ok q)
    × (q.url ≡ codes "https://example.org/other")
    × (header_value "Hypertron-Signature" q.headers ≡ some signature)
    × (verify_webhook_signature primitives signature created_endpoint.signing_secret q.body 1100
          300000
        ≡ leb (distance 1100 (pos 1000) * 1000) 300000)
signed_request-create_example =
    signed_request-create primitives primitives-IsSound primitives-IsMac parse_url configured input
      draw two_endpoints created_endpoint refl refl refl changed_endpoint stringify
      (build_test_payload test "shop" 7) (codes "whd_1") 1000 1100 300000 (omega arith) is_created
      refl
