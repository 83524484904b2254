-- ===== src/Webhooks/Endpoints.antt =====
-- src/modules/webhooks/webhook-endpoint.service.ts: the endpoints of a merchant. `new URL` belongs to
-- the runtime and is an argument, as are the ids, the secret and the IV that are drawn.
pub mod Calls
pub mod Runs
pub mod Others
use hypertron_api.Prelude.{
  ℕ, String, List, [], ◌∷◌, ◌++◌, Option, none, some, Bool, true, false, not, ◌&&◌, ◌||◌, str_eq,
  any, filter, if◌then◌else◌,
}
use hypertron_api.Prelude.Text.{Text, codes, text_eq}
use hypertron_api.Store.Tables.{
  Environment, test, live, PaymentStatus, created, pending, confirmed, completed, failed, expired,
  canceled, WebhookEndpoint, WebhookDelivery,
}
use hypertron_api.Store.Effects.{
  World, unique_violation, invalid_request, resource_missing, Result, ok, err, M, ◌>>=◌, ◌>>◌,
  return, throw, update_by,
}
use hypertron_api.Payments.Events.{status_eq}
use hypertron_api.Errors.{is_some, or_else}
use hypertron_api.Crypto.{Primitives}
use hypertron_api.Webhooks.Attempts.{find_endpoint}
use hypertron_api.Webhooks.Signer.{last_four, encrypt}

-- `new URL(text)`, by what the service reads of it; `text` is `toString()`.
pub record Url : Type 0 where
  pub protocol : Text
  pub hostname : Text
  pub text : Text

pub record CreateEndpointInput : Type 0 where
  pub business_id : String
  pub url : Text
  pub environment : Environment
  pub events : List Text
  pub description : Option String

-- A field that is none is `undefined`; a description may be set to null.
pub record UpdateEndpointInput : Type 0 where
  pub url : Option Text
  pub events : Option (List Text)
  pub description : Option (Option String)
  pub active : Option Bool

pub record EndpointWithSecret : Type 0 where
  pub endpoint : WebhookEndpoint
  pub signing_secret : Text

pub record EndpointDraw : Type 0 where
  pub row_id : String
  pub ulid : String
  pub signing_secret : Text
  pub iv : List ℕ

abbrev pub is_test : Environment → Bool
is_test test = true
is_test live = false

abbrev pub is_loopback : Url → Bool
is_loopback u =
    text_eq u.hostname (codes "localhost")
    || text_eq u.hostname (codes "127.0.0.1")
    || text_eq u.hostname (codes "[::1]")

abbrev pub allowed_url : Environment → Url → Bool
allowed_url e u =
    text_eq u.protocol (codes "https:")
    || (text_eq u.protocol (codes "http:") && is_test e && is_loopback u)

abbrev checked_url : Environment → Option Url → Result Text
checked_url e none = err (invalid_request "invalid_webhook_url")
checked_url e (some u) =
    if allowed_url e u then ok u.text else err (invalid_request "invalid_webhook_url")

-- The type of an event by its text; none for a text that is no type.
abbrev pub webhook_event_type : Text → Option PaymentStatus
webhook_event_type t =
    if text_eq t (codes "payment.created")
    then some created
    else if text_eq t (codes "payment.pending")
    then some pending
    else if text_eq t (codes "payment.confirmed")
    then some confirmed
    else if text_eq t (codes "payment.completed")
    then some completed
    else if text_eq t (codes "payment.failed")
    then some failed
    else if text_eq t (codes "payment.expired")
    then some expired
    else if text_eq t (codes "payment.canceled")
    then some canceled
    else none

-- `[...new Set(events)]`: the first of each, in order.
unfoldable pub unique_from : List Text → List Text → List Text
unique_from seen [] = []
unique_from seen (t ∷ ts) =
    let fresh = unique_from (t ∷ seen) ts in
    let rest = unique_from seen ts in if any (text_eq t) seen then rest else t ∷ fresh

unfoldable pub known_events : List Text → Option (List PaymentStatus)
known_events [] = some []
known_events (t ∷ ts) =
    let rest = known_events ts in
    elim (webhook_event_type t) [
      | none ↦ none
      | some s ↦ elim rest [ none ↦ none | some ss ↦ some (s ∷ ss) ]
    ]

abbrev some_events : Option (List PaymentStatus) → Result (List PaymentStatus)
some_events none = err (invalid_request "invalid_webhook_events")
some_events (some []) = err (invalid_request "invalid_webhook_events")
some_events (some (s ∷ ss)) = ok (s ∷ ss)

unfoldable pub validate_events : List Text → Result (List PaymentStatus)
unfolding unique_from known_events
validate_events events = some_events (known_events (unique_from [] events))

abbrev pub lift {ℓ} : {A : Type ℓ} → Result A → M A
lift r w = (r, w)

-- The primary key of the table, and its unique public id.
abbrev pub same_ids : WebhookEndpoint → WebhookEndpoint → Bool
same_ids p q = str_eq q.id p.id || str_eq q.public_id p.public_id

unfoldable pub create_endpoint : WebhookEndpoint → M WebhookEndpoint
create_endpoint p w =
    if any (same_ids p) w.endpoints
    then (err unique_violation, w)
    else (ok p, record w { endpoints = w.endpoints ++ p ∷ [] })

abbrev found_or_throw : Option WebhookEndpoint → M WebhookEndpoint
found_or_throw none = throw (resource_missing "webhook_endpoint")
found_or_throw (some p) = return p

unfoldable pub find_one_or_throw : String → String → M WebhookEndpoint
unfolding find_endpoint
find_one_or_throw public_id business_id w =
    found_or_throw (find_endpoint public_id business_id w.endpoints) w

-- `update` of the row with the id, which is there, unless no field is given.
abbrev pub saved : WebhookEndpoint → (WebhookEndpoint → WebhookEndpoint) → Bool → M WebhookEndpoint
saved existing f true w = (ok existing, w)
saved existing f false w =
    (ok (f existing), record w { endpoints = update_by (λ q. q.id) existing.id f w.endpoints })

abbrev updated_events : Option (List Text) → Result (Option (List PaymentStatus))
updated_events none = ok none
updated_events (some events) = elim (validate_events events) [
  | ok es ↦ ok (some es)
  | err x ↦ err x
]

abbrev set_active : Option Bool → ℕ → WebhookEndpoint → WebhookEndpoint
set_active none now p = p
set_active (some true) now p = record p { active = true; disabled_at = none }
set_active (some false) now p = record p { active = false; disabled_at = some now }

-- The fields that are set; `url` and `events` are the validated ones.
abbrev pub changed :
    Option Text
    → Option (List PaymentStatus)
    → UpdateEndpointInput
    → ℕ
    → WebhookEndpoint
    → WebhookEndpoint
changed url events input now p = set_active input.active now (record p {
  url = or_else url p.url;
  events = or_else events p.events;
  description = or_else input.description p.description;
})

abbrev pub is_empty_update : UpdateEndpointInput → Bool
is_empty_update input =
    not (
      is_some input.url
      || is_some input.events
      || is_some input.description
      || is_some input.active)

module _ (parse_url : Text → Option Url) where
  unfoldable pub validate_url : Text → Environment → Result Text
  validate_url raw_url e = checked_url e (parse_url raw_url)

  abbrev updated_url : Environment → Option Text → Result (Option Text)
  updated_url e none = ok none
  updated_url e (some raw_url) = elim (validate_url raw_url e) [
    | ok u ↦ ok (some u)
    | err x ↦ err x
  ]

  unfoldable pub create :
      Primitives → Option Text → CreateEndpointInput → EndpointDraw → M EndpointWithSecret
  unfolding validate_url validate_events encrypt create_endpoint
  create p configured input i = do
    url ← lift (validate_url input.url input.environment)
    events ← lift (validate_events input.events)
    envelope ← lift (encrypt p configured i.iv i.signing_secret)
    endpoint ← create_endpoint (record {
      id = i.row_id;
      public_id = i.ulid;
      business_id = input.business_id;
      environment = input.environment;
      url = url;
      description = input.description;
      events = events;
      signing_secret_encrypted = envelope;
      secret_last_four = last_four i.signing_secret;
      active = true;
      disabled_at = none;
    })
    return (record { endpoint = endpoint; signing_secret = i.signing_secret })

  unfoldable pub update : String → String → UpdateEndpointInput → ℕ → M WebhookEndpoint
  unfolding find_one_or_throw
  update public_id business_id input now = do
    existing ← find_one_or_throw public_id business_id
    url ← lift (updated_url existing.environment input.url)
    events ← lift (updated_events input.events)
    saved existing (changed url events input now) (is_empty_update input)

abbrev pub with_secret : Text → Text → WebhookEndpoint → WebhookEndpoint
with_secret envelope secret q = record q {
  signing_secret_encrypted = envelope;
  secret_last_four = last_four secret;
}

unfoldable pub rotate_secret :
    Primitives → Option Text → String → String → EndpointDraw → M EndpointWithSecret
unfolding find_one_or_throw encrypt
rotate_secret p configured public_id business_id i = do
  existing ← find_one_or_throw public_id business_id
  envelope ← lift (encrypt p configured i.iv i.signing_secret)
  endpoint ← saved existing (with_secret envelope i.signing_secret) false
  return (record { endpoint = endpoint; signing_secret = i.signing_secret })

-- `deleteMany` of the deliveries, and `delete` of the row with the id.
abbrev pub without_endpoint : String → World → World
without_endpoint id w = record w {
  deliveries = filter (λ d. not (str_eq d.endpoint_id id)) w.deliveries;
  endpoints = filter (λ q. not (str_eq q.id id)) w.endpoints;
}

unfoldable pub remove : String → String → M WebhookEndpoint
unfolding find_one_or_throw
remove public_id business_id = do
  existing ← find_one_or_throw public_id business_id
  (λ w. (ok existing, without_endpoint existing.id w))
