-- ===== src/Errors.antt =====
-- The errors of the API: src/common/exceptions/hypertron.exception.ts, and the filters of
-- src/common/filters, which turn whatever a handler throws into a response (`Errors.Filter`). A JSON value is data;
-- the clock in seconds is an argument.
pub mod Filter
use hypertron_api.Prelude.{
  ℕ, zero, suc, ◌+◌, ◌*◌, ◌/◌, max, List, [], ◌∷◌, ◌++◌, Option, none, some, Bool, true, false, not,
  ◌&&◌, ◌||◌, leb, ◌==◌, all, length, if◌then◌else◌,
}
use hypertron_api.Prelude.Text.{Text, codes, text_eq}
use hypertron_api.Amount.{is_digit, to_string}

mutual
  pub data Json : Type 0 where
    null : Json
    boolean : Bool → Json
    number : ℕ → Json
    text : Text → Json
    array : Items → Json
    object : Fields → Json

  pub data Items : Type 0 where
    nil : Items
    item : Json → Items → Items

  pub data Fields : Type 0 where
    end : Fields
    field : Text → Json → Fields → Fields

-- A field of an object; none is `undefined`.
unfoldable pub get : Text → Fields → Option Json
get name end = none
get name (field n v fs) = let rest = get name fs in if text_eq n name then some v else rest

-- `{ ...fields, name: value }`.
unfoldable pub put : Text → Json → Fields → Fields
put name v end = field name v end
put name v (field n u fs) =
    let rest = put name v fs in if text_eq n name then field n v fs else field n u rest

abbrev pub is_some {ℓ} : {A : Type ℓ} → Option A → Bool
is_some none = false
is_some (some a) = true

pub record HypertronErrorPayload : Type 0 where
  pub error_type : Text
  pub code : Text
  pub message : Text
  pub param : Option Text

pub record HypertronException : Type 0 where
  pub payload : HypertronErrorPayload
  pub status : ℕ

abbrev plain : Text → Text → Text → ℕ → HypertronException
plain error_type code message status = record {
  payload = record { error_type = error_type; code = code; message = message; param = none };
  status = status;
}

-- An empty `param` is left out.
abbrev pub truthy : Option Text → Option Text
truthy none = none
truthy (some []) = none
truthy (some (c ∷ cs)) = some (c ∷ cs)

abbrev pub invalid_request_exception : Text → Text → Option Text → HypertronException
invalid_request_exception code message param = record {
  payload = record {
    error_type = codes "invalid_request_error";
    code = code;
    message = message;
    param = truthy param;
  };
  status = 400;
}

abbrev pub authentication_exception : Text → Text → HypertronException
authentication_exception code message = plain (codes "authentication_error") code message 401

abbrev pub permission_exception : Text → Text → HypertronException
permission_exception code message = plain (codes "permission_error") code message 403

abbrev resource_message : Text → Option Text → Text
resource_message resource none = resource ++ codes " not found."
resource_message resource (some []) = resource ++ codes " not found."
resource_message resource (some (c ∷ cs)) =
    codes "No such " ++ (resource ++ (codes ": '" ++ ((c ∷ cs) ++ codes "'")))

abbrev pub resource_not_found_exception : Text → Option Text → HypertronException
resource_not_found_exception resource id =
    plain (codes "resource_missing") (codes "resource_not_found") (resource_message resource id) 404

abbrev pub idempotency_exception : Text → Text → HypertronException
idempotency_exception code message = plain (codes "idempotency_error") code message 409

abbrev pub state_transition_exception : Text → Text → Text → HypertronException
state_transition_exception from_state to_state resource =
    plain (codes "invalid_state_transition") (codes "invalid_state_transition")
      (codes "Cannot transition "
        ++ (resource
            ++ (codes " from '" ++ (from_state ++ (codes "' to '" ++ (to_state ++ codes "'."))))))
      409

abbrev pub unprocessable_entity_exception : Text → Text → HypertronException
unprocessable_entity_exception code message = plain (codes "unprocessable_entity") code message 422

abbrev pub rate_limit_exception : Text → HypertronException
rate_limit_exception message =
    plain (codes "rate_limit_error") (codes "rate_limit_exceeded") message 429

abbrev pub api_exception : Text → Text → HypertronException
api_exception code message = plain (codes "api_error") code message 500

abbrev pub service_unavailable_exception : Text → Text → HypertronException
service_unavailable_exception service message =
    plain (codes "service_unavailable") (service ++ codes "_unavailable") message 503

-- What a handler may throw. `throttled` is a ThrottlerException with its message, `http_text` and `http_object` are any other
-- HttpException, by its status and its body, and `unknown` is the rest, by its own `code` where it is an object with one.
pub data Thrown : Type 0 where
  throttled : Text → Thrown
  hypertron : HypertronException → Thrown
  http_text : ℕ → Text → Thrown
  http_object : ℕ → Fields → Thrown
  unknown : Option Text → (message stack : Text) → Thrown

pub record RateLimitMeta : Type 0 where
  pub limit : ℕ
  pub remaining : ℕ
  pub reset_unix : ℕ
  pub retry_after_seconds : ℕ
  pub group : Text

-- The request id of the interceptor, `request.id`, the header `x-request-id`, and the rate limit.
pub record HttpRequest : Type 0 where
  pub request_id : Option Text
  pub id : Option Text
  pub header : Option Text
  pub rate_limit : Option RateLimitMeta

-- The headers that are written: X-Request-Id, and the four of a rate limit.
pub record RateLimitHeaders : Type 0 where
  pub retry_after : ℕ
  pub limit : ℕ
  pub remaining : ℕ
  pub reset : ℕ

pub record HttpResponse : Type 0 where
  pub status : ℕ
  pub request_id : Option Text
  pub rate_limit : Option RateLimitHeaders
  pub body : Json

abbrev pub or_else {ℓ} : {A : Type ℓ} → Option A → A → A
or_else none a = a
or_else (some b) a = b
