-- ===== src/Errors/Filter.antt =====
-- The filters of src/common/filters, from an exception to a response, and the request id interceptor,
-- src/common/interceptors/request-id.interceptor.ts.
pub mod Envelope
use hypertron_api.Prelude.{
  ℕ, suc, ◌+◌, List, [], ◌∷◌, Option, none, some, Bool, true, false, ◌&&◌, ◌||◌, leb, ◌==◌, all,
  length, if◌then◌else◌,
}
use hypertron_api.Prelude.Text.{Text, codes, text_eq}
use hypertron_api.Amount.{is_digit, to_string}
use hypertron_api.Errors.{
  Fields, HttpRequest, HttpResponse, Items, Json, RateLimitHeaders, RateLimitMeta, Thrown, array,
  boolean, end, field, get, http_object, http_text, hypertron, is_some, item, nil, object, or_else,
  put, text, throttled, truthy, unknown,
}

abbrev pub status_type : ℕ → Text
status_type status =
    if status == 401
    then codes "authentication_error"
    else if status == 403
    then codes "permission_error"
    else if status == 404
    then codes "resource_missing"
    else if status == 409
    then codes "idempotency_error"
    else if status == 422
    then codes "unprocessable_entity"
    else if status == 429
    then codes "rate_limit_error"
    else if leb 500 status
    then codes "api_error"
    else codes "invalid_request_error"

abbrev pub status_code : ℕ → Text
status_code status =
    if status == 401
    then codes "unauthorized"
    else if status == 403
    then codes "permission_denied"
    else if status == 404
    then codes "resource_not_found"
    else if status == 409
    then codes "conflict"
    else if status == 422
    then codes "unprocessable_entity"
    else if status == 429
    then codes "rate_limit_exceeded"
    else if leb 500 status
    then codes "api_error"
    else codes "invalid_request"

-- `/^([a-zA-Z0-9_]+) /`.
abbrev pub is_word : ℕ → Bool
is_word c = (leb b'a' c && leb c b'z') || (leb b'A' c && leb c b'Z') || is_digit c || c == b'_'

unfoldable pub word_before_space : Text → Option Text
word_before_space [] = none
word_before_space (c ∷ cs) =
    let rest = word_before_space cs in
    if c == b' '
    then some []
    else if is_word c
    then elim rest [ none ↦ none | some w ↦ some (c ∷ w) ]
    else none

abbrev pub extract_validation_param : Text → Option Text
extract_validation_param message = truthy (word_before_space message)

-- The elements, where all are texts.
unfoldable pub all_texts : Items → Option (List Text)
all_texts nil = some []
all_texts (item (text t) js) = elim (all_texts js) [ none ↦ none | some ts ↦ some (t ∷ ts) ]
all_texts (item _ js) = none

abbrev pub optional : Text → Option Text → Fields → Fields
optional name none fs = fs
optional name (some t) fs = field name (text t) fs

-- A payload as the object that is sent, in the order of its keys.
abbrev pub payload_fields : Text → Text → Option Text → Option Text → Text → Fields
payload_fields error_type code message param request_id = field (codes "type") (text error_type) (
    field (codes "code") (text code) (
      optional (codes "message") message
        (optional (codes "param") param (field (codes "request_id") (text request_id) end))))

-- The messages of a validation; the first is `undefined` where there is none.
abbrev pub validation_fields : List Text → Text → Fields
validation_fields [] request_id =
    payload_fields (codes "invalid_request_error") (codes "validation_error") none none request_id
validation_fields (m ∷ ms) request_id =
    payload_fields (codes "invalid_request_error") (codes "validation_error") (some m)
      (extract_validation_param m) request_id

abbrev pub status_fields : ℕ → Text → Text → Fields
status_fields status message request_id =
    payload_fields (status_type status) (status_code status) (some message) none request_id

-- `{ ...items }`.
unfoldable pub indexed : ℕ → Items → Fields
indexed n nil = end
indexed n (item j js) = field (to_string n) j (indexed (suc n) js)

shape_texts : ℕ → Option (List Text) → Text → Fields
shape_texts status none request_id = status_fields status (codes "Request failed.") request_id
shape_texts status (some ms) request_id = validation_fields ms request_id

shape_message : ℕ → Option Json → Text → Fields
unfolding shape_texts all_texts
shape_message status (some (array js)) request_id = shape_texts status (all_texts js) request_id
shape_message status (some (text m)) request_id = status_fields status m request_id
shape_message status _ request_id = status_fields status (codes "Request failed.") request_id

shape_error : ℕ → Option Json → Option Json → Text → Fields
unfolding shape_message put indexed
shape_error status (some (object fs)) message request_id =
    put (codes "request_id") (text request_id) fs
shape_error status (some (array js)) message request_id =
    put (codes "request_id") (text request_id) (indexed 0 js)
shape_error status _ message request_id = shape_message status message request_id

unfoldable pub shape_http_exception : ℕ → Fields → Text → Fields
unfolding shape_error get
shape_http_exception status body request_id =
    shape_error status (get (codes "error") body) (get (codes "message") body) request_id

-- `{ error: string, expired?: boolean }`.
abbrev collect_error : Option Json → Bool → Bool → Option Fields
collect_error (some (text e)) shaped expired =
    if shaped
    then none
    else some (
        field (codes "error") (text e)
          (if expired then field (codes "expired") (boolean true) end else end))
collect_error _ shaped expired = none

abbrev is_true : Option Json → Bool
is_true (some (boolean true)) = true
is_true _ = false

unfoldable pub collect_style_body : Fields → Option Fields
unfolding get
collect_style_body body =
    collect_error (get (codes "error") body)
      (is_some (get (codes "statusCode") body) || is_some (get (codes "message") body))
      (is_true (get (codes "expired") body))

-- `request[REQUEST_ID_KEY] ?? request.id`.
abbrev pub first_id : Option Text → Option Text → Option Text
first_id none b = b
first_id (some a) b = some a

-- `existing` is the X-Request-Id that the response has so far.
unfoldable pub resolve_request_id : HttpRequest → Option Text → Text
resolve_request_id request existing =
    or_else (truthy (first_id request.request_id request.id))
      (or_else (truthy request.header) (or_else (truthy existing) (codes "req_unknown")))

-- The header X-Request-Id after a write.
abbrev pub header_after : Option Text → Text → Option Text
header_after existing request_id = some (or_else (truthy existing) request_id)

abbrev pub write : Option Text → Option RateLimitHeaders → ℕ → Fields → Text → HttpResponse
write existing rate_limit status payload request_id = record {
  status = status;
  request_id = header_after existing request_id;
  rate_limit = rate_limit;
  body = object (field (codes "error") (object payload) end);
}

-- The headers of a rate limit; without its facts, 30 seconds and zeros.
abbrev pub rate_limit_headers : Option RateLimitMeta → ℕ → RateLimitHeaders
rate_limit_headers none now = record {
  retry_after = 30;
  limit = 0;
  remaining = 0;
  reset = now + 30;
}
rate_limit_headers (some m) now = record {
  retry_after = m.retry_after_seconds;
  limit = m.limit;
  remaining = m.remaining;
  reset = m.reset_unix;
}

abbrev pub throttled_message : Text
throttled_message = codes "Too many requests. Please retry after a short delay."

abbrev pub throttled_fields : Text → Text → Fields
throttled_fields message request_id =
    payload_fields (codes "rate_limit_error") (codes "rate_limit_exceeded") (some message) none
      request_id

abbrev pub is_prisma_unique_violation : Option Text → Bool
is_prisma_unique_violation none = false
is_prisma_unique_violation (some code) = text_eq code (codes "P2002")

abbrev pub unknown_fields : Option Text → Text → Fields
unknown_fields code request_id =
    if is_prisma_unique_violation code
    then payload_fields (codes "idempotency_error") (codes "conflict")
        (some (codes "A conflicting resource already exists.")) none request_id
    else payload_fields (codes "api_error") (codes "api_error")
        (some (codes "An unexpected error occurred. Please try again later.")) none request_id

abbrev http_response : Option Text → ℕ → Option Fields → Fields → Text → HttpResponse
http_response existing status (some collect) shaped request_id = record {
  status = status;
  request_id = header_after existing request_id;
  rate_limit = none;
  body = object collect;
}
http_response existing status none shaped request_id = write existing none status shaped request_id

caught : Thrown → HttpRequest → Option Text → ℕ → Text → HttpResponse
unfolding collect_style_body shape_http_exception
caught (throttled message) request existing now request_id =
    write existing (some (rate_limit_headers request.rate_limit now)) 429
      (throttled_fields throttled_message request_id) request_id
caught (hypertron e) request existing now request_id =
    write existing none e.status
      (payload_fields e.payload.error_type e.payload.code (some e.payload.message) e.payload.param
        request_id)
      request_id
caught (http_text status body) request existing now request_id =
    write existing none status (status_fields status body request_id) request_id
caught (http_object status body) request existing now request_id =
    http_response existing status (collect_style_body body)
      (shape_http_exception status body request_id) request_id
caught (unknown code message stack) request existing now request_id =
    write existing none (if is_prisma_unique_violation code then 409 else 500)
      (unknown_fields code request_id) request_id

-- HypertronExceptionFilter.catch.
unfoldable pub filter_catch : Thrown → HttpRequest → Option Text → ℕ → HttpResponse
unfolding caught resolve_request_id
filter_catch e request existing now =
    caught e request existing now (resolve_request_id request existing)

-- ThrottlerExceptionFilter.catch, for a ThrottlerException.
abbrev throttler_request_id : HttpRequest → Text
throttler_request_id request =
    or_else (first_id (first_id request.request_id request.id) request.header) (codes "req_unknown")

unfoldable pub throttler_catch : Text → HttpRequest → ℕ → HttpResponse
throttler_catch message request now = record {
  status = 429;
  request_id = some (throttler_request_id request);
  rate_limit = some (rate_limit_headers request.rate_limit now);
  body = object (
      field (codes "error")
        (object (
          throttled_fields (or_else (truthy (some message)) throttled_message)
            (throttler_request_id request)))
        end);
}

-- RequestIdInterceptor.intercept: a client's id is taken where it has 8 to 128 characters of
-- `[A-Za-z0-9._\-:/]`; `generated` is the id that is drawn otherwise.
abbrev is_id_char : ℕ → Bool
is_id_char c = is_word c || c == b'.' || c == b'-' || c == b':' || c == b'/'

abbrev pub is_valid_client_request_id : Text → Bool
is_valid_client_request_id t = leb 8 (length t) && leb (length t) 128 && all is_id_char t

abbrev pub chosen_id : Option Text → Text → Text
chosen_id none generated = generated
chosen_id (some t) generated = if is_valid_client_request_id t then t else generated

-- The request, and the X-Request-Id of the response.
unfoldable pub intercept : Text → HttpRequest → HttpRequest × Option Text
intercept generated request =
    let id = chosen_id request.header generated in
    (record request { request_id = some id; id = some id }, some id)
