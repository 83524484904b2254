-- ===== src/Errors/Filter/Envelope.antt =====
-- The shape of every error response.
use mathlib.Core.Path.{subst}
use hypertron_api.Prelude.{
  ℕ, List, [], ◌∷◌, Option, none, some, ◌≡◌, ◌≢◌, ◌⊎◌, inl, inr, refl, Bool-cases, if◌then◌else◌,
}
use hypertron_api.Prelude.Text.{Text, codes, text_eq, text_eq_refl}
use hypertron_api.Errors.{
  Json, null, boolean, number, text, array, object, Fields, end, field, get, put, truthy, Thrown,
  throttled, hypertron, http_text, http_object, unknown, HttpRequest, HttpResponse, or_else,
}
use hypertron_api.Errors.Filter.{
  payload_fields, validation_fields, status_fields, shape_texts, shape_message, shape_error,
  shape_http_exception, collect_style_body, http_response, is_prisma_unique_violation,
  unknown_fields, caught, filter_catch, resolve_request_id, throttled_message,
  is_valid_client_request_id, chosen_id, intercept, all_texts, indexed,
}

abbrev pub name_request_id : Text
name_request_id = codes "request_id"

get-put : (name : Text) (v : Json) (fs : Fields) → get name (put name v fs) ≡ some v
unfolding get put
get-put name v end = rw (text_eq_refl name) refl
get-put name v (field n u fs) = elim (Bool-cases (text_eq n name)) [
  | inl t ↦ rw (t, t) refl
  | inr f ↦ rw (f, f) (get-put name v fs)
]

get-payload_fields :
    (error_type code : Text) (message param : Option Text) (request_id : Text)
    → get name_request_id (payload_fields error_type code message param request_id)
      ≡ some (text request_id)
unfolding get
get-payload_fields error_type code none none request_id = refl
get-payload_fields error_type code none (some p) request_id = refl
get-payload_fields error_type code (some m) none request_id = refl
get-payload_fields error_type code (some m) (some p) request_id = refl

abbrev Carries : Text → Fields → Type 0
Carries request_id fs = get name_request_id fs ≡ some (text request_id)

validation_fields-Carries : (ms : List Text) (id : Text) → Carries id (validation_fields ms id)
validation_fields-Carries [] id = get-payload_fields _ _ none none id
validation_fields-Carries (m ∷ ms) id = get-payload_fields _ _ (some m) _ id

status_fields-Carries : (status : ℕ) (m id : Text) → Carries id (status_fields status m id)
status_fields-Carries status m id = get-payload_fields _ _ (some m) none id

shape_texts-Carries :
    (status : ℕ) (o : Option (List Text)) (id : Text) → Carries id (shape_texts status o id)
unfolding shape_texts
shape_texts-Carries status none id = status_fields-Carries status _ id
shape_texts-Carries status (some ms) id = validation_fields-Carries ms id

shape_message-Carries :
    (status : ℕ) (message : Option Json) (id : Text) → Carries id (shape_message status message id)
unfolding shape_message
shape_message-Carries status (some (array js)) id = shape_texts-Carries status (all_texts js) id
shape_message-Carries status (some (text m)) id = status_fields-Carries status m id
shape_message-Carries status none id = status_fields-Carries status _ id
shape_message-Carries status (some null) id = status_fields-Carries status _ id
shape_message-Carries status (some (boolean b)) id = status_fields-Carries status _ id
shape_message-Carries status (some (number n)) id = status_fields-Carries status _ id
shape_message-Carries status (some (object fs)) id = status_fields-Carries status _ id

shape_error-Carries :
    (status : ℕ) (error message : Option Json) (id : Text)
    → Carries id (shape_error status error message id)
unfolding shape_error
shape_error-Carries status (some (object fs)) message id = get-put name_request_id (text id) fs
shape_error-Carries status (some (array js)) message id =
    get-put name_request_id (text id) (indexed 0 js)
shape_error-Carries status none message id = shape_message-Carries status message id
shape_error-Carries status (some null) message id = shape_message-Carries status message id
shape_error-Carries status (some (boolean b)) message id = shape_message-Carries status message id
shape_error-Carries status (some (number n)) message id = shape_message-Carries status message id
shape_error-Carries status (some (text t)) message id = shape_message-Carries status message id

shape_http_exception-Carries :
    (status : ℕ) (body : Fields) (id : Text) → Carries id (shape_http_exception status body id)
unfolding shape_http_exception
shape_http_exception-Carries status body id =
    shape_error-Carries status (get (codes "error") body) (get (codes "message") body) id

unknown_fields-Carries : (code : Option Text) (id : Text) → Carries id (unknown_fields code id)
unknown_fields-Carries code id = elim (Bool-cases (is_prisma_unique_violation code)) [
  | inl t ↦ rw t (get-payload_fields _ _ (some _) none id)
  | inr f ↦ rw f (get-payload_fields _ _ (some _) none id)
]

-- `{ error: { …, request_id } }`.
pub record IsEnvelope (request_id : Text) (body : Json) : Type 0 where
  pub payload : Fields
  pub shape : body ≡ object (field (codes "error") (object payload) end)
  pub carries : get name_request_id payload ≡ some (text request_id)

-- The public error of the hosted checkout, which is sent as it is.
abbrev pub collect_style : Thrown → Option Fields
collect_style (http_object status body) = collect_style_body body
collect_style _ = none

abbrev pub status_of : Thrown → ℕ
status_of (throttled message) = 429
status_of (hypertron e) = e.status
status_of (http_text status body) = status
status_of (http_object status body) = status
status_of (unknown code message stack) = if is_prisma_unique_violation code then 409 else 500

pub record IsShaped (e : Thrown) (existing : Option Text) (request_id : Text) (r : HttpResponse)
    : Type 0 where
  pub status : r.status ≡ status_of e
  pub header : r.request_id ≡ some (or_else (truthy existing) request_id)
  pub body :
      ((c : Fields) × (collect_style e ≡ some c) × (r.body ≡ object c))
      ⊎ ((collect_style e ≡ none) × IsEnvelope request_id r.body)

envelope :
    (id : Text) (fs : Fields)
    → Carries id fs
    → IsEnvelope id (object (field (codes "error") (object fs) end))
envelope id fs h = record { payload = fs; shape = refl; carries = h }

caught-IsShaped :
    (e : Thrown) (request : HttpRequest) (existing : Option Text) (now : ℕ) (id : Text)
    → IsShaped e existing id (caught e request existing now id)
unfolding caught
caught-IsShaped (throttled m) request existing now id = record {
  status = refl;
  header = refl;
  body = inr (
    refl,
    envelope id _ (
        get-payload_fields (codes "rate_limit_error") (codes "rate_limit_exceeded")
          (some throttled_message) none id),
  );
}
caught-IsShaped (hypertron e) request existing now id = record {
  status = refl;
  header = refl;
  body = inr (
    refl,
    envelope id _ (
        get-payload_fields e.payload.error_type e.payload.code (some e.payload.message)
          e.payload.param id),
  );
}
caught-IsShaped (http_text status body) request existing now id = record {
  status = refl;
  header = refl;
  body = inr (refl, envelope id _ (status_fields-Carries status body id));
}
caught-IsShaped (http_object status body) request existing now id =
    http_response-IsShaped (collect_style_body body) refl
  where
    http_response-IsShaped :
        (o : Option Fields)
        → collect_style_body body ≡ o
        → IsShaped
            (http_object status body)
            existing
            id
            (http_response existing status o (shape_http_exception status body id) id)
    http_response-IsShaped (some c) h = record {
      status = refl;
      header = refl;
      body = inl (c, h, refl);
    }
    http_response-IsShaped none h = record {
      status = refl;
      header = refl;
      body = inr (
        h,
        envelope id (shape_http_exception status body id)
            (shape_http_exception-Carries status body id),
      );
    }
caught-IsShaped (unknown code message stack) request existing now id = record {
  status = refl;
  header = refl;
  body = inr (refl, envelope id _ (unknown_fields-Carries code id));
}

-- Whatever is thrown, the response has the status of the exception (409 for a unique conflict of the
-- database and 500 for anything unknown) and a header X-Request-Id, the one it had or the request's id;
-- its body is `{ error }` around an object that carries the request's id, unless the exception is a
-- public error of the hosted checkout, which is sent as it is.
pub filter_catch-IsShaped :
    (e : Thrown) (request : HttpRequest) (existing : Option Text) (now : ℕ)
    → IsShaped e existing
        (resolve_request_id request existing)
        (filter_catch e request existing now)
unfolding filter_catch
filter_catch-IsShaped e request existing now =
    caught-IsShaped e request existing now (resolve_request_id request existing)

truthy-chosen :
    (header : Option Text) (generated : Text)
    → generated ≢ []
    → truthy (some (chosen_id header generated)) ≡ some (chosen_id header generated)
truthy-chosen none [] h = absurd (h refl)
truthy-chosen none (c ∷ cs) h = refl
truthy-chosen (some []) [] h = absurd (h refl)
truthy-chosen (some []) (c ∷ cs) h = refl
truthy-chosen (some (d ∷ ds)) [] h = absurd (h refl)
truthy-chosen (some (d ∷ ds)) (c ∷ cs) h = elim (Bool-cases (is_valid_client_request_id (d ∷ ds))) [
  | inl t ↦ rw t refl
  | inr f ↦ rw f refl
]

resolve-chosen :
    (generated : Text) (request : HttpRequest)
    → generated ≢ []
    → resolve_request_id (intercept generated request).0 (intercept generated request).1
      ≡ chosen_id request.header generated
unfolding resolve_request_id intercept
resolve-chosen generated request h = rw (truthy-chosen request.header generated h) refl

-- An error after the interceptor has run: the header X-Request-Id and the body carry the id that it
-- has chosen, which is the client's where that is valid, unless the body is one of the hosted checkout.
pub filter_catch-intercept :
    (e : Thrown) (generated : Text) (request : HttpRequest) (now : ℕ)
    → generated ≢ []
    → IsShaped e
        (some (chosen_id request.header generated))
        (chosen_id request.header generated)
        (filter_catch e (intercept generated request).0 (intercept generated request).1 now)
unfolding intercept
filter_catch-intercept e generated request now h =
    subst
      (λ (id : Text).
        IsShaped e (some (chosen_id request.header generated)) id
          (filter_catch e (intercept generated request).0 (intercept generated request).1 now))
      (resolve-chosen generated request h)
      (filter_catch-IsShaped e (intercept generated request).0 (intercept generated request).1 now)
