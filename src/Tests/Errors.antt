-- ===== src/Tests/Errors.antt =====
-- Examples for the errors.
use hypertron_api.Prelude.{[], none, some, false, true, ◌≡◌, ◌≢◌}
use hypertron_api.Prelude.Text.{codes}
use hypertron_api.Errors.{
  Json, text, array, nil, item, end, field, Thrown, http_object, HttpRequest,
}
use hypertron_api.Errors.Filter.{resolve_request_id, filter_catch}
use hypertron_api.Errors.Filter.Envelope.{IsShaped, filter_catch-IsShaped}

abbrev request : HttpRequest
request = record {
  request_id = none;
  id = none;
  header = some (codes "client-0001");
  rate_limit = none;
}

-- What a validation pipe throws.
abbrev validation : Thrown
validation = http_object 400 (
    field (codes "statusCode") (Json.number 400) (
      field (codes "message") (array (item (text (codes "amount must be a text")) nil))
        (field (codes "error") (text (codes "Bad Request")) end)))

filter_catch-IsShaped_example :
    IsShaped validation none
      (resolve_request_id request none)
      (filter_catch validation request none 9)
filter_catch-IsShaped_example = filter_catch-IsShaped validation request none 9

generated_not_nil : codes "req_1" ≢ []
generated_not_nil h = absurd (let e : false ≡ true = cc in cc)
