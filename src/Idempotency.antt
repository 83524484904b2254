-- ===== src/Idempotency.antt =====
-- src/modules/idempotency/idempotency.service.ts: the replay store of POST /v1/payments.
pub mod Keys
pub mod Hash
use hypertron_api.Prelude.{
  ℕ, ◌+◌, ◌*◌, String, List, [], ◌∷◌, ◌++◌, Option, none, some, Bool, true, false, ◌&&◌, ◌||◌, not,
  ltb, ◌==◌, str_eq, any, length, if◌then◌else◌,
}
use hypertron_api.Prelude.Text.{Text, text_eq}
use hypertron_api.Store.Tables.{IdempotencyRecord, PaymentResponse}
use hypertron_api.Store.Effects.{
  World, Error, invalid_request, idempotency, Result, ok, err, M, unique_violation, catch, throw,
  return,
}

-- The scope of a key: `(businessId, apiKeyId, key)`.
pub record Scope : Type 0 where
  pub business_id : String
  pub api_key_id : String
  pub key : Text

abbrev pub in_scope : Scope → IdempotencyRecord → Bool
in_scope s r =
    str_eq r.business_id s.business_id && str_eq r.api_key_id s.api_key_id && text_eq r.key s.key

-- The row of a scope; there is one at most, by the unique index.
unfoldable pub find_record : Scope → List IdempotencyRecord → Option IdempotencyRecord
find_record s [] = none
find_record s (r ∷ rs) = if in_scope s r then some r else find_record s rs

pub data CheckResult : Type 0 where
  not_found : CheckResult
  found : (cached_response : Option PaymentResponse) → CheckResult

-- `responseStatus === 0`.
abbrev pub in_flight : IdempotencyRecord → Bool
in_flight r = r.response_status == 0

check_found : String → Option IdempotencyRecord → Result CheckResult
check_found hash none = ok not_found
check_found hash (some r) =
    if not (str_eq r.request_hash hash)
    then err (idempotency "idempotency_key_reused")
    else if in_flight r
    then err (idempotency "idempotency_key_in_flight")
    else ok (found r.response_body)

unfoldable pub check : Scope → String → M CheckResult
unfolding check_found
check s hash w = (check_found hash (find_record s w.idempotency_records), w)

abbrev pub ttl_hours : ℕ
ttl_hours = 24

abbrev pub new_record : Scope → String → ℕ → IdempotencyRecord
new_record s hash now = record {
  business_id = s.business_id;
  api_key_id = s.api_key_id;
  key = s.key;
  request_hash = hash;
  response_status = 0;
  response_body = none;
  expires_at = now + ttl_hours * 60 * 60 * 1000;
}

-- `create`, under the unique index.
create_record : Scope → String → ℕ → M (Unit {0})
create_record s hash now w =
    if any (in_scope s) w.idempotency_records then (err unique_violation, w) else (
      ok tt,
      record w { idempotency_records = w.idempotency_records ++ new_record s hash now ∷ [] },
    )

abbrev reserve_error : Error → Error
reserve_error unique_violation = idempotency "idempotency_key_in_flight"
reserve_error e = e

unfoldable pub reserve : Scope → String → ℕ → M (Unit {0})
unfolding create_record
reserve s hash now = catch (create_record s hash now) (λ e. throw (reserve_error e))

-- `updateMany` on the scope.
unfoldable pub update_record :
    Scope → ℕ → Option PaymentResponse → List IdempotencyRecord → List IdempotencyRecord
update_record s status body [] = []
update_record s status body (r ∷ rs) =
    if in_scope s r
    then record r { response_status = status; response_body = body } ∷ rs
    else r ∷ update_record s status body rs

unfoldable pub complete : Scope → ℕ → Option PaymentResponse → M (Unit {0})
unfolding update_record
complete s status body w =
    (ok tt, record w { idempotency_records = update_record s status body w.idempotency_records })

-- The header's value; a missing or empty one is refused by the first test.
unfoldable pub validate_key : Option Text → Result Text
validate_key none = err (invalid_request "missing_idempotency_key")
validate_key (some key) =
    if length key == 0
    then err (invalid_request "missing_idempotency_key")
    else if ltb (length key) 1 || ltb 255 (length key)
    then err (invalid_request "invalid_idempotency_key")
    else ok key
