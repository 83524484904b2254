-- ===== src/Payments/Create.antt =====
-- `PaymentsService.create` and `cancel` (src/modules/payments/payments.service.ts), with the
-- repository's lookup by public id.
pub mod Replay
use hypertron_api.Prelude.{
  ℕ, String, List, [], ◌∷◌, Option, none, some, Bool, true, false, ◌&&◌, str_eq, str_append,
  if◌then◌else◌,
}
use hypertron_api.Prelude.Text.{Text, codes}
use hypertron_api.Store.Tables.{
  Environment, test, live, Customer, Payment, PaymentResponse, created,
}
use hypertron_api.Store.Effects.{
  World, Error, invalid_request, resource_missing, Result, ok, err, M, ◌>>=◌, ◌>>◌, return, throw,
  catch,
}
use hypertron_api.Idempotency.{Scope, CheckResult, not_found, found, check, reserve, complete}
use hypertron_api.Idempotency.Hash.{Json, str, obj, Fields, end, field, hash_body}
use hypertron_api.Customers.{upsert_by_email}
use hypertron_api.Payments.Events.{EmitInput, emit}
use hypertron_api.Payments.StateMachine.{Call, to_pending, to_canceled, transition}
use hypertron_api.Payments.Service.{
  CreatePaymentDto, MerchantContext, Config, CreateInput, CreatePaymentResult, to_payment_response,
  new_link, new_payment, create_unique_link_memo, insert_link, insert_payment, require_destination,
  destination_of,
}
use hypertron_api.Stellar.Verifier.{currency_code}

abbrev pub metadata_fields : List (String × String) → Fields
metadata_fields [] = end
metadata_fields ((k, v) ∷ m) = field k (str (codes v)) (metadata_fields m)

abbrev optional : String → Option Text → Fields → Fields
optional name none fs = fs
optional name (some v) fs = field name (str v) fs

abbrev option_codes : Option String → Option Text
option_codes none = none
option_codes (some s) = some (codes s)

abbrev pub with_metadata : Option (List (String × String)) → Fields
with_metadata none = end
with_metadata (some m) = field "metadata" (obj (metadata_fields m)) end

-- The body, its properties in the order of the class.
unfoldable pub dto_fields : CreatePaymentDto → Fields
dto_fields dto = field "amount" (str dto.amount) (
    field "currency" (str (codes (currency_code dto.currency))) (
      optional "description" (option_codes dto.description) (
        optional "customer_email" dto.customer_email (
          optional "customer_name" (option_codes dto.customer_name) (with_metadata dto.metadata)))))

abbrev pub pending_call : CreateInput → Payment → Call
pending_call i p = record {
  payment_id = p.id;
  move = to_pending;
  now = i.pending_event.now;
  emit_input = i.pending_event;
}

-- The rows of the payment and of its link, with both of its first events.
unfoldable pub store :
    Config
    → CreatePaymentDto
    → MerchantContext
    → CreateInput
    → Customer
    → Text
    → String
    → M PaymentResponse
store c dto merchant i customer destination memo = do
  let link = new_link dto merchant i destination memo
  insert_link link
  let payment = new_payment c dto merchant i customer link
  insert_payment payment
  emit i.created_event payment created
  pending ← transition (pending_call i payment)
  return (to_payment_response pending)

-- The `try` block up to the response.
unfoldable pub create_body :
    Config → CreatePaymentDto → MerchantContext → CreateInput → M PaymentResponse
create_body c dto merchant i = do
  customer ←
      upsert_by_email
        (record {
          business_id = merchant.business_id;
          email = dto.customer_email;
          name = dto.customer_name;
        })
        i.customer
  destination ← destination_of c.stellar merchant
  require_destination destination
  memo ← create_unique_link_memo i.memo
  store c dto merchant i customer destination memo

abbrev pub scope_of : MerchantContext → Text → Scope
scope_of merchant key = record {
  business_id = merchant.business_id;
  api_key_id = merchant.api_key_id;
  key = key;
}

abbrev pub fresh_result : PaymentResponse → CreatePaymentResult
fresh_result r = record { payment = some r; from_cache = false }

-- The `try` block and its `catch`, which completes the key with the status 0 and throws again.
unfoldable pub create_guarded : Scope → M PaymentResponse → M CreatePaymentResult
create_guarded s body =
    catch (do r ← body; complete s 201 (some r); return (fresh_result r))
      (λ e. do complete s 0 none; throw e)

-- `sort` orders texts by `leb`; `digest` is SHA-256 of the text of a value.
module _ (leb : String → String → Bool) (digest : Json → String) where
  unfoldable pub request_hash : CreatePaymentDto → String
  unfolding dto_fields
  request_hash dto = hash_body leb digest (dto_fields dto)

  after_check : Scope → String → ℕ → M PaymentResponse → CheckResult → M CreatePaymentResult
  after_check s hash now body (found response) =
      return (record { payment = response; from_cache = true })
  after_check s hash now body not_found = do reserve s hash now; create_guarded s body

  unfoldable pub create :
      Config → CreatePaymentDto → MerchantContext → Text → CreateInput → M CreatePaymentResult
  unfolding after_check request_hash
  create c dto merchant key i = do
    cached ← check (scope_of merchant key) (request_hash dto)
    after_check (scope_of merchant key) (request_hash dto) i.now (create_body c dto merchant i)
        cached

-- `findByPublicId`: scoped to the merchant and the environment.
abbrev pub env_eq : Environment → Environment → Bool
env_eq test test = true
env_eq live live = true
env_eq _ _ = false

abbrev pub is_own : String → MerchantContext → Payment → Bool
is_own id merchant p =
    str_eq p.public_id id
    && str_eq p.business_id merchant.business_id
    && env_eq p.environment merchant.environment

unfoldable pub find_by_public_id : String → MerchantContext → List Payment → Option Payment
find_by_public_id id merchant [] = none
find_by_public_id id merchant (p ∷ ps) =
    if is_own id merchant p then some p else find_by_public_id id merchant ps

abbrev find_own : String → MerchantContext → M Payment
find_own id merchant w = elim (find_by_public_id id merchant w.payments) [
  | none ↦ (err (resource_missing "payment"), w)
  | some p ↦ (ok p, w)
]

unfoldable pub find_one : String → MerchantContext → M PaymentResponse
find_one id merchant = do p ← find_own id merchant; return (to_payment_response p)

unfoldable pub cancel : String → MerchantContext → ℕ → EmitInput → M PaymentResponse
cancel id merchant now i = do
  p ← find_own id merchant
  canceled ←
      transition (record { payment_id = p.id; move = to_canceled; now = now; emit_input = i })
  return (to_payment_response canceled)
