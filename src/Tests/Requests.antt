-- ===== src/Tests/Requests.antt =====
-- Examples for idempotency keys, customers and the creation of payments.
use hypertron_api.Prelude.{
  ℕ, String, [], ◌∷◌, none, some, Option, Bool, true, false, str_append, ltb, ◌≡◌, ◌↔◌, ◌≤◌, refl,
  length,
}
use hypertron_api.Prelude.Text.{Text, codes}
use hypertron_api.Store.Tables.{test, usdc}
use hypertron_api.Store.Effects.{World, Result, ok, err, idempotency}
use hypertron_api.Idempotency.{
  Scope, find_record, found, check, new_record, reserve, complete, validate_key,
}
use hypertron_api.Idempotency.Keys.{reserve-check, complete-check}
use hypertron_api.Idempotency.Hash.{Json, null, bool, num, str, arr, obj, Fields, end, field}
use hypertron_api.Customers.{UpsertParams, NewId, upsert_by_email}
use hypertron_api.Customers.Upsert.{upsert_by_email-again}
use hypertron_api.Payments.Service.{
  CreatePaymentDto, MerchantContext, Config, CreateInput, CreatePaymentResult,
}
use hypertron_api.Payments.Create.{create}
use hypertron_api.Payments.Create.Replay.{again, create-again}
use hypertron_api.Tests.Fixtures.{empty_world, emit_input, stellar}

abbrev scope : Scope
scope = record { business_id = "shop"; api_key_id = "k1"; key = codes "order-7" }

reserve-check_example :
    ((reserve scope "h" 5 empty_world).0 ≡ ok tt)
    × (find_record scope (reserve scope "h" 5 empty_world).1.idempotency_records
        ≡ some (new_record scope "h" 5))
    × ((check scope "g" (reserve scope "h" 5 empty_world).1).0
        ≡ err (idempotency "idempotency_key_reused"))
unfolding find_record
reserve-check_example = reserve-check scope "h" "g" 5 empty_world refl

abbrev reserved : World
reserved = record empty_world { idempotency_records = new_record scope "h" 5 ∷ [] }

complete-check_example : (check scope "h" (complete scope 201 none reserved).1).0 ≡ ok (found none)
unfolding find_record
complete-check_example = complete-check scope "h" 201 none reserved (new_record scope "h" 5) refl

abbrev params : Text → UpsertParams
params e = record { business_id = "shop"; email = some e; name = none }

abbrev new_id : String → NewId
new_id s = record { row_id = s; ulid = s }

upsert_by_email-again_example :
    let (r, w) = upsert_by_email (params (codes "A@x.org ")) (new_id "c1") empty_world in
    upsert_by_email (params (codes "a@x.org")) (new_id "c2") w ≡ (r, w)
unfolding hypertron_api.Prelude.Text.trim hypertron_api.Prelude.Text.to_lower_case
upsert_by_email-again_example =
    upsert_by_email-again (params (codes "A@x.org ")) (params (codes "a@x.org")) (new_id "c1")
      (new_id "c2") b'a' (codes "@x.org") empty_world refl refl refl

-- An order of texts by their lengths, and a digest that joins the names of the properties.
abbrev shorter : String → String → Bool
shorter a b = ltb (length (codes a)) (length (codes b))

joined : Fields → String
joined end = ""
joined (field k v fs) = str_append k (joined fs)

unfoldable digest : Json → String
unfolding joined
digest (obj fs) = joined fs
digest _ = "value"

abbrev color : Text → Fields
color c = field "color" (str c) end

abbrev dto : CreatePaymentDto
dto = record {
  amount = codes "10.5";
  currency = usdc;
  description = none;
  customer_email = some (codes "a@x.org");
  customer_name = none;
  metadata = none;
}

abbrev merchant : MerchantContext
merchant = record { business_id = "shop"; environment = test; api_key_id = "k1" }

abbrev config : Config
config = record { checkout_base_url = "https://example.org"; stellar = stellar }

abbrev input : CreateInput
input = record {
  now = 100;
  customer = new_id "c1";
  link = new_id "l1";
  payment = new_id "p1";
  memo = λ k. "hpl_1";
  created_event = emit_input;
  pending_event = record emit_input { row_id = "e2"; ulid = "E2" };
}

abbrev first : Result CreatePaymentResult × World
first = create shorter digest config dto merchant (codes "order-7") input empty_world

create-again_example :
    create shorter digest config dto merchant (codes "order-7") (record input { now = 900 }) first.1
    ≡ (again first.0, first.1)
unfolding find_record
create-again_example =
    create-again shorter digest config merchant (codes "order-7") dto input empty_world refl dto
      (record input { now = 900 }) refl
