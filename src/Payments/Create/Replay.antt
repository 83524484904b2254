-- ===== src/Payments/Create/Replay.antt =====
-- What a repeated request with an Idempotency-Key gets.
use hypertron_api.Prelude.{
  ℕ, String, List, [], ◌∷◌, ◌++◌, Option, none, some, Bool, true, false, eq_iff, ◌≡◌, refl, ap, ◌⊎◌,
  arith, inl, inr, ◌∙◌,
}
use hypertron_api.Prelude.Text.{Text}
use hypertron_api.Store.Tables.{
  CheckoutLink, Customer, IdempotencyRecord, PaymentResponse, Payment, PaymentStatus, created,
}
use hypertron_api.Store.Effects.{World, Error, idempotency, Result, ok, err, M, ◌>>=◌, ◌>>◌, return}
use hypertron_api.Store.Keeps.{Keeps, Keeps-bind, Keeps-then}
use hypertron_api.Idempotency.{
  Scope, CheckResult, find_record, check, reserve, complete, not_found, found, new_record,
}
use hypertron_api.Idempotency.Keys.{reserve-check, complete-check}
use hypertron_api.Idempotency.Hash.{Json}
use hypertron_api.Customers.{UpsertParams, NewId, upsert_by_email}
use hypertron_api.Payments.Events.{EmitInput, emit}
use hypertron_api.Payments.StateMachine.{Call, update_many, transition}
use hypertron_api.Stellar.Verifier.{StellarConfig}
use hypertron_api.Payments.Service.{
  CreatePaymentDto, MerchantContext, Config, CreateInput, CreatePaymentResult, to_payment_response,
  new_link, new_payment, create_unique_link_memo, insert_link, insert_payment, require_destination,
  destination_of,
}
use hypertron_api.Payments.Create.{
  store, create_body, scope_of, create_guarded, create, request_hash, pending_call,
}

abbrev keys_of : World → List IdempotencyRecord
keys_of w = w.idempotency_records

upsert-Keeps : (p : UpsertParams) (i : NewId) → Keeps keys_of (upsert_by_email p i)
unfolding upsert_by_email
upsert-Keeps p i w = ground arith

emit-Keeps : (i : EmitInput) (p : Payment) (t : PaymentStatus) → Keeps keys_of (emit i p t)
unfolding emit
emit-Keeps i p t w = ground arith

memo-Keeps : (memo : ℕ → String) → Keeps keys_of (create_unique_link_memo memo)
unfolding create_unique_link_memo
memo-Keeps memo w = ground arith

transition-Keeps : (c : Call) → Keeps keys_of (transition c)
unfolding transition update_many emit
transition-Keeps c w = ground arith

link-Keeps : (l : CheckoutLink) → Keeps keys_of (insert_link l)
unfolding insert_link
link-Keeps l w = refl

payment-Keeps : (p : Payment) → Keeps keys_of (insert_payment p)
unfolding insert_payment
payment-Keeps p w = refl

require-Keeps : (d : Text) → Keeps keys_of (require_destination d)
unfolding require_destination
require-Keeps d w = refl

destination-Keeps : (c : StellarConfig) (m : MerchantContext) → Keeps keys_of (destination_of c m)
unfolding destination_of
destination-Keeps c m w = refl

store-Keeps :
    (c : Config) (dto : CreatePaymentDto) (m : MerchantContext) (i : CreateInput)
    (customer : Customer) (destination : Text) (memo : String)
    → Keeps keys_of (store c dto m i customer destination memo)
unfolding store insert_link insert_payment
store-Keeps c dto m i customer destination memo w =
    let link : CheckoutLink = new_link dto m i destination memo in
    let payment : Payment = new_payment c dto m i customer link in
    let call : Call = pending_call i payment in
    let stored : World = record w {
      checkout_links = w.checkout_links ++ link ∷ [];
      payments = w.payments ++ payment ∷ [];
    } in
    Keeps-then keys_of (emit i.created_event payment created)
      (transition call >>= (λ p. return (to_payment_response p)))
      (emit-Keeps i.created_event payment created)
      (Keeps-bind keys_of (transition call) (λ p. return (to_payment_response p))
        (transition-Keeps call) (λ p w'. refl))
      stored

-- The body of a creation never touches the table of keys.
create_body-Keeps :
    (c : Config) (dto : CreatePaymentDto) (m : MerchantContext) (i : CreateInput)
    → Keeps keys_of (create_body c dto m i)
unfolding create_body destination_of require_destination
create_body-Keeps c dto m i =
    Keeps-bind keys_of
      (upsert_by_email
        (record {
          business_id = m.business_id;
          email = dto.customer_email;
          name = dto.customer_name;
        })
        i.customer)
      (λ customer. destination_of c.stellar m >>= (λ d.
        require_destination d
        >> (create_unique_link_memo i.memo >>= (λ memo. store c dto m i customer d memo))))
      (upsert-Keeps _ i.customer)
      (λ customer.
        Keeps-bind keys_of (destination_of c.stellar m)
          (λ d.
            require_destination d
            >> (create_unique_link_memo i.memo >>= (λ memo. store c dto m i customer d memo)))
          (destination-Keeps c.stellar m)
          (λ d.
            Keeps-then keys_of (require_destination d)
              (create_unique_link_memo i.memo >>= (λ memo. store c dto m i customer d memo))
              (require-Keeps d)
              (Keeps-bind keys_of (create_unique_link_memo i.memo)
                (λ memo. store c dto m i customer d memo) (memo-Keeps i.memo)
                (λ memo. store-Keeps c dto m i customer d memo))))

-- What the next request with the key and the same body gets, from the result of the first: the
-- stored response, or the refusal of a key that is in flight.
abbrev pub again : Result CreatePaymentResult → Result CreatePaymentResult
again (ok r) = ok (record { payment = r.payment; from_cache = true })
again (err e) = err (idempotency "idempotency_key_in_flight")

module _ (s : Scope) (hash : String) (w : World) where
  -- The key's row is there, in flight and for this request.
  abbrev IsReserved : Type 0
  IsReserved =
      (r : IdempotencyRecord) × (find_record s w.idempotency_records ≡ some r)
      × (r.request_hash ≡ hash)

complete_ok :
    (s : Scope) (status : ℕ) (body : Option PaymentResponse) (w : World)
    → (complete s status body w).0 ≡ ok tt
unfolding complete
complete_ok s status body w = refl

-- What the guarded body leaves: its row of the key answers the next request.
guarded-check :
    (s : Scope) (hash : String) (body : M PaymentResponse) (r : Result PaymentResponse × World)
    (w : World)
    → body w ≡ r
    → IsReserved s hash r.1
    → (check s hash (create_guarded s body w).1).0 ≡ elim (create_guarded s body w).0 [
      | ok a ↦ ok (found a.payment)
      | err e ↦ err (idempotency "idempotency_key_in_flight")
    ]
unfolding create_guarded
guarded-check s hash body (ok a, w') w e (q, f, h) = rw e (
    ground (
      arith,
      complete_ok s 201 (some a) w',
      eq_iff q.request_hash hash,
      complete-check s hash 201 (some a) w' q f,
    ))
guarded-check s hash body (err x, w') w e (q, f, h) = rw e (
    ground (
      arith,
      complete_ok s 0 none w',
      eq_iff q.request_hash hash,
      complete-check s hash 0 none w' q f,
    ))

Result-cases : {A : Type 0} (r : Result A) → ((a : A) × (r ≡ ok a)) ⊎ ((e : Error) × (r ≡ err e))
Result-cases (ok a) = inl (a, refl)
Result-cases (err e) = inr (e, refl)

-- The result of a creation whose key is not new, from what its check says.
abbrev answered : Result CheckResult → Result CreatePaymentResult
answered (ok not_found) = err (idempotency "")
answered (ok (found p)) = ok (record { payment = p; from_cache = true })
answered (err e) = err e

abbrev is_answer : Result CheckResult → Bool
is_answer (ok not_found) = false
is_answer _ = true

module _ (leb : String → String → Bool) (digest : Json → String) (c : Config)
    (merchant : MerchantContext) (key : Text) where
  create-answered :
      (dto : CreatePaymentDto) (i : CreateInput) (w : World) (r : Result CheckResult)
      → (check (scope_of merchant key) (request_hash leb digest dto) w).0 ≡ r
      → is_answer r ≡ true
      → create leb digest c dto merchant key i w ≡ (answered r, w)
  unfolding create check
  create-answered dto i w (ok not_found) e h = ground arith
  create-answered dto i w (ok (found p)) e h = rw e refl
  create-answered dto i w (err x) e h = rw e refl

  create-fresh :
      (dto : CreatePaymentDto) (i : CreateInput) (w : World)
      → find_record (scope_of merchant key) w.idempotency_records ≡ none
      → create leb digest c dto merchant key i w
        ≡ create_guarded
            (scope_of merchant key)
            (create_body c dto merchant i)
            (reserve (scope_of merchant key) (request_hash leb digest dto) i.now w).1
  unfolding create check
  create-fresh dto i w fresh =
      let (reserved, _, _) =
        reserve-check (scope_of merchant key) (request_hash leb digest dto) "" i.now w fresh in
      rw (fresh, reserved) refl

  module _ (dto : CreatePaymentDto) (i : CreateInput) (w : World)
      (fresh : find_record (scope_of merchant key) w.idempotency_records ≡ none) where
    abbrev first : Result CreatePaymentResult × World
    first = create leb digest c dto merchant key i w

    first-check :
        (check (scope_of merchant key) (request_hash leb digest dto) first.1).0 ≡ elim first.0 [
          | ok a ↦ ok (found a.payment)
          | err e ↦ err (idempotency "idempotency_key_in_flight")
        ]
    first-check =
        let s : Scope = scope_of merchant key in
        let hash : String = request_hash leb digest dto in
        let started : World = (reserve s hash i.now w).1 in
        let body : M PaymentResponse = create_body c dto merchant i in
        let (_, row, _) = reserve-check s hash "" i.now w fresh in
        rw (create-fresh dto i w fresh) (
          guarded-check s hash body (body started) started refl (
            new_record s hash i.now,
            ap (find_record s) (create_body-Keeps c dto merchant i started) ∙ row,
            refl,
          ))

    -- A creation under a key that is not in the table, then any creation under the same key by the
    -- same merchant and API key, whose request has the same hash: where the first returned, the
    -- second returns the stored response, marked as cached; where the first threw, the second is
    -- refused as in flight. In both cases it changes nothing: no second payment is made.
    pub create-again :
        (dto' : CreatePaymentDto) (i' : CreateInput)
        → request_hash leb digest dto' ≡ request_hash leb digest dto
        → create leb digest c dto' merchant key i' first.1 ≡ (again first.0, first.1)
    create-again dto' i' h = elim (Result-cases first.0) [
      | inl (a, e) ↦ rw e (
          create-answered dto' i' first.1 (ok (found a.payment)) (rw h (first-check ∙ rw e refl))
            refl)
      | inr (x, e) ↦ rw e (
          create-answered dto' i' first.1 (err (idempotency "idempotency_key_in_flight"))
            (rw h (first-check ∙ rw e refl)) refl)
    ]
