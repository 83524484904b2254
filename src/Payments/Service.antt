-- ===== src/Payments/Service.antt =====
-- src/modules/payments/payments.service.ts, with the response mapper and the repository's insert.
-- Everything that the outside gives to a call is in its input: new ids, times, memos, the queue.
use hypertron_api.Prelude.{
  ℕ, zero, suc, ◌+◌, ◌*◌, String, List, [], ◌∷◌, ◌++◌, Option, none, some, Bool, true, false, ◌&&◌,
  ◌==◌, str_eq, str_append, any, length, if◌then◌else◌,
}
use hypertron_api.Prelude.Text.{Text, trim}
use hypertron_api.Store.Tables.{
  created, Environment, test, live, PaymentCurrency, Payment, CheckoutLink, Customer,
  MerchantSettings, PaymentResponse,
}
use hypertron_api.Store.Effects.{invalid_request, ok, err, M, find_by}
use hypertron_api.Customers.{NewId}
use hypertron_api.Payments.Events.{EmitInput}
use hypertron_api.Stellar.Verifier.{StellarConfig}

pub record CreatePaymentDto : Type 0 where
  pub amount : Text
  pub currency : PaymentCurrency
  pub description : Option String
  pub customer_email : Option Text
  pub customer_name : Option String
  pub metadata : Option (List (String × String))

pub record MerchantContext : Type 0 where
  pub business_id : String
  pub environment : Environment
  pub api_key_id : String

pub record Config : Type 0 where
  pub checkout_base_url : String
  pub stellar : StellarConfig

pub record CreateInput : Type 0 where
  pub now : ℕ
  pub customer : NewId
  pub link : NewId
  pub payment : NewId
  pub memo : ℕ → String
  pub created_event : EmitInput
  pub pending_event : EmitInput

pub record CreatePaymentResult : Type 0 where
  pub payment : Option PaymentResponse
  pub from_cache : Bool

abbrev pub to_payment_response : Payment → PaymentResponse
to_payment_response p = record {
  id = p.public_id;
  business_id = p.business_id;
  environment = p.environment;
  status = p.status;
  amount = p.amount;
  currency = p.currency;
  description = p.description;
  customer_id = p.customer_id;
  metadata = p.metadata;
  checkout_url = p.checkout_url;
  link_memo = p.link_memo;
  destination_address = p.destination_address;
  payer_address = p.payer_address;
  transaction_hash = p.transaction_hash;
  failure_code = p.failure_code;
  failure_message = p.failure_message;
  expires_at = p.expires_at;
  paid_at = p.paid_at;
  completed_at = p.completed_at;
  canceled_at = p.canceled_at;
  created_at = p.created_at;
  updated_at = p.updated_at;
}

-- `address.startsWith('G') && address.length === 56`.
abbrev pub starts_with_G : Text → Bool
starts_with_G [] = false
starts_with_G (c ∷ _) = c == b'G'

abbrev pub is_classic_stellar_address : Text → Bool
is_classic_stellar_address a = starts_with_G a && length a == 56

-- The first candidate that is a classic address; the empty text is none.
first_classic : List (Option Text) → Text
first_classic [] = []
first_classic (none ∷ cs) = first_classic cs
first_classic (some a ∷ cs) =
    let rest = first_classic cs in if is_classic_stellar_address a then a else rest

abbrev pub trimmed_receive_address : Option MerchantSettings → Option Text
trimmed_receive_address none = none
trimmed_receive_address (some s) = elim s.receive_address [ none ↦ none | some a ↦ some (trim a) ]

abbrev pub env_destination : StellarConfig → Environment → Text
env_destination c live = c.mainnet_destination_address
env_destination c test = c.testnet_destination_address

unfoldable pub resolve_destination_address :
    StellarConfig → String → Environment → List MerchantSettings → Text
unfolding first_classic
resolve_destination_address c business_id e settings = first_classic (
    trimmed_receive_address (find_by (λ s. s.business_id) business_id settings)
    ∷ some (trim (env_destination c e))
    ∷ [])

abbrev pub memo_taken : String → List CheckoutLink → Bool
memo_taken memo links = any (λ l. str_eq l.link_memo memo) links

-- The loop, with the attempts that are left; `memo k` is what attempt `k` draws.
unfoldable pub memo_loop : ℕ → ℕ → (ℕ → String) → List CheckoutLink → Option String
memo_loop zero attempt memo links = none
memo_loop (suc left) attempt memo links =
    let rest = memo_loop left (attempt + 1) memo links in
    if memo_taken (memo attempt) links then rest else some (memo attempt)

abbrev pub memo_attempts : ℕ
memo_attempts = 8

unfoldable pub create_unique_link_memo : (ℕ → String) → M String
unfolding memo_loop
create_unique_link_memo memo w = elim (memo_loop memo_attempts 0 memo w.checkout_links) [
  | none ↦ (err (invalid_request "memo_generation_failed"), w)
  | some m ↦ (ok m, w)
]

-- Thirty minutes.
abbrev pub expiry : ℕ → ℕ
expiry now = now + 30 * 60 * 1000

abbrev pub new_link :
    CreatePaymentDto → MerchantContext → CreateInput → Text → String → CheckoutLink
new_link dto merchant i destination memo = record {
  id = i.link.row_id;
  public_id = str_append "cl_" i.link.ulid;
  business_id = merchant.business_id;
  environment = merchant.environment;
  amount = dto.amount;
  currency = dto.currency;
  description = dto.description;
  link_memo = memo;
  destination_address = destination;
  expires_at = expiry i.now;
  paid_at = none;
  payment_tx_hash = none;
}

abbrev pub or_nil {ℓ} : {A : Type ℓ} → Option (List A) → List A
or_nil none = []
or_nil (some xs) = xs

-- `PaymentsRepository.create`.
abbrev pub new_payment :
    Config → CreatePaymentDto → MerchantContext → CreateInput → Customer → CheckoutLink → Payment
new_payment c dto merchant i customer link = record {
  id = i.payment.row_id;
  public_id = str_append "pay_" i.payment.ulid;
  business_id = merchant.business_id;
  environment = merchant.environment;
  status = created;
  amount = dto.amount;
  currency = dto.currency;
  description = dto.description;
  customer_id = some customer.id;
  metadata = or_nil dto.metadata;
  checkout_url = str_append c.checkout_base_url (str_append "/pay/" link.public_id);
  checkout_link_id = link.id;
  link_memo = link.link_memo;
  destination_address = link.destination_address;
  payer_address = none;
  transaction_hash = none;
  asset_issuer = none;
  failure_code = none;
  failure_message = none;
  expires_at = some (expiry i.now);
  paid_at = none;
  completed_at = none;
  canceled_at = none;
  created_at = i.now;
  updated_at = i.now;
}

unfoldable pub insert_link : CheckoutLink → M (Unit {0})
insert_link l w = (ok tt, record w { checkout_links = w.checkout_links ++ l ∷ [] })

unfoldable pub insert_payment : Payment → M (Unit {0})
insert_payment p w = (ok tt, record w { payments = w.payments ++ p ∷ [] })

abbrev is_empty : Text → Bool
is_empty [] = true
is_empty (_ ∷ _) = false

unfoldable pub require_destination : Text → M (Unit {0})
require_destination d w =
    (if is_empty d then err (invalid_request "payment_destination_unconfigured") else ok tt, w)

unfoldable pub destination_of : StellarConfig → MerchantContext → M Text
unfolding resolve_destination_address
destination_of c merchant w = (
  ok (resolve_destination_address c merchant.business_id merchant.environment w.merchant_settings),
  w,
)
