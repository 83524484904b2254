-- ===== src/Store/Tables.antt =====
-- prisma/schema.prisma: the rows, with the fields that the services use. Dates are milliseconds.
use hypertron_api.Prelude.{ℕ, String, List, Option, Bool}
use hypertron_api.Prelude.Text.{Text}

pub data PaymentStatus : Type 0 where
  created pending confirmed completed failed expired canceled : PaymentStatus

pub PaymentStatus-discrete : Discrete PaymentStatus
PaymentStatus-discrete = hlevel

pub data Environment : Type 0 where
  test live : Environment

pub data PaymentCurrency : Type 0 where
  usdc eurc xlm : PaymentCurrency

pub data DeliveryStatus : Type 0 where
  pending delivered failed : DeliveryStatus

pub record Payment : Type 0 where
  pub id : String
  pub public_id : String
  pub business_id : String
  pub environment : Environment
  pub status : PaymentStatus
  pub amount : Text
  pub currency : PaymentCurrency
  pub description : Option String
  pub customer_id : Option String
  pub metadata : List (String × String)
  pub checkout_url : String
  pub checkout_link_id : String
  pub link_memo : String
  pub destination_address : Text
  pub payer_address : Option String
  pub transaction_hash : Option String
  pub asset_issuer : Option String
  pub failure_code : Option String
  pub failure_message : Option Text
  pub expires_at : Option ℕ
  pub paid_at : Option ℕ
  pub completed_at : Option ℕ
  pub canceled_at : Option ℕ
  pub created_at : ℕ
  pub updated_at : ℕ

-- `type` is `payment.` and the status that was reached; `data` is the snapshot of the payment.
pub record PaymentEvent : Type 0 where
  pub id : String
  pub public_id : String
  pub business_id : String
  pub payment_id : String
  pub type : PaymentStatus
  pub snapshot : Payment
  pub created_at : ℕ

pub record CheckoutLink : Type 0 where
  pub id : String
  pub public_id : String
  pub business_id : String
  pub environment : Environment
  pub amount : Text
  pub currency : PaymentCurrency
  pub description : Option String
  pub link_memo : String
  pub destination_address : Text
  pub expires_at : ℕ
  pub paid_at : Option ℕ
  pub payment_tx_hash : Option String

pub record Customer : Type 0 where
  pub id : String
  pub public_id : String
  pub business_id : String
  pub email : Option Text
  pub name : Option String
  pub payment_count : ℕ
  pub lifetime_value : Text
  pub last_payment_at : Option ℕ

pub record ApiKey : Type 0 where
  pub id : String
  pub public_id : String
  pub business_id : String
  pub name : String
  pub environment : Environment
  pub key_prefix : Text
  pub secret_hash : Text
  pub last_four : Text
  pub active : Bool
  pub last_used_at : Option ℕ
  pub revoked_at : Option ℕ
  pub created_at : ℕ

pub record MerchantSettings : Type 0 where
  pub business_id : String
  pub wallet_address : String
  pub receive_address : Option Text

pub record WebhookEndpoint : Type 0 where
  pub id : String
  pub public_id : String
  pub business_id : String
  pub environment : Environment
  pub url : Text
  pub description : Option String
  pub events : List PaymentStatus
  pub signing_secret_encrypted : Text
  pub secret_last_four : Text
  pub active : Bool
  pub disabled_at : Option ℕ

pub record WebhookDelivery : Type 0 where
  pub id : String
  pub public_id : String
  pub business_id : String
  pub endpoint_id : String
  pub event_id : String
  pub status : DeliveryStatus
  pub attempt_count : ℕ
  pub next_attempt_at : Option ℕ
  pub last_attempt_at : Option ℕ
  pub response_status : Option ℕ
  pub response_body : Option Text
  pub delivered_at : Option ℕ
  pub created_at : ℕ

-- The mapped payment that the API returns (payment-response.dto.ts); `object` is always `payment`.
pub record PaymentResponse : Type 0 where
  pub id : String
  pub business_id : String
  pub environment : Environment
  pub status : PaymentStatus
  pub amount : Text
  pub currency : PaymentCurrency
  pub description : Option String
  pub customer_id : Option String
  pub metadata : List (String × String)
  pub checkout_url : String
  pub link_memo : String
  pub destination_address : Text
  pub payer_address : Option String
  pub transaction_hash : Option String
  pub failure_code : Option String
  pub failure_message : Option Text
  pub expires_at : Option ℕ
  pub paid_at : Option ℕ
  pub completed_at : Option ℕ
  pub canceled_at : Option ℕ
  pub created_at : ℕ
  pub updated_at : ℕ

-- `response_status` is 0 while the request is in flight; `response_body` is none for `{}`.
pub record IdempotencyRecord : Type 0 where
  pub business_id : String
  pub api_key_id : String
  pub key : Text
  pub request_hash : String
  pub response_status : ℕ
  pub response_body : Option PaymentResponse
  pub expires_at : ℕ

-- A job of a BullMQ queue, by its job id, with the row that it names and its delay.
pub data Job : Type 0 where
  fanout_event : (job_id event_id : String) → Job
  deliver : (job_id delivery_id : String) (delay : ℕ) → Job
  finality_check : (job_id payment_id : String) (delay : ℕ) → Job
