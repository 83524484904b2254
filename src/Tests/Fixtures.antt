-- ===== src/Tests/Fixtures.antt =====
-- The rows and inputs that the examples share.
use hypertron_api.Prelude.{[], ◌∷◌, none, some}
use hypertron_api.Prelude.Text.{codes}
use hypertron_api.Store.Tables.{PaymentStatus, test, usdc, Payment}
use hypertron_api.Store.Effects.{World}
use hypertron_api.Payments.Events.{Queue, EmitInput}
use hypertron_api.Stellar.Verifier.{StellarConfig}

abbrev pub invoice : Payment
invoice = record {
  id = "p1";
  public_id = "pay_1";
  business_id = "shop";
  environment = test;
  status = PaymentStatus.pending;
  amount = codes "10.5";
  currency = usdc;
  description = none;
  customer_id = none;
  metadata = [];
  checkout_url = "https://example.org/pay/cl_1";
  checkout_link_id = "l1";
  link_memo = "hpl_1";
  destination_address = codes "GDEST";
  payer_address = none;
  transaction_hash = none;
  asset_issuer = none;
  failure_code = none;
  failure_message = none;
  expires_at = some 5000;
  paid_at = none;
  completed_at = none;
  canceled_at = none;
  created_at = 100;
  updated_at = 100;
}

abbrev pub empty_world : World
empty_world = record {
  payments = [];
  events = [];
  checkout_links = [];
  customers = [];
  api_keys = [];
  merchant_settings = [];
  endpoints = [];
  deliveries = [];
  idempotency_records = [];
  jobs = [];
}

abbrev pub one_payment : World
one_payment = record empty_world { payments = invoice ∷ [] }

abbrev pub emit_input : EmitInput
emit_input = record { row_id = "e1"; ulid = "E1"; now = 200; queue = Queue.up }

abbrev pub stellar : StellarConfig
stellar = record {
  usdc_issuer_mainnet = "GMAIN";
  usdc_issuer_testnet = "GTEST";
  eurc_issuer_mainnet = "GEUR";
  eurc_issuer_testnet = "GEURT";
  mainnet_destination_address = codes "GDEFAULT";
  testnet_destination_address = codes "GAAAAAAAAAAAAAAAAAAAAAAAAAAAAAAAAAAAAAAAAAAAAAAAAAAAAWHF";
  reconciler_lookback = 50;
  finality_delay_ms = 15000;
}
