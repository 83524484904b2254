-- ===== src/Lib.antt =====
-- The Hypertron Payments API (hypertron-api): payments, their state machine and event log, the
-- reconciliation with Stellar, idempotent creation, webhook endpoints and deliveries, API keys,
-- sessions and error responses.
--
-- The parts, and where they are modelled (paths from the repository's root):
--   Prelude      names of the libraries, lists over the native numbers, texts by their characters
--   Store        prisma/schema.prisma: `Store.Tables` has the rows, `Store.Effects` the state of the
--                service (`World`, all tables and the job queues) and the effects of a request;
--                `Store.Keeps` says that an effect leaves a table alone
--   Amount       src/common/utils/amount.util.ts: isValidDecimalString, isValidPaymentAmount,
--                addDecimalStrings, compareDecimalStrings and their helpers
--   Payments     src/modules/payments and src/modules/events: `Payments.Events` is emit and
--                dispatchWebhooks; `Payments.StateMachine` is payment-state-machine.ts, where `step`
--                is one access to the database and `transition` four of them in a row;
--                `Payments.Service` and `Payments.Create` are payments.service.ts (create, findOne,
--                cancel) with the inserts of payments.repository.ts and the mapper of
--                payment-response.dto.ts; `Payments.Queries` is findEvents and findByPayment
--   Idempotency  src/modules/idempotency/idempotency.service.ts: check, reserve, complete,
--                validateKey; `Idempotency.Hash` is hashBody over JSON values
--   Customers    src/modules/customers/customers.repository.ts: upsertByEmail
--   Stellar      src/infrastructure/stellar/circuit-breaker.ts (`Stellar.CircuitBreaker`),
--                src/infrastructure/stellar/stellar-horizon.service.ts (`Stellar.Horizon`: withRetry
--                and the records of a page), src/modules/reconciler/stellar-verifier.ts
--                (`Stellar.Verifier`)
--   Reconciler   src/modules/reconciler/reconciler.service.ts: `Reconciler.Runs` has
--                reconcilePayment and finalizePayment, `Reconciler.Cron` the two cron entries, of which
--                `Reconciler.Cron.Expiry` is about the expiry and `Reconciler.Cron.Polls` about the
--                rows and the tally of a poll; `Reconciler.Hashes` is about loadForeignHashes
--   Webhooks     src/modules/webhooks/webhooks.constants.ts (`Webhooks.Schedule`) and
--                src/modules/webhooks/webhook-delivery.service.ts (`Webhooks.Delivery`: fan-out,
--                `Webhooks.Attempts`: attempts and manual retries);
--                `Webhooks.Endpoints`: webhook-endpoint.service.ts; `Webhooks.Signer` and
--                `Webhooks.Sending`: webhook-signer.ts, webhook-payload.ts, send and sendTest
--   Pages        findAll and the cursor of payments.repository.ts, listDeliveries of
--                webhook-delivery.service.ts
--   Crypto       src/common/utils/crypto.util.ts: envelopes of secrets and webhook signatures
--   ApiKeys      src/modules/auth: generate, verify, revoke and rotate
--   Errors       src/common/exceptions; `Errors.Filter` has src/common/filters and the request id
--                interceptor
--   Auth         src/common/auth/dashboard-session.ts (`Auth.Tokens`) and src/common/guards
--                (`Auth.Guards`)
--   EnvironmentScope  src/infrastructure/prisma/environment-scope.extension.ts: the check of a query
--   Tests        examples
--
-- How they interact: the service and the reconciler call the state machine, which changes the row of
-- a payment and appends an event; the event log enqueues a fan-out, which makes the deliveries. All
-- of them read and write the one `World`. The guards stand before a request: that of API keys calls
-- `ApiKeys`, that of sessions reads the settings of merchants; the filter of `Errors` makes the
-- response of whatever is thrown. An endpoint's secret is made and encrypted by `Webhooks.Endpoints`
-- through `Webhooks.Signer`, which `Webhooks.Sending` uses to sign a delivery.
--
-- State and errors: an operation is a function from the world to a result and a new world. An
-- exception keeps what was written before it, since no request runs in a transaction but the rotation
-- of a key. Unique indexes are tests on insertion where a request relies on them: events, transaction
-- hashes, idempotency keys, deliveries, and the ids of API keys and endpoints. The public ids of
-- payments, links and memos are inserted without such a test.
--
-- What is outside is an argument: new ids, random memos, the clock, Horizon's answers, the answers of
-- webhook endpoints, and whether the queue service is absent, up or down. SHA-256 and the order of
-- texts are parameters of the hash of a body. AES-GCM, HMAC, bcrypt, UTF-8, base64url, JSON, URL
-- parsing and the database's order of ids are parameters too, with records of laws where a theorem
-- relies on them (`IsSound`, `IsMac`, `IsFaithful`, `IsStrict`). Metrics and logs are left out. Texts
-- that the code walks are lists of characters; `toLowerCase` and `trim` are those on ASCII.
--
-- Bounds and fuel: a transition has four accesses to the database, so four steps always finish it;
-- the loop of memos has eight attempts and the retries of Horizon four, as in the code; the digits of
-- a number n are written with n + 1 rounds, more than it has digits. All other loops go over a list.
--
-- Not modelled: the controllers, modules, DTO validators and queue workers, configuration,
-- metrics, and start-up: input, output and wiring; the queries of customers and endpoints that only
-- list rows.
pub mod Prelude
pub mod Store
pub mod Amount
pub mod Stellar
pub mod Idempotency
pub mod Customers
pub mod Payments
pub mod Reconciler
pub mod Webhooks
pub mod Pages
pub mod Crypto
pub mod ApiKeys
pub mod Errors
pub mod Auth
pub mod EnvironmentScope
mod Tests
