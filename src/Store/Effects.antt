-- ===== src/Store/Effects.antt =====
-- The state of the service and the effects of a request: reads and writes of the tables, and
-- exceptions that leave the state as it is where they are thrown (no request runs in a database
-- transaction but the rotation of a key).
use hypertron_api.Prelude.{
  String, List, [], ◌∷◌, ◌++◌, refl, Option, none, some, ◌≡◌, arith, str_eq, eq_iff, if◌then◌else◌,
}
use mathlib.Core.Option
use hypertron_api.Store.Tables.{
  PaymentStatus, Payment, PaymentEvent, CheckoutLink, Customer, ApiKey, MerchantSettings,
  WebhookEndpoint, WebhookDelivery, IdempotencyRecord, Job,
}

pub record World : Type 0 where
  pub payments : List Payment
  pub events : List PaymentEvent
  pub checkout_links : List CheckoutLink
  pub customers : List Customer
  pub api_keys : List ApiKey
  pub merchant_settings : List MerchantSettings
  pub endpoints : List WebhookEndpoint
  pub deliveries : List WebhookDelivery
  pub idempotency_records : List IdempotencyRecord
  pub jobs : List Job

-- The exceptions, by class and code. A state transition names the state that it starts from, none
-- for `(not found)`, and its target.
pub data Error : Type 0 where
  state_transition : Option PaymentStatus → PaymentStatus → Error
  unique_violation circuit_open : Error
  invalid_request resource_missing idempotency other_error : String → Error

pub data Result {ℓ} (A : Type ℓ) : Type ℓ where
  ok : A → Result A
  err : Error → Result A

abbrev pub M {ℓ} : Type ℓ → Type ℓ
M A = World → Result A × World

abbrev pub bind_result {ℓ κ} :
    {A : Type ℓ} {B : Type κ} → Result A × World → (A → M B) → Result B × World
bind_result (ok a, w) f = f a w
bind_result (err e, w) f = (err e, w)

abbrev pub handle_result {ℓ} : {A : Type ℓ} → Result A × World → (Error → M A) → Result A × World
handle_result (ok a, w) h = (ok a, w)
handle_result (err e, w) h = h e w

infixl 5 ◌>>=◌ ◌>>◌
abbrev pub ◌>>=◌ {ℓ κ} : {A : Type ℓ} {B : Type κ} → M A → (A → M B) → M B
◌>>=◌ m f w = bind_result (m w) f

abbrev pub ◌>>◌ {ℓ κ} : {A : Type ℓ} {B : Type κ} → M A → M B → M B
◌>>◌ m k w = bind_result (m w) (λ _. k)

abbrev pub return {ℓ} : {A : Type ℓ} → A → M A
return a w = (ok a, w)

abbrev pub throw {ℓ} : {A : Type ℓ} → Error → M A
throw e w = (err e, w)

-- `try { m } catch (e) { h e }`.
abbrev pub catch {ℓ} : {A : Type ℓ} → M A → (Error → M A) → M A
catch m h w = handle_result (m w) h

-- Rows by a key that is unique in the table.
module _ {ℓ} {A : Type ℓ} (key : A → String) where
  unfoldable pub find_by : String → List A → Option A
  find_by k [] = none
  find_by k (r ∷ rs) = if str_eq (key r) k then some r else find_by k rs

  unfoldable pub update_by : String → (A → A) → List A → List A
  update_by k f [] = []
  update_by k f (r ∷ rs) = if str_eq (key r) k then f r ∷ rs else r ∷ update_by k f rs

  pub find_by-update_by :
      (j k : String) (f : A → A) (rs : List A)
      → ((r : A) → key (f r) ≡ key r)
      → find_by k (update_by j f rs)
        ≡ (if str_eq j k then Option.map f (find_by k rs) else find_by k rs)
  unfolding find_by update_by
  find_by-update_by j k f [] h = ground arith
  find_by-update_by j k f (r ∷ rs) h = ground (
    arith,
    eq_iff (key r) j,
    eq_iff (key r) k,
    eq_iff j k,
    eq_iff (key (f r)) k,
    h r,
    find_by-update_by j k f rs h,
  )

  pub find_by-key : (k : String) (rs : List A) {r : A} → find_by k rs ≡ some r → key r ≡ k
  unfolding find_by
  find_by-key k [] h = ground arith
  find_by-key k (q ∷ rs) {r} h = ground (arith, eq_iff (key q) k, find_by-key k rs {r = r})

  pub find_by-append :
      (k : String) (rs : List A) (r : A)
      → find_by k (rs ++ r ∷ [])
        ≡ elim (find_by k rs) [ none ↦ if str_eq (key r) k then some r else none | some q ↦ some q ]
  unfolding find_by
  find_by-append k [] r = refl
  find_by-append k (q ∷ rs) r = ground (arith, find_by-append k rs r)
