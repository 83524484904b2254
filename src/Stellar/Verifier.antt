-- ===== src/Stellar/Verifier.antt =====
-- src/modules/reconciler/stellar-verifier.ts. A throw of the decimal comparison is `none`.
pub mod Matching
use hypertron_api.Prelude.{
  ℕ, String, List, [], ◌∷◌, ◌++◌, Option, none, some, Bool, true, false, not, ◌&&◌, ◌||◌, ltb,
  str_eq, any, if◌then◌else◌,
}
use hypertron_api.Prelude.Text.{Text, codes, text_eq}
use hypertron_api.Store.Tables.{PaymentCurrency, usdc, eurc, xlm, Environment, test, live}
use hypertron_api.Amount.{Sign, less, equal, greater, compare_decimal_strings}
use hypertron_api.Stellar.Horizon.{HorizonPaymentRecord}

-- What the services read of the configuration `stellar`.
pub record StellarConfig : Type 0 where
  pub usdc_issuer_mainnet : String
  pub usdc_issuer_testnet : String
  pub eurc_issuer_mainnet : String
  pub eurc_issuer_testnet : String
  pub mainnet_destination_address : Text
  pub testnet_destination_address : Text
  pub reconciler_lookback : ℕ
  pub finality_delay_ms : ℕ

pub record PaymentMatchTarget : Type 0 where
  pub link_memo : String
  pub destination_address : Text
  pub amount : Text
  pub currency : PaymentCurrency
  pub environment : Environment
  pub expires_at : Option ℕ

pub data VerifyFailureCode : Type 0 where
  wrong_asset wrong_issuer insufficient_amount wrong_amount memo_mismatch : VerifyFailureCode
  wrong_destination expired duplicate_hash tx_unsuccessful no_match : VerifyFailureCode

pub data VerifyResult : Type 0 where
  matched : HorizonPaymentRecord → VerifyResult
  failed : VerifyFailureCode → Text → Option HorizonPaymentRecord → VerifyResult

-- The code of the currency; it is in upper case already.
abbrev pub currency_code : PaymentCurrency → String
currency_code usdc = "USDC"
currency_code eurc = "EURC"
currency_code xlm = "XLM"

abbrev pub option_or : Option String → String → String
option_or none d = d
option_or (some s) d = s

-- `record.assetType === 'native' ? 'XLM' : (record.assetCode ?? '')`.
abbrev pub actual_code : HorizonPaymentRecord → String
actual_code r = if str_eq r.asset_type "native" then "XLM" else option_or r.asset_code ""

unfoldable pub expected_issuer : StellarConfig → PaymentCurrency → Environment → Option String
expected_issuer c xlm e = none
expected_issuer c usdc live = some c.usdc_issuer_mainnet
expected_issuer c usdc test = some c.usdc_issuer_testnet
expected_issuer c eurc live = some c.eurc_issuer_mainnet
expected_issuer c eurc test = some c.eurc_issuer_testnet

abbrev pub option_is : Option String → String → Bool
option_is none s = false
option_is (some t) s = str_eq t s

abbrev pub has : List String → String → Bool
has hashes h = any (λ g. str_eq g h) hashes

abbrev pub is_after : ℕ → Option ℕ → Bool
is_after t none = false
is_after t (some limit) = ltb limit t

-- 3. The asset's issuer: none for native XLM.
abbrev pub issuer_ok : Option String → Option String → Bool
issuer_ok none none = true
issuer_ok none (some _) = false
issuer_ok (some s) actual = option_is actual s

issuer_message : Option String → Option String → Text
issuer_message none actual = codes "Native XLM payment must not carry an issuer"
issuer_message (some s) actual =
    codes "Expected issuer " ++ codes s ++ codes ", received " ++ codes (option_or actual "null")

-- 5 to 7: memo, duplicate hash, and the ledger's close time.
check_last : PaymentMatchTarget → HorizonPaymentRecord → List String → VerifyResult
check_last target r known =
    if not (option_is r.memo target.link_memo)
    then failed memo_mismatch (codes "Memo does not match payment linkMemo") (some r)
    else if has known r.transaction_hash
    then failed duplicate_hash
        (codes "Transaction "
          ++ codes r.transaction_hash
          ++ codes " already attributed to another payment")
        (some r)
    else if is_after r.created_at target.expires_at
    then failed expired (codes "Payment arrived after expiresAt") (some r)
    else matched r

-- 4. The amount, which must be exact.
check_amount :
    PaymentMatchTarget → HorizonPaymentRecord → List String → Option Sign → Option VerifyResult
check_amount target r known none = none
check_amount target r known (some less) = some (
    failed insufficient_amount
      (codes "Received " ++ r.amount ++ codes ", expected " ++ target.amount) (some r))
check_amount target r known (some greater) = some (
    failed wrong_amount
      (codes "Received " ++ r.amount ++ codes ", expected exact " ++ target.amount) (some r))
check_amount target r known (some equal) = some (check_last target r known)

unfoldable pub check_record :
    StellarConfig → PaymentMatchTarget → HorizonPaymentRecord → List String → Option VerifyResult
unfolding check_amount check_last issuer_message
check_record c target r known =
    let issuer = expected_issuer c target.currency target.environment in
    if not r.successful
    then some (failed tx_unsuccessful (codes "Transaction was not successful on Stellar") (some r))
    else if not (text_eq r.to target.destination_address)
    then some (
        failed wrong_destination
          (codes "Destination " ++ r.to ++ codes " does not match " ++ target.destination_address)
          (some r))
    else if not (str_eq (actual_code r) (currency_code target.currency))
    then some (
        failed wrong_asset
          (codes "Expected asset "
            ++ codes (currency_code target.currency)
            ++ codes ", received "
            ++ codes (if str_eq (actual_code r) "" then r.asset_type else actual_code r))
          (some r))
    else if not (issuer_ok issuer r.asset_issuer)
    then some (failed wrong_issuer (issuer_message issuer r.asset_issuer) (some r))
    else check_amount target r known (compare_decimal_strings r.amount target.amount)

-- A record that the scan stops at.
abbrev pub is_hit : PaymentMatchTarget → HorizonPaymentRecord → Bool
is_hit target r = r.successful && option_is r.memo target.link_memo

-- The scan returns at its first hit, whatever the check says; so no record is ever left in
-- `memoHit` after the loop.
unfoldable pub verify :
    StellarConfig
    → PaymentMatchTarget
    → List HorizonPaymentRecord
    → List String
    → Option VerifyResult
verify c target [] known =
    some (failed no_match (codes "No Horizon payment matched this link memo") none)
verify c target (r ∷ rs) known =
    let rest = verify c target rs known in
    if is_hit target r then check_record c target r known else rest
