-- ===== src/Stellar/Horizon.antt =====
-- src/infrastructure/stellar/stellar-horizon.service.ts: the retries of a request, and the records
-- that a page of operations gives. The HTTP client is outside: what it answers is an argument.
pub mod Retry
use hypertron_api.Prelude.{
  ℕ, zero, suc, ◌+◌, ◌*◌, ◌^◌, min, String, List, [], ◌∷◌, Option, none, some, Bool, true, false,
  not, ◌&&◌, ◌||◌, leb, ◌==◌, str_eq, if◌then◌else◌,
}
use hypertron_api.Prelude.Text.{Text, codes, to_lower_case, includes_text}

pub record HorizonPaymentRecord : Type 0 where
  pub id : String
  pub transaction_hash : String
  pub from : String
  pub to : Text
  pub amount : Text
  pub asset_type : String
  pub asset_code : Option String
  pub asset_issuer : Option String
  pub created_at : ℕ
  pub memo : Option String
  pub memo_type : Option String
  pub successful : Bool

-- A rejected promise: CircuitOpenError, or an Error with its message and the status of its response,
-- if there is one, or a value that is no Error.
pub data Rejection : Type 0 where
  circuit_open no_error : Rejection
  error : (message : Text) (status : Option ℕ) → Rejection

abbrev is_server_status : Option ℕ → Bool
is_server_status none = false
is_server_status (some status) = leb 500 status || status == 429

unfoldable pub is_retryable_error : Text → Option ℕ → Bool
unfolding to_lower_case includes_text
is_retryable_error message status =
    let msg = to_lower_case message in
    includes_text (codes "timed out") msg
    || includes_text (codes "econnreset") msg
    || includes_text (codes "enotfound") msg
    || includes_text (codes "econnrefused") msg
    || is_server_status status

-- The error of an open circuit has none of these messages and no response.
abbrev pub is_retryable : Rejection → Bool
is_retryable no_error = true
is_retryable circuit_open = false
is_retryable (error message status) = is_retryable_error message status

pub data Outcome {ℓ} (A : Type ℓ) : Type ℓ where
  ok : A → Outcome A
  thrown : Rejection → Outcome A

abbrev pub max_retries : ℕ
max_retries = 3

-- What a run of `withRetry` does: how it settles, the calls made, and the milliseconds slept.
pub record Trace {ℓ} (A : Type ℓ) : Type ℓ where
  pub outcome : Outcome A
  pub calls : ℕ
  pub slept : ℕ

abbrev is_circuit_open : Rejection → Bool
is_circuit_open circuit_open = true
is_circuit_open _ = false

-- The loop, with the attempts that are left; `fn k` is how the call of attempt `k` settles (with
-- its time-out).
unfoldable pub retry_loop {ℓ} : {A : Type ℓ} → ℕ → ℕ → (ℕ → Outcome A) → Trace A
retry_loop zero attempt fn = record { outcome = fn attempt; calls = 1; slept = 0 }
retry_loop (suc left) attempt fn =
    let again = retry_loop left (attempt + 1) fn in
    elim (fn attempt) [
      | ok a ↦ record { outcome = ok a; calls = 1; slept = 0 }
      | thrown e ↦
          if is_circuit_open e || not (is_retryable e)
          then record { outcome = thrown e; calls = 1; slept = 0 }
          else record again {
            calls = again.calls + 1;
            slept = min (1000 * 2 ^ attempt) 8000 + again.slept;
          }
    ]

unfoldable pub with_retry {ℓ} : {A : Type ℓ} → (ℕ → Outcome A) → Trace A
unfolding retry_loop
with_retry fn = retry_loop max_retries 0 fn

-- The joined transaction of an operation, and the transaction that `transaction()` loads.
pub record TransactionAttr : Type 0 where
  pub memo : Option String
  pub memo_type : Option String
  pub successful : Option Bool

pub record LoadedTransaction : Type 0 where
  pub memo : Option String
  pub memo_type : Option String
  pub successful : Bool

-- An operation of the page; `transaction` is none where the operation has no such function.
pub record Operation : Type 0 where
  pub type : String
  pub id : String
  pub transaction_hash : String
  pub from : String
  pub to : Text
  pub amount : Text
  pub asset_type : String
  pub asset_code : Option String
  pub asset_issuer : Option String
  pub created_at : ℕ
  pub transaction_attr : Option TransactionAttr
  pub transaction_successful : Option Bool
  pub transaction : Option (ℕ → Outcome LoadedTransaction)

abbrev bind {ℓ κ} : {A : Type ℓ} {B : Type κ} → Option A → (A → Option B) → Option B
bind none f = none
bind (some a) f = f a

abbrev or_else : {A : Type 0} → Option A → A → A
or_else none d = d
or_else (some a) d = a

abbrev or_option : {A : Type 0} → Option A → Option A → Option A
or_option none o = o
or_option (some a) o = some a

-- `payment.transaction_attr?.successful ?? payment.transaction_successful ?? true`.
abbrev joined : Operation → LoadedTransaction
joined op = record {
  memo = bind op.transaction_attr (λ t. t.memo);
  memo_type = bind op.transaction_attr (λ t. t.memo_type);
  successful =
      or_else (or_option (bind op.transaction_attr (λ t. t.successful)) op.transaction_successful)
        true;
}

-- Prefer the joined transaction; fall back to fetching it; none where the fetch fails.
load_missing :
    Operation → Option (ℕ → Outcome LoadedTransaction) → Option String → Option LoadedTransaction
load_missing op fetch (some memo) = some (joined op)
load_missing op none none = some (joined op)
load_missing op (some fetch) none = elim ((with_retry fetch).outcome) [
  | ok t ↦ some t
  | thrown _ ↦ none
]

unfoldable pub record_of : Operation → Option HorizonPaymentRecord
unfolding load_missing with_retry
record_of op =
    if str_eq op.type "payment"
    then bind (load_missing op op.transaction (joined op).memo) (λ t. some (record {
      id = op.id;
      transaction_hash = op.transaction_hash;
      from = op.from;
      to = op.to;
      amount = op.amount;
      asset_type = op.asset_type;
      asset_code = if str_eq op.asset_type "native" then some "XLM" else op.asset_code;
      asset_issuer = if str_eq op.asset_type "native" then none else op.asset_issuer;
      created_at = op.created_at;
      memo = t.memo;
      memo_type = t.memo_type;
      successful = t.successful;
    }))
    else none

-- The loop over the page's records.
unfoldable pub records_of : List Operation → List HorizonPaymentRecord
unfolding record_of
records_of [] = []
records_of (op ∷ ops) =
    let rest = records_of ops in elim (record_of op) [ none ↦ rest | some r ↦ r ∷ rest ]
