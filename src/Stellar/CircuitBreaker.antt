-- ===== src/Stellar/CircuitBreaker.antt =====
-- src/infrastructure/stellar/circuit-breaker.ts. `exec` is two steps, the admission of the call and
-- the report of its outcome: other calls may run between them.
pub mod States
use hypertron_api.Prelude.{
  ℕ, suc, ◌+◌, List, [], ◌∷◌, Option, none, some, Bool, true, false, ◌&&◌, ◌||◌, leb, if◌then◌else◌,
}

-- `opened` is the state `'open'`.
pub data CircuitState : Type 0 where
  closed opened half_open : CircuitState

pub record CircuitBreaker : Type 0 where
  pub state : CircuitState
  pub failures : ℕ
  pub opened_at : ℕ
  pub failure_threshold : ℕ
  pub reset_timeout_ms : ℕ

pub record CircuitBreakerOptions : Type 0 where
  pub failure_threshold : Option ℕ
  pub reset_timeout_ms : Option ℕ

abbrev or_default : Option ℕ → ℕ → ℕ
or_default none d = d
or_default (some n) d = n

unfoldable pub new : CircuitBreakerOptions → CircuitBreaker
new options = record {
  state = closed;
  failures = 0;
  opened_at = 0;
  failure_threshold = or_default options.failure_threshold 5;
  reset_timeout_ms = or_default options.reset_timeout_ms 30000;
}

abbrev pub is_open : CircuitState → Bool
is_open opened = true
is_open _ = false

abbrev pub is_half_open : CircuitState → Bool
is_half_open half_open = true
is_half_open _ = false

-- `Date.now() - openedAt >= resetTimeoutMs`, without a subtraction that stops at 0.
unfoldable pub maybe_half_open : ℕ → CircuitBreaker → CircuitBreaker
maybe_half_open now b =
    if is_open b.state && leb (b.opened_at + b.reset_timeout_ms) now
    then record b { state = half_open }
    else b

unfoldable pub get_state : ℕ → CircuitBreaker → CircuitState × CircuitBreaker
unfolding maybe_half_open
get_state now b = let b' = maybe_half_open now b in (b'.state, b')

unfoldable pub on_success : CircuitBreaker → CircuitBreaker
on_success b = record b { failures = 0; state = closed }

unfoldable pub on_failure : ℕ → CircuitBreaker → CircuitBreaker
on_failure now b =
    let b' = record b { failures = b.failures + 1 } in
    if is_half_open b.state || leb b.failure_threshold (b.failures + 1)
    then record b' { state = opened; opened_at = now }
    else b'

-- The first half of `exec`: whether `fn` is called, or `CircuitOpenError` is thrown.
unfoldable pub admit : ℕ → CircuitBreaker → Bool × CircuitBreaker
unfolding maybe_half_open
admit now b = let b' = maybe_half_open now b in (if is_open b'.state then false else true, b')

-- How the promise of `fn` settles, and when.
pub data Settled {ℓ} (A : Type ℓ) : Type ℓ where
  resolved : A → Settled A
  rejected : ℕ → Settled A

-- The second half of `exec`.
unfoldable pub settle {ℓ} : {A : Type ℓ} → Settled A → CircuitBreaker → CircuitBreaker
unfolding on_success on_failure
settle (resolved a) b = on_success b
settle (rejected now) b = on_failure now b

pub data ExecResult {ℓ} (A : Type ℓ) : Type ℓ where
  value : A → ExecResult A
  failure circuit_open : ExecResult A

abbrev pub exec_result {ℓ} : {A : Type ℓ} → Settled A → ExecResult A
exec_result (resolved a) = value a
exec_result (rejected _) = failure

-- `exec` where nothing else runs while `fn` does.
unfoldable pub exec {ℓ} :
    {A : Type ℓ} → ℕ → Settled A → CircuitBreaker → ExecResult A × CircuitBreaker
unfolding admit settle
exec now fn b =
    let (admitted, b') = admit now b in
    if admitted then (exec_result fn, settle fn b') else (circuit_open, b')
