-- ===== src/Stellar/CircuitBreaker/States.antt =====
-- What the circuit breaker keeps and when it opens, half-opens and closes.
use hypertron_api.Prelude.{
  ℕ, suc, ◌+◌, ◌≤◌, ◌<◌, List, [], ◌∷◌, true, ◌≡◌, ◌↔◌, refl, arith, length, if◌then◌else◌,
}
use hypertron_api.Stellar.CircuitBreaker.{
  CircuitBreaker, closed, opened, half_open, admit, Settled, resolved, rejected, settle, exec,
  circuit_open,
}

-- What may happen to a breaker, by any number of calls at once: a call is admitted or turned away,
-- or the promise of an admitted one settles.
pub data Step : CircuitBreaker → CircuitBreaker → Type 0 where
  admits : (now : ℕ) (b : CircuitBreaker) → Step b (admit now b).1
  settles : (fn : Settled (Unit {0})) (b : CircuitBreaker) → Step b (settle fn b)

pub data Reach (b : CircuitBreaker) : CircuitBreaker → Type 0 where
  here : Reach b b
  next : {c d : CircuitBreaker} → Reach b c → Step c d → Reach b d

-- A closed breaker has seen fewer failures in a row than its threshold.
pub record IsValid (b : CircuitBreaker) : Type 0 where
  pub positive : 0 < b.failure_threshold
  pub below : b.state ≡ closed → b.failures < b.failure_threshold

Step-IsValid : {b c : CircuitBreaker} → Step b c → IsValid b → IsValid c
unfolding admit settle
Step-IsValid (admits now b) v = ground arith
Step-IsValid (settles (resolved _) b) v = ground arith
Step-IsValid (settles (rejected now) b) v = ground arith

-- A breaker with a positive threshold that, if closed, has counted fewer failures than its
-- threshold stays so, however calls overlap.
pub Reach-IsValid : {b c : CircuitBreaker} → Reach b c → IsValid b → IsValid c
Reach-IsValid here v = v
Reach-IsValid (next r s) v = Step-IsValid s (Reach-IsValid r v)

-- A call is turned away exactly when the breaker is open and its timeout has not passed.
pub exec_circuit_open_iff :
    (now : ℕ) (fn : Settled (Unit {0})) (b : CircuitBreaker)
    → ((exec now fn b).0 ≡ circuit_open)
      ↔ ((b.state ≡ opened) × (now < b.opened_at + b.reset_timeout_ms))
unfolding exec
exec_circuit_open_iff now (resolved _) b = ground arith
exec_circuit_open_iff now (rejected _) b = ground arith

-- The calls that fail one after another, at these times.
pub fail_all : List ℕ → CircuitBreaker → CircuitBreaker
fail_all [] b = b
fail_all (t ∷ ts) b = fail_all ts (exec {A = Unit {0}} t (rejected t) b).1

record IsCounting (b c : CircuitBreaker) (n : ℕ) : Type 0 where
  state : c.state ≡ closed
  failures : c.failures ≡ b.failures + n
  threshold : c.failure_threshold ≡ b.failure_threshold

fail_once :
    (t : ℕ) (b : CircuitBreaker)
    → b.state ≡ closed
    → b.failures + 1 < b.failure_threshold
    → IsCounting b (exec {A = Unit {0}} t (rejected t) b).1 1
unfolding exec
fail_once t b h lt = ground arith

fail_all-IsCounting :
    (ts : List ℕ) (b : CircuitBreaker)
    → b.state ≡ closed
    → b.failures + length ts < b.failure_threshold
    → IsCounting b (fail_all ts b) (length ts)
unfolding fail_all
fail_all-IsCounting [] b h lt = ground arith
fail_all-IsCounting (t ∷ ts) b h lt =
    let c : IsCounting b (exec {A = Unit {0}} t (rejected t) b).1 1 =
      fail_once t b h (omega arith) in
    let d : IsCounting (exec {A = Unit {0}} t (rejected t) b).1
        (fail_all ts (exec {A = Unit {0}} t (rejected t) b).1) (length ts) =
      fail_all-IsCounting ts (exec {A = Unit {0}} t (rejected t) b).1 c.state (omega arith) in
    record { state = d.state; failures = omega arith; threshold = omega arith }

open_on_failure :
    (t : ℕ) (b : CircuitBreaker)
    → b.state ≡ closed
    → b.failures + 1 ≡ b.failure_threshold
    → ((exec {A = Unit {0}} t (rejected t) b).1.state ≡ opened)
      × ((exec {A = Unit {0}} t (rejected t) b).1.opened_at ≡ t)
unfolding exec
open_on_failure t b h e = ground arith

-- A closed breaker stays closed while the calls that fail one after another leave the count below
-- the threshold, and the call that reaches the threshold opens it, at the time of that failure.
pub fail_all_opens :
    (ts : List ℕ) (t : ℕ) (b : CircuitBreaker)
    → b.state ≡ closed
    → b.failures + length ts + 1 ≡ b.failure_threshold
    → let c = fail_all ts b in
      (c.state ≡ closed)
      × ((exec {A = Unit {0}} t (rejected t) c).1.state ≡ opened)
      × ((exec {A = Unit {0}} t (rejected t) c).1.opened_at ≡ t)
fail_all_opens ts t b h e =
    let c : IsCounting b (fail_all ts b) (length ts) = fail_all-IsCounting ts b h (omega arith) in
    let (opens, at) = open_on_failure t (fail_all ts b) c.state (omega arith) in
    (c.state, opens, at)

-- Calls that come in one after another, none of which has settled: how many are let through.
pub admissions : List ℕ → CircuitBreaker → ℕ
admissions [] b = 0
admissions (t ∷ ts) b =
    let rest = admissions ts (admit t b).1 in if (admit t b).0 then suc rest else rest

half_open-admit : (t : ℕ) (b : CircuitBreaker) → b.state ≡ half_open → admit t b ≡ (true, b)
unfolding admit
half_open-admit t b h = ground arith

-- A half-open breaker lets every call through until one of them settles, not one probe alone.
pub half_open_admissions :
    (ts : List ℕ) (b : CircuitBreaker) → b.state ≡ half_open → admissions ts b ≡ length ts
unfolding admissions
half_open_admissions [] b h = refl
half_open_admissions (t ∷ ts) b h = rw (half_open-admit t b h) (rw (half_open_admissions ts b h))

-- The breaker after a probe that settled so.
abbrev pub Probed : Settled (Unit {0}) → CircuitBreaker → Type 0
Probed (resolved _) b = (b.state ≡ closed) × (b.failures ≡ 0)
Probed (rejected at) b = (b.state ≡ opened) × (b.opened_at ≡ at)

-- One call after the timeout of an open breaker decides: its success closes the breaker and resets
-- the count, its failure opens it anew, from the time of the failure.
pub exec_probe :
    (now : ℕ) (fn : Settled (Unit {0})) (b : CircuitBreaker)
    → b.state ≡ opened
    → b.opened_at + b.reset_timeout_ms ≤ now
    → Probed fn (exec now fn b).1
unfolding exec
exec_probe now (resolved _) b h le = ground arith
exec_probe now (rejected at) b h le = ground arith
