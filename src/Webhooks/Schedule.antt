-- ===== src/Webhooks/Schedule.antt =====
-- The retry schedule of a delivery (src/modules/webhooks/webhooks.constants.ts).
use hypertron_api.Prelude.{
  ℕ, zero, suc, ◌-◌, ◌≤◌, List, [], ◌∷◌, Option, none, some, Bool, ◌||◌, ◌==◌, ltb, leb, any,
  get_elem?, if◌then◌else◌, ◌≡◌, ◌↔◌, arith,
}

abbrev pub max_delivery_attempts : ℕ
max_delivery_attempts = 7

abbrev pub response_body_max_chars : ℕ
response_body_max_chars = 2048

abbrev pub retry_delays_ms : List ℕ
retry_delays_ms = 30000 ∷ 120000 ∷ 600000 ∷ 3600000 ∷ 21600000 ∷ 86400000 ∷ []

abbrev retryable_client_status : List ℕ
retryable_client_status = 408 ∷ 409 ∷ 425 ∷ 429 ∷ []

abbrev pub is_retryable_status : ℕ → Bool
is_retryable_status status = leb 500 status || any (λ s. s == status) retryable_client_status

unfoldable pub retry_delay_ms : ℕ → Option ℕ
retry_delay_ms n =
    if ltb n 1
    then some 0
    else if leb max_delivery_attempts n
    then none
    else get_elem? retry_delays_ms (n - 1)

-- The schedule is exhausted exactly from the seventh attempt on: every earlier one has a delay.
pub retry_delay_ms_iff : (n : ℕ) → (retry_delay_ms n ≡ none) ↔ (7 ≤ n)
unfolding retry_delay_ms
retry_delay_ms_iff zero = ground arith
retry_delay_ms_iff (suc zero) = ground arith
retry_delay_ms_iff (suc (suc zero)) = ground arith
retry_delay_ms_iff (suc (suc (suc zero))) = ground arith
retry_delay_ms_iff (suc (suc (suc (suc zero)))) = ground arith
retry_delay_ms_iff (suc (suc (suc (suc (suc zero))))) = ground arith
retry_delay_ms_iff (suc (suc (suc (suc (suc (suc zero)))))) = ground arith
retry_delay_ms_iff (suc (suc (suc (suc (suc (suc (suc n))))))) = ground arith
