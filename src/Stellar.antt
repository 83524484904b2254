-- ===== src/Stellar.antt =====
-- src/infrastructure/stellar and src/modules/reconciler/stellar-verifier.ts: reading payments from
-- Horizon behind a circuit breaker, and matching them with what a merchant asked for.
pub mod CircuitBreaker
pub mod Horizon
pub mod Verifier
