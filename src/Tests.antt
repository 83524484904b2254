-- ===== src/Tests.antt =====
-- Examples: each theorem with conditions at a concrete input.
mod Fixtures
mod Machine
mod Requests
mod Decimals
mod Horizon
mod Cron
mod Webhooks
mod Pages
mod Runtimes
mod Crypto
mod Keys
mod Auth
mod Errors
mod Endpoints
