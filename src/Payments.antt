-- ===== src/Payments.antt =====
-- src/modules/payments and src/modules/events: the life of a payment.
pub mod Events
pub mod StateMachine
pub mod Service
pub mod Create
pub mod Queries
