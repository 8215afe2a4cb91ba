-- ===== src/Webhook.antt =====
-- The webhook module: registered endpoints, their events, deliveries with retries, and the circuit
-- breaker of each endpoint.
pub mod State
pub mod CircuitBreaker
pub mod Service
pub mod Listener
pub mod Signing
pub mod Delivery
pub mod Processor
mod Tests
