-- ===== src/Handlers.antt =====
-- The HTTP handlers: internal/handlers.
pub mod Cooldown
pub mod Payload
pub mod Exchange
pub mod Failover
pub mod SingleToken
mod Tests
