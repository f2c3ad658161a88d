-- ===== src/Reasoning.antt =====
-- The replay of reasoning texts: internal/reasoning.
pub mod Cache
pub mod Json
pub mod Messages
pub mod Stream
pub mod Session
