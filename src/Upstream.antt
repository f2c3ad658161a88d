-- ===== src/Upstream.antt =====
-- The connection to model providers: internal/upstream.
pub mod Router
pub mod Headers
