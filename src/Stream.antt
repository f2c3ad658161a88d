-- ===== src/Stream.antt =====
-- The forwarding of event streams: internal/stream.
pub mod Forward
mod Tests
