-- ===== src/Event.antt =====
-- Events: api/internal/event.
pub mod Validate
