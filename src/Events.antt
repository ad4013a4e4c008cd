-- ===== src/Events.antt =====
-- internal/events: delivery of event payloads.
pub mod Dispatcher
