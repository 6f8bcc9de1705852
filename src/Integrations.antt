-- ===== src/Integrations.antt =====
-- platforms/integrations: the outbox of messages to other services and its dispatcher.
pub mod Http
pub mod Outbox
pub mod Dispatcher
mod Tests
