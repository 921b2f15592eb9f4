-- ===== src/Messaging.antt =====
-- How the library hands messages to the application's code: signals, the event bus and the mediator.
pub mod Signal
pub mod EventBus
pub mod Mediator
mod Tests
