-- ===== src/Listeners.antt =====
-- From a signal with its slots to the listeners of a channel: `base/signal.h`,
-- `transport/message/listener_handler.h`.
pub mod Signal
pub mod Handler
pub mod Dispatcher
