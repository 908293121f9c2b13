-- ===== src/Transport.antt =====
-- transport/: endpoints, messages, shared memory and dispatch.
pub mod Attributes
pub mod Presets
pub mod Rtps
