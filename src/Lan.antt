-- ===== src/Lan.antt =====
-- The asynchronous client of a device on the local network (custom_components/birdie/lan).
pub mod Errors
pub mod Redact
pub mod Device
pub mod Search
pub mod Discovery
