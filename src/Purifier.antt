-- ===== src/Purifier.antt =====
-- The air purifier (custom_components/birdie/purifier).
pub mod Model
pub mod Coordinator
pub mod Entry
pub mod Fan
pub mod Discovery
pub mod Flow
pub mod Sensors
pub mod Button
