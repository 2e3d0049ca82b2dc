-- ===== src/JsonStore.antt =====
-- backend/jsonStore.js: the JSON files of the stores, their lock files and their health.
pub mod Disk
pub mod Crash
pub mod Recover
pub mod Health
pub mod Lock
mod Tests
