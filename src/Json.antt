-- ===== src/Json.antt =====
-- JSON values as the gateway receives them, and the canonical text that is hashed and signed.
pub mod Defs
pub mod Stringify
pub mod Truth
pub mod Canonical
mod Tests
