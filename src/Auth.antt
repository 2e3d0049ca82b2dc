-- ===== src/Auth.antt =====
-- The gateway of signed writes: its lockout, and the verification of an authorization.
pub mod Lockout
pub mod Base58
pub mod Signed
pub mod Gateway
