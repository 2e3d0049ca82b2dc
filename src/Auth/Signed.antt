-- ===== src/Auth/Signed.antt =====
-- backend/middleware/signedAuthorization.js: the verification of a signed authorization.
-- The parts below split the checks of `verifySignedAuthorization` in the order of the source.
pub mod Routes
pub mod Crypto
pub mod Address
mod Tests
pub mod Envelope
pub mod Verify
pub mod Sound
pub mod Complete
pub mod Replay
