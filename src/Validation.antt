-- ===== src/Validation.antt =====
-- backend/middleware/validation.js: what the body of a write must be to be passed on, and in what form.
pub mod Check
pub mod Secret
pub mod Field
pub mod Routes
pub mod Body
pub mod FieldLaws
pub mod Transfer
pub mod Ballot
mod Tests
