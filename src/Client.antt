-- ===== src/Client.antt =====
-- The page's side of the signed authorizations: frontend/src/helpers/signedAuthority.js, signer.js
-- and storage.js.
pub mod Browser
pub mod Signer
pub mod Wallet
pub mod Backup
pub mod Saved
pub mod Restored
mod Sample
mod Tests
mod VaultTests
pub mod Authority
pub mod Hex
pub mod Table
pub mod Payload
pub mod Sealed
pub mod Agree
mod Checks
pub mod Accepted
pub mod Transfer
pub mod Messages
