-- ===== src/Validation/Routes.antt =====
-- The checks of `validateBody`, route by route.
pub mod Money
pub mod Votes
pub mod Posts
pub mod Market
