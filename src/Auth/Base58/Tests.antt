-- ===== src/Auth/Base58/Tests.antt =====
-- The encoding of a short buffer.
use vorliq.Common.{ℕ, ◌≡◌, refl, List, [], ◌∷◌}
use vorliq.Auth.Base58.{base58_encode}

abbrev bytes : List ℕ
bytes = 0 ∷ 0 ∷ 4 ∷ 1 ∷ 2 ∷ []

encoded : base58_encode bytes ≡ 0 ∷ 0 ∷ 1 ∷ 20 ∷ 0 ∷ 10 ∷ []
unfolding base58_encode
encoded = refl
