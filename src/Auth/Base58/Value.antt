-- ===== src/Auth/Base58/Value.antt =====
-- The digits that the encoder writes stand for the number that the bytes stand for.
use vorliq.Common.{
  ℕ, zero, suc, ◌+◌, ◌*◌, ◌/◌, ◌%◌, ◌<◌, ◌≤◌, ◌≡◌, refl, List, [], ◌∷◌, ◌++◌, arith, All, ◌∙◌,
}
use vorliq.Auth.Base58.{number_from, digits, leading, base58_encode}

-- The number that a list of base-58 digits stands for, the highest first.
pub value_from : ℕ → List ℕ → ℕ
value_from acc [] = acc
value_from acc (d ∷ ds) = value_from (acc * 58 + d) ds

value_from-digits :
    (f n : ℕ) (encoded : List ℕ) → n ≤ f → value_from 0 (digits f n encoded) ≡ value_from n encoded
unfolding digits value_from
value_from-digits zero n encoded h = ground arith
value_from-digits (suc f) n encoded h =
    ground (arith, value_from-digits f (n / 58) ((n % 58) ∷ encoded))

value_from-leading : (bytes ds : List ℕ) → value_from 0 (leading bytes ++ ds) ≡ value_from 0 ds
unfolding leading value_from
value_from-leading [] ds = refl
value_from-leading (b ∷ bytes) ds = ground (arith, value_from-leading bytes ds)

-- Every digit is below 58.
digits-All :
    (f n : ℕ) (encoded : List ℕ)
    → All (λ d. d < 58) encoded
    → All (λ d. d < 58) (digits f n encoded)
unfolding digits
digits-All zero n encoded h = h
digits-All (suc f) n encoded h =
    ground (arith, digits-All f (n / 58) ((n % 58) ∷ encoded) (omega arith, h))

All-leading : (bytes ds : List ℕ) → All (λ d. d < 58) ds → All (λ d. d < 58) (leading bytes ++ ds)
unfolding leading
All-leading [] ds h = h
All-leading (b ∷ bytes) ds h = ground (arith, All-leading bytes ds h)

-- The digits of an encoded buffer are digits to base 58, and stand for the same number as its
-- bytes do.
pub base58_value :
    (bytes : List ℕ)
    → (value_from 0 (base58_encode bytes) ≡ number_from 0 bytes)
      × All (λ d. d < 58) (base58_encode bytes)
unfolding base58_encode value_from
base58_value bytes =
    let n = number_from 0 bytes in
    (
      value_from-leading bytes (digits n n []) ∙ value_from-digits n n [] (omega arith),
      All-leading bytes (digits n n []) (digits-All n n [] tt),
    )

abbrev pub IsBytes : List ℕ → Type 0
IsBytes = All (λ b. b < 256)
