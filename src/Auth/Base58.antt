-- ===== src/Auth/Base58.antt =====
-- `base58Encode` of backend/middleware/signedAuthorization.js. The BigInt is a natural number, and
-- a text of base-58 digits is the list of their values.
pub mod Value
mod Tests
use vorliq.Common.{ℕ, zero, suc, ◌+◌, ◌*◌, ◌/◌, ◌%◌, List, [], ◌∷◌, ◌++◌, if◌then◌else◌, ◌==◌}

-- BigInt("0x" + buffer.toString("hex"))
unfoldable pub number_from : ℕ → List ℕ → ℕ
number_from acc [] = acc
number_from acc (b ∷ bytes) = number_from (acc * 256 + b) bytes

-- `while (number > 0n)`: each round puts the last digit before those found so far. The fuel is the
-- number itself, which a division by 58 makes smaller.
unfoldable pub digits : ℕ → ℕ → List ℕ → List ℕ
digits zero n encoded = encoded
digits (suc f) n encoded =
    let rest = digits f (n / 58) ((n % 58) ∷ encoded) in if n == 0 then encoded else rest

-- The zero bytes that the buffer begins with, as digits "1" of value 0.
unfoldable pub leading : List ℕ → List ℕ
leading [] = []
leading (b ∷ bytes) = let rest = leading bytes in if b == 0 then 0 ∷ rest else []

unfoldable pub base58_encode : List ℕ → List ℕ
unfolding number_from digits leading
base58_encode bytes = leading bytes ++ digits (number_from 0 bytes) (number_from 0 bytes) []
