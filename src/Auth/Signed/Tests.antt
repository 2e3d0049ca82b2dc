-- ===== src/Auth/Signed/Tests.antt =====
-- A key whose hash has twenty bytes, the first of them 0, and its address.
use vorliq.Common.{ℕ, String, true, ◌≡◌, refl, some, none, List, [], ◌∷◌, arith, ltb}
use vorliq.Common.Text.{all_codes}
use vorliq.Auth.Base58.{base58_encode}
use vorliq.Auth.Base58.Value.{IsBytes}
use vorliq.Auth.Signed.Crypto.{
  PublicKey, Runtime, base58_text, address_of_key, address_from_public_key,
}
use vorliq.Auth.Signed.Address.{read_address, address_from_public_key-read}

abbrev twenty : List ℕ
twenty =
    0 ∷ 1 ∷ 2 ∷ 3 ∷ 4 ∷ 5 ∷ 6 ∷ 7 ∷ 8 ∷ 9 ∷ 250 ∷ 251 ∷ 252 ∷ 253 ∷ 254 ∷ 255 ∷ 16 ∷ 17 ∷ 18 ∷ 19
    ∷ []

abbrev key : PublicKey
key = record { is_secp256k1 = true; x = 1 ∷ []; y = 2 ∷ [] }

abbrev runtime : Runtime
runtime = record {
  to_text = λ v. "";
  to_integer = λ v. none;
  quote = λ s. s;
  integer_text = λ n. "";
  create_public_key = λ pem. some key;
  sha256 = λ bytes. bytes;
  ripemd160 = λ bytes. twenty;
  sha256_hex = λ text. text;
  verify = λ message pem signature. true;
}

abbrev address : String
address = "1Bhh3pU9gLXZwuLABGoRxQeERx"

has_address : address_from_public_key runtime "pem" ≡ some address
unfolding address_from_public_key address_of_key base58_encode base58_text
has_address = refl

all_codes-IsBytes : (bytes : List ℕ) → all_codes (λ b. ltb b 256) bytes ≡ true → IsBytes bytes
unfolding all_codes
all_codes-IsBytes [] h = tt
all_codes-IsBytes (b ∷ bytes) h = (ground arith, all_codes-IsBytes bytes (ground arith))

address_from_public_key-read_example : (key.is_secp256k1 ≡ true) × (read_address address ≡ twenty)
unfolding all_codes
address_from_public_key-read_example =
    address_from_public_key-read runtime (λ bytes. (all_codes-IsBytes twenty refl, refl)) "pem" key
      address refl has_address
