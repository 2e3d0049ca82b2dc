-- ===== src/Auth/Signed/Crypto.antt =====
-- What the gateway uses of Node's crypto module and of the JavaScript runtime, as a parameter,
-- and `addressFromPublicKey` over it.
use Prim.Native.String.{slice, ◌++◌ as join}
use vorliq.Common.{ℕ, ◌+◌, String, Bool, Option, none, some, List, [], ◌∷◌, ◌++◌, if◌then◌else◌}
use vorliq.Common.Int.{ℤ}
use vorliq.Json.Defs.{Json}
use vorliq.Auth.Base58.{base58_encode}

-- What `crypto.createPublicKey` makes of a text that it accepts, with the decoded coordinates.
pub record PublicKey : Type 0 where
  pub is_secp256k1 : Bool
  pub x : List ℕ
  pub y : List ℕ

pub record Runtime : Type 0 where
  -- String(value), and Number(value) where Number.isInteger holds of it
  pub to_text : Json → String
  pub to_integer : Json → Option ℤ
  -- JSON.stringify of a text and of an integer
  pub quote : String → String
  pub integer_text : ℤ → String
  -- crypto.createPublicKey; `none` where it throws
  pub create_public_key : String → Option PublicKey
  pub sha256 : List ℕ → List ℕ
  pub ripemd160 : List ℕ → List ℕ
  -- the sha-256 of a text's UTF-8, in lower-case hexadecimal
  pub sha256_hex : String → String
  -- crypto.verify over a message, a key and a signature in hexadecimal; false where it throws
  pub verify : String → String → String → Bool

abbrev pub base58_alphabet : String
base58_alphabet = "123456789ABCDEFGHJKLMNPQRSTUVWXYZabcdefghijkmnopqrstuvwxyz"

-- The text of a list of digits: `BASE58_ALPHABET[remainder]` for each.
unfoldable pub base58_text : List ℕ → String
base58_text [] = ""
base58_text (d ∷ ds) = join (slice base58_alphabet d (d + 1)) (base58_text ds)

module _ (run : Runtime) where
  open run use {create_public_key, sha256, ripemd160}

  unfoldable pub address_of_key : PublicKey → Option String
  address_of_key key =
      if key.is_secp256k1
      then some (base58_text (base58_encode (ripemd160 (sha256 (4 ∷ key.x ++ key.y)))))
      else none

  -- `none` is the error AUTHORIZATION_PUBLIC_KEY_INVALID.
  unfoldable pub address_from_public_key : String → Option String
  unfolding address_of_key
  address_from_public_key pem = elim (create_public_key pem) [
    | none ↦ none
    | some key ↦ address_of_key key
  ]
