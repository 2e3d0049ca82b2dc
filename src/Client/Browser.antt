-- ===== src/Client/Browser.antt =====
-- What the page's helpers use of the browser and of the elliptic library, as a parameter, and the
-- errors that they throw.
use Prim.Native.String.{slice, ◌++◌ as join}
use vorliq.Common.{ℕ, ◌+◌, ◌/◌, ◌%◌, String, Bool, true, false, Option, none, some, List, [], ◌∷◌}
use vorliq.Common.Int.{ℤ}
use vorliq.Json.Defs.{Json}

pub record Browser : Type 0 where
  -- JSON.stringify of a text and of an integer
  pub quote : String → String
  pub integer_text : ℤ → String
  -- JSON.parse; `none` where it throws
  pub parse_json : String → Option Json
  -- TextEncoder, TextDecoder
  pub utf8 : String → List ℕ
  pub utf8_text : List ℕ → String
  -- window.btoa of the bytes' characters, window.atob; `none` where it throws
  pub btoa : List ℕ → String
  pub atob : String → Option (List ℕ)
  -- crypto.subtle.digest("SHA-256", bytes)
  pub sha256 : List ℕ → List ℕ
  -- PBKDF2 with SHA-256 of a password, a salt and a number of iterations
  pub derive_key : String → List ℕ → ℤ → List ℕ
  -- AES-GCM under a key and an initialization vector; `none` where decryption throws
  pub encrypt : List ℕ → List ℕ → List ℕ → List ℕ
  pub decrypt : List ℕ → List ℕ → List ℕ → Option (List ℕ)
  -- crypto.randomUUID, where the browser has it, and the bytes of crypto.getRandomValues
  pub random_uuid : Option String
  pub random_bytes : ℕ → List ℕ
  -- keyFromPrivate(scalar, "hex").sign(digest, { canonical: true }).toDER("hex")
  pub sign_digest : String → String → String
  -- Number(value) where Number.isInteger holds of it
  pub to_integer : Json → Option ℤ
  -- Number(value), where it is finite: whether it is an integer, and its text
  pub number_text : Json → Option (Bool × String)
  -- Number(value), as JSON.stringify prints it
  pub number_json : Json → Json

-- The errors, by what their message says.
pub data Trouble : Type 0 where
  unsupported_action : Trouble
  password_missing : Trouble
  body_not_object : Trouble
  forbidden_field : Trouble
  no_saved_wallet : Trouble
  wallet_unreadable : Trouble
  invalid_number : Trouble
  pem_empty : Trouble
  not_base64 : Trouble
  private_key_unreadable : Trouble
  invalid_amount : Trouble
  wallet_incomplete : Trouble
  not_an_object : Trouble
  field_missing : Trouble
  unsupported_encryption : Trouble
  unsupported_kdf : Trouble
  unsafe_iterations : Trouble
  password_required : Trouble
  not_decrypted : Trouble
  not_json : Trouble

pub data Outcome (A : Type 0) : Type 0 where
  done : A → Outcome A
  thrown : Trouble → Outcome A

infixl 5 ◌>>=◌
abbrev pub ◌>>=◌ : {A B : Type 0} → Outcome A → (A → Outcome B) → Outcome B
done a >>= next = next a
thrown e >>= next = thrown e

abbrev pub or_throw : {A : Type 0} → Option A → Trouble → Outcome A
or_throw none e = thrown e
or_throw (some a) e = done a

-- `if (!test) throw …`
abbrev pub require : Bool → Trouble → Outcome (Unit {0})
require true e = done tt
require false e = thrown e

abbrev pub hex_digits : String
hex_digits = "0123456789abcdef"

unfoldable pub hex_digit : ℕ → String
hex_digit d = slice hex_digits d (d + 1)

-- `.map((byte) => byte.toString(16).padStart(2, "0")).join("")`, of bytes
unfoldable pub hex_text : List ℕ → String
unfolding hex_digit
hex_text [] = ""
hex_text (byte ∷ bytes) =
    join (hex_digit (byte / 16)) (join (hex_digit (byte % 16)) (hex_text bytes))
