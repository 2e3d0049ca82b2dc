-- ===== src/Client/Sample.antt =====
-- Browsers with toy codecs: integers as strokes, bytes as runs of strokes, a cipher that puts a
-- tag in front.
use Prim.Native.Char.{code}
use Prim.Native.String.{◌++◌ as join}
use vorliq.Common.{
  ℕ, zero, suc, String, true, Option, none, some, List, [], ◌∷◌, ◌==◌, str_eq, if◌then◌else◌,
}
use vorliq.Common.Int.{ℤ, pos, negsuc, pos_part}
use vorliq.Json.Defs.{Json, num, str, obj, Fields, end, field}
use vorliq.Json.Stringify.{stringify}
use vorliq.Auth.Signed.Crypto.{Runtime, PublicKey}
use vorliq.Client.Browser.{Browser}
use vorliq.Client.Wallet.{LocalWallet, GivenWallet, pbkdf2_iterations}

abbrev pub strokes : ℕ → String → String
strokes zero s = s
strokes (suc n) s = String.◌∷◌ "i" (strokes n s)

abbrev pub stroke_text : ℤ → String
stroke_text (pos n) = strokes n ""
stroke_text (negsuc n) = String.◌∷◌ "-" (strokes n "")

abbrev pub count : String → ℕ
count String.[] = 0
count (String.◌∷◌ c s) = suc (count s)

abbrev pub stroke_number : String → ℤ
stroke_number String.[] = pos 0
stroke_number (String.◌∷◌ c s) = if code c == b'-' then negsuc (count s) else pos (suc (count s))

-- A byte is its strokes and a comma.
abbrev pub stroke_bytes : List ℕ → String
stroke_bytes [] = ""
stroke_bytes (n ∷ ns) = strokes n (String.◌∷◌ "," (stroke_bytes ns))

abbrev pub cons_byte : ℕ → Option (List ℕ) → Option (List ℕ)
cons_byte n none = none
cons_byte n (some ns) = some (n ∷ ns)

abbrev pub read_bytes : ℕ → String → Option (List ℕ)
read_bytes n String.[] = some []
read_bytes n (String.◌∷◌ c s) =
    let more = read_bytes (suc n) s in
    let rest = read_bytes 0 s in if code c == b',' then cons_byte n rest else more

abbrev pub zeros : ℕ → List ℕ
zeros zero = []
zeros (suc n) = 0 ∷ zeros n

abbrev pub repeat : ℕ → ℕ → List ℕ
repeat zero b = []
repeat (suc n) b = b ∷ repeat n b

abbrev pub quoted : String → String
quoted s = join "'" (join s "'")

abbrev untag : List ℕ → Option (List ℕ)
untag [] = none
untag (tag ∷ bytes) = some bytes

abbrev stroke_integer : Json → Option ℤ
stroke_integer (num t) = some (stroke_number t)
stroke_integer v = none

abbrev same_number : Json → Json
same_number v = v

-- What the wallet's entry holds, and a private key's bytes.
abbrev pub sample_stored : Fields
sample_stored = field "address" (str "2M1B") (
    field "public_key" (str "pem") (
      field "encrypted_private_key" (str "i,")
        (field "salt" (str "i,") (field "iv" (str "i,") end))))

abbrev pub sample_browser : Browser
sample_browser = record {
  quote = quoted;
  integer_text = stroke_text;
  parse_json = λ text. some (obj sample_stored);
  utf8 = λ s. [];
  utf8_text = λ bytes. "key";
  btoa = stroke_bytes;
  atob = λ text. some (4 ∷ 32 ∷ repeat 33 1);
  sha256 = λ bytes. repeat 32 170;
  derive_key = λ password salt n. [];
  encrypt = λ key iv bytes. 7 ∷ bytes;
  decrypt = λ key iv bytes. untag bytes;
  random_uuid = some "01234567-89ab-cdef";
  random_bytes = zeros;
  sign_digest = λ scalar digest. "ab";
  to_integer = stroke_integer;
  number_text = λ v. none;
  number_json = same_number;
}

abbrev pub sample_wallet : LocalWallet
sample_wallet = record { address = "2M1B"; public_key = "pem"; private_key = "key" }

abbrev sample_text : Json → String
sample_text (str s) = s
sample_text v = ""

abbrev sample_key : PublicKey
sample_key = record { is_secp256k1 = true; x = 1 ∷ []; y = 2 ∷ [] }

abbrev pub sample_gateway : Runtime
sample_gateway = record {
  to_text = sample_text;
  to_integer = stroke_integer;
  quote = quoted;
  integer_text = stroke_text;
  create_public_key = λ pem. some sample_key;
  sha256 = λ bytes. bytes;
  ripemd160 = λ bytes. bytes;
  sha256_hex = λ text. "aaaaaaaaaaaaaaaaaaaaaaaaaaaaaaaaaaaaaaaaaaaaaaaaaaaaaaaaaaaaaaaa";
  verify = λ message pem signature. str_eq signature "ab";
}

-- The entry of the sample wallet with what follows its settings.
abbrev pub sample_entry : Fields → Fields
sample_entry rest = field "version" (num "1") (
    field "address" (str "2M1B") (
      field "public_key" (str "pem") (
        field "encrypted_private_key" (str (stroke_bytes (7 ∷ []))) (
          field "salt" (str (stroke_bytes (zeros 16))) (
            field "iv" (str (stroke_bytes (zeros 12))) (
              field "kdf" (str "PBKDF2") (
                field "encryption" (str "AES-GCM") (
                  field "encryption_method" (str "PBKDF2-SHA256-AES-GCM")
                    (field "iterations" (num "250000") rest)))))))))

abbrev pub saved_entry : Fields
saved_entry = sample_entry (field "created_at" (str "monday") end)

abbrev pub restored_entry : Fields
restored_entry =
    sample_entry (field "created_at" (str "monday") (field "imported_at" (str "friday") end))

-- A browser that parses the two texts that are stored.
abbrev pub vault_browser : Browser
vault_browser = record {
  quote = quoted;
  integer_text = λ t. if pos_part t == 1 then "1" else "250000";
  parse_json = λ text.
      if str_eq text (stringify quoted (obj saved_entry))
      then some (obj saved_entry)
      else some (obj restored_entry);
  utf8 = λ s. [];
  utf8_text = λ bytes. "key";
  btoa = stroke_bytes;
  atob = read_bytes 0;
  sha256 = λ bytes. bytes;
  derive_key = λ password salt n. [];
  encrypt = λ key iv bytes. 7 ∷ bytes;
  decrypt = λ key iv bytes. untag bytes;
  random_uuid = none;
  random_bytes = zeros;
  sign_digest = λ scalar digest. digest;
  to_integer = λ v. some pbkdf2_iterations;
  number_text = λ v. none;
  number_json = same_number;
}

abbrev pub given_wallet : GivenWallet
given_wallet = record {
  address = some "2M1B";
  public_key = some "";
  public_key_alias = some "pem";
  private_key = some "key";
  private_key_alias = none;
}
