-- ===== src/Client/Wallet.antt =====
-- frontend/src/helpers/storage.js: the wallet that localStorage keeps, its private key encrypted
-- under a password, and its backups. An operation that writes gives the text that it stores.
use vorliq.Common.{
  ℕ, String, Bool, false, not, ◌&&◌, ◌||◌, Option, none, some, List, str_eq, if◌then◌else◌,
}
use vorliq.Common.Int.{ℤ, pos, leb_ℤ}
use vorliq.Common.Text.{trim}
use vorliq.Json.Defs.{Json, str, num, arr, obj, Fields, end, field, lookup}
use vorliq.Json.Truth.{is_truthy}
use vorliq.Json.Stringify.{stringify}
use vorliq.Client.Browser.{
  Browser, Outcome, done, thrown, ◌>>=◌, or_throw, require, no_saved_wallet, wallet_unreadable,
  wallet_incomplete, not_base64, not_an_object, field_missing, unsupported_encryption,
  unsupported_kdf, unsafe_iterations, password_required, not_decrypted, not_json,
}

pub record LocalWallet : Type 0 where
  pub address : String
  pub public_key : String
  pub private_key : String

-- A wallet as a page passes it; the fields that it has are texts.
pub record GivenWallet : Type 0 where
  pub address : Option String
  pub public_key : Option String
  pub public_key_alias : Option String
  pub private_key : Option String
  pub private_key_alias : Option String

-- A text that is not empty, where `a || b` gives one.
abbrev pub filled : Option String → Option String
filled none = none
filled (some s) = if str_eq s "" then none else some s

abbrev pub text_or : Option String → Option String → Option String
text_or (some s) other = if str_eq s "" then filled other else some s
text_or none other = filled other

unfoldable pub normalize_wallet : GivenWallet → Outcome LocalWallet
normalize_wallet wallet = do
  address ← or_throw (filled wallet.address) wallet_incomplete
  public_key ← or_throw (text_or wallet.public_key wallet.public_key_alias) wallet_incomplete
  private_key ← or_throw (text_or wallet.private_key wallet.private_key_alias) wallet_incomplete
  done (record { address = address; public_key = public_key; private_key = private_key })

abbrev pub backup_version : ℤ
backup_version = pos 1

abbrev pub pbkdf2_iterations : ℤ
pbkdf2_iterations = pos 250000

unfoldable pub derive_encryption_key : Browser → String → List ℕ → ℤ → Outcome (List ℕ)
derive_encryption_key browser password salt iterations =
    if str_eq password ""
    then thrown password_required
    else done (browser.derive_key password salt iterations)

-- The encrypted wallet; `now` is the text of the time.
unfoldable pub stored_wallet : Browser → LocalWallet → List ℕ → String → Fields
stored_wallet browser wallet encrypted now =
    field "version" (num (browser.integer_text backup_version)) (
      field "address" (str wallet.address) (
        field "public_key" (str wallet.public_key) (
          field "encrypted_private_key" (str (browser.btoa encrypted)) (
            field "salt" (str (browser.btoa (browser.random_bytes 16))) (
              field "iv" (str (browser.btoa (browser.random_bytes 12))) (
                field "kdf" (str "PBKDF2") (
                  field "encryption" (str "AES-GCM") (
                    field "encryption_method" (str "PBKDF2-SHA256-AES-GCM") (
                      field "iterations" (num (browser.integer_text pbkdf2_iterations))
                        (field "created_at" (str now) end))))))))))

unfoldable pub create_encrypted_wallet_backup :
    Browser → GivenWallet → String → String → Outcome Fields
unfolding normalize_wallet derive_encryption_key stored_wallet
create_encrypted_wallet_backup browser given password now = do
  wallet ← normalize_wallet given
  key ← derive_encryption_key browser password (browser.random_bytes 16) pbkdf2_iterations
  done (
      stored_wallet browser wallet
        (browser.encrypt key (browser.random_bytes 12) (browser.utf8 wallet.private_key)) now)

unfoldable pub save_wallet : Browser → GivenWallet → String → String → Outcome String
unfolding create_encrypted_wallet_backup
save_wallet browser given password now = do
  stored ← create_encrypted_wallet_backup browser given password now
  done (stringify browser.quote (obj stored))

-- typeof value === "string" && value.trim()
abbrev pub is_filled : Option Json → Bool
is_filled (some (str s)) = not (str_eq (trim s) "")
is_filled v = false

abbrev pub json_text : Option Json → String
json_text (some (str s)) = s
json_text v = ""

unfoldable pub text_at : Fields → String → String
text_at fs name = json_text (lookup name fs)

-- (value || expected) === expected
abbrev pub is_or_absent : String → Option Json → Bool
is_or_absent expected v = not (is_truthy v) || str_eq (json_text v) expected

-- Number(value || PBKDF2_ITERATIONS), where it is an integer
abbrev pub iterations_of : Browser → Option Json → Option ℤ
iterations_of browser none = some pbkdf2_iterations
iterations_of browser (some v) =
    if is_truthy (some v) then browser.to_integer v else some pbkdf2_iterations

abbrev pub fields_of : Json → Outcome Fields
fields_of (obj fs) = done fs
fields_of (arr vs) = thrown field_missing
fields_of v = thrown not_an_object

-- The settings of the encryption, read by `validateStoredWallet` and again for the key.
pub record Sealed : Type 0 where
  pub salt : List ℕ
  pub iv : List ℕ
  pub encrypted : List ℕ
  pub iterations : ℤ

unfoldable pub validate_fields : Browser → Fields → Outcome Sealed
unfolding text_at
validate_fields browser fs = do
  filled ←
      require
        (is_filled (lookup "address" fs)
          && is_filled (lookup "public_key" fs)
          && is_filled (lookup "encrypted_private_key" fs)
          && is_filled (lookup "salt" fs)
          && is_filled (lookup "iv" fs))
        field_missing
  method ← require (is_or_absent "AES-GCM" (lookup "encryption" fs)) unsupported_encryption
  kdf ← require (is_or_absent "PBKDF2" (lookup "kdf" fs)) unsupported_kdf
  iterations ← or_throw (iterations_of browser (lookup "iterations" fs)) unsafe_iterations
  safe ← require (leb_ℤ (pos 100000) iterations) unsafe_iterations
  salt ← or_throw (browser.atob (text_at fs "salt")) not_base64
  iv ← or_throw (browser.atob (text_at fs "iv")) not_base64
  encrypted ← or_throw (browser.atob (text_at fs "encrypted_private_key")) not_base64
  done (record { salt = salt; iv = iv; encrypted = encrypted; iterations = iterations })

unfoldable pub decrypt_stored_wallet : Browser → Fields → String → Outcome String
unfolding validate_fields derive_encryption_key
decrypt_stored_wallet browser fs password = do
  settings ← validate_fields browser fs
  key ← derive_encryption_key browser password settings.salt settings.iterations
  bytes ← or_throw (browser.decrypt key settings.iv settings.encrypted) not_decrypted
  done (browser.utf8_text bytes)

unfoldable pub open_wallet : Browser → Json → String → Outcome LocalWallet
unfolding decrypt_stored_wallet text_at
open_wallet browser v password = do
  fs ← fields_of v
  private_key ← decrypt_stored_wallet browser fs password
  done (record {
    address = text_at fs "address";
    public_key = text_at fs "public_key";
    private_key = private_key;
  })

-- The `catch` of `loadWallet`.
abbrev pub unreadable : Outcome LocalWallet → Outcome LocalWallet
unreadable (done wallet) = done wallet
unreadable (thrown e) = thrown wallet_unreadable

abbrev pub saved_text : Option String → Outcome String
saved_text none = thrown no_saved_wallet
saved_text (some text) = if str_eq text "" then thrown no_saved_wallet else done text

-- `loadWallet`, over what localStorage holds.
unfoldable pub load_wallet : Browser → Option String → String → Outcome LocalWallet
unfolding open_wallet
load_wallet browser stored password = do
  text ← saved_text stored
  unreadable (or_throw (browser.parse_json text) not_json >>= λ v. open_wallet browser v password)
