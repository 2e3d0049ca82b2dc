-- ===== src/Client/Backup.antt =====
-- frontend/src/helpers/storage.js: encrypted backups of the saved wallet. A backup is taken to
-- localStorage as the text of its JSON.
use vorliq.Common.{String, Bool, false, not, Option, none, some, str_eq, if◌then◌else◌}
use vorliq.Common.Text.{trim}
use vorliq.Json.Defs.{Json, null, str, num, obj, Fields, end, field, lookup}
use vorliq.Json.Truth.{is_truthy}
use vorliq.Json.Stringify.{stringify}
use vorliq.Client.Browser.{Browser, Outcome, done, thrown, ◌>>=◌, or_throw, not_json}
use vorliq.Client.Wallet.{
  backup_version, pbkdf2_iterations, saved_text, fields_of, text_at, validate_fields,
  decrypt_stored_wallet,
}

-- `getStoredEncryptedWallet`
unfoldable pub get_stored_encrypted_wallet : Browser → Option String → Outcome Fields
unfolding validate_fields
get_stored_encrypted_wallet browser stored = do
  text ← saved_text stored
  v ← or_throw (browser.parse_json text) not_json
  fs ← fields_of v
  valid ← validate_fields browser fs
  done fs

-- value || other, and a value that may be undefined, which JSON.stringify leaves out
abbrev pub or_json : Option Json → Json → Json
or_json none other = other
or_json (some v) other = if is_truthy (some v) then v else other

unfoldable pub value_or_null : Fields → String → Json
value_or_null fs name = elim (lookup name fs) [ none ↦ null | some v ↦ v ]

-- The settings that the two kinds of copy share, from the version to the iterations.
unfoldable pub copied : Browser → Fields → String → Fields → Fields
unfolding text_at
copied browser fs address rest =
    field "version"
      (browser.number_json
        (or_json (lookup "version" fs) (num (browser.integer_text backup_version))))
      (field "address" (str address) (
        field "public_key" (str (text_at fs "public_key")) (
          field "encrypted_private_key" (str (text_at fs "encrypted_private_key")) (
            field "salt" (str (text_at fs "salt")) (
              field "iv" (str (text_at fs "iv")) (
                field "kdf" (or_json (lookup "kdf" fs) (str "PBKDF2")) (
                  field "encryption" (or_json (lookup "encryption" fs) (str "AES-GCM")) (
                    field "encryption_method"
                      (or_json (lookup "encryption_method" fs) (str "PBKDF2-SHA256-AES-GCM"))
                      (field "iterations"
                        (browser.number_json (
                          or_json (lookup "iterations" fs)
                            (num (browser.integer_text pbkdf2_iterations))))
                        rest)))))))))

-- `exportEncryptedWalletBackup`, at a time.
unfoldable pub export_encrypted_wallet_backup :
    Browser → Option String → String → String → Outcome Fields
unfolding get_stored_encrypted_wallet decrypt_stored_wallet copied text_at
export_encrypted_wallet_backup browser stored password now = do
  fs ← get_stored_encrypted_wallet browser stored
  key ← decrypt_stored_wallet browser fs password
  done (
      copied browser fs (text_at fs "address") (
        field "created_at" (or_json (lookup "created_at" fs) null)
          (field "exported_at" (str now) end)))

-- `importEncryptedWalletBackup`: the text that it stores.
unfoldable pub import_encrypted_wallet_backup : Browser → Json → String → String → Outcome String
unfolding validate_fields decrypt_stored_wallet copied text_at
import_encrypted_wallet_backup browser backup password now = do
  fs ← fields_of backup
  valid ← validate_fields browser fs
  key ← decrypt_stored_wallet browser fs password
  done (
      stringify browser.quote (
        obj (
          copied browser fs (trim (text_at fs "address")) (
            field "created_at" (or_json (lookup "created_at" fs) (str now))
              (field "imported_at" (str now) end)))))

-- `persistEncryptedWallet`
unfoldable pub persist_encrypted_wallet : Browser → Json → Outcome String
unfolding validate_fields
persist_encrypted_wallet browser stored = do
  fs ← fields_of stored
  valid ← validate_fields browser fs
  done (stringify browser.quote (obj fs))

abbrev or_none : Outcome (String × String) → Option (String × String)
or_none (done info) = some info
or_none (thrown e) = none

-- `loadStoredWalletPublicInfo`: the address and the public key.
unfoldable pub load_stored_wallet_public_info : Browser → Option String → Option (String × String)
unfolding get_stored_encrypted_wallet text_at
load_stored_wallet_public_info browser stored = or_none do
  fs ← get_stored_encrypted_wallet browser stored
  done (text_at fs "address", text_at fs "public_key")

-- The two entries of localStorage.
pub record LocalStorage : Type 0 where
  pub wallet : Option String
  pub last_backup : Option String

-- What each operation leaves there: the text that it stores, the time of a backup, nothing.
abbrev pub stored_by : LocalStorage → Outcome String → LocalStorage
stored_by storage (done text) = record { wallet = some text; last_backup = storage.last_backup }
stored_by storage (thrown e) = storage

abbrev pub exported_by : LocalStorage → String → Outcome Fields → LocalStorage
exported_by storage now (done backup) = record { wallet = storage.wallet; last_backup = some now }
exported_by storage now (thrown e) = storage

abbrev pub clear_wallet : LocalStorage → LocalStorage
clear_wallet storage = record { wallet = none; last_backup = none }

abbrev pub has_wallet : LocalStorage → Bool
has_wallet storage = elim storage.wallet [ none ↦ false | some text ↦ not (str_eq text "") ]
