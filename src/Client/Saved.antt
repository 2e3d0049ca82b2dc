-- ===== src/Client/Saved.antt =====
-- A saved wallet that is loaded, and one that is exported, imported and loaded.
use vorliq.Common.{
  ℕ, suc, ◌<◌, String, false, ◌≡◌, refl, some, List, [], ◌∷◌, str_eq, arith, All, length,
}
use vorliq.Common.Text.{trim}
use vorliq.Json.Defs.{str, num, obj, Fields, field, lookup}
use vorliq.Json.Stringify.{stringify}
use vorliq.Client.Browser.{Browser, done}
use vorliq.Client.Wallet.{
  LocalWallet, backup_version, pbkdf2_iterations, derive_encryption_key, text_at, validate_fields,
  decrypt_stored_wallet, open_wallet, load_wallet, Sealed,
}
use vorliq.Client.Backup.{copied}

module _ (browser : Browser) where
  open browser use {
    integer_text, parse_json, quote, btoa, atob, decrypt, encrypt, random_bytes, to_integer,
    number_json,
  }

  -- JSON.parse gives back the object whose text is stored.
  abbrev pub ReadsBack : Fields → Type 0
  ReadsBack fs = parse_json (stringify quote (obj fs)) ≡ some (obj fs)

  abbrev pub IsByteList : List ℕ → Type 0
  IsByteList bytes = All (λ byte. byte < 256) bytes

  -- What the browser's codecs and ciphers promise.
  pub record IsVault : Type 0 where
    pub printed : (fs : Fields) → str_eq (stringify quote (obj fs)) "" ≡ false
    pub iterations : to_integer (num (integer_text pbkdf2_iterations)) ≡ some pbkdf2_iterations
    pub iterations_text : str_eq (integer_text pbkdf2_iterations) "0" ≡ false
    pub version_text : str_eq (integer_text backup_version) "0" ≡ false
    pub number : (text : String) → number_json (num text) ≡ num text
    pub decoded : (bytes : List ℕ) → IsByteList bytes → atob (btoa bytes) ≡ some bytes
    pub encoded :
        (byte : ℕ) (bytes : List ℕ)
        → IsByteList (byte ∷ bytes)
        → str_eq (trim (btoa (byte ∷ bytes))) "" ≡ false
    pub random : (n : ℕ) → IsByteList (random_bytes n) × (length (random_bytes n) ≡ n)
    pub text_bytes : (s : String) → IsByteList (browser.utf8 s)
    pub opened :
        (key iv bytes : List ℕ)
        → IsByteList bytes
        → decrypt key iv (encrypt key iv bytes) ≡ some bytes
    pub cipher :
        (key iv bytes : List ℕ)
        → IsByteList bytes
        → IsByteList (encrypt key iv bytes)
          × (tag : ℕ) × (more : List ℕ) × (encrypt key iv bytes ≡ tag ∷ more)

  -- A wallet's entry: the settings that a copy keeps, with what follows them.
  abbrev pub backup_fields : String → String → List ℕ → Fields → Fields
  backup_fields address public_key encrypted rest =
      field "version" (num (integer_text backup_version)) (
        field "address" (str address) (
          field "public_key" (str public_key) (
            field "encrypted_private_key" (str (btoa encrypted)) (
              field "salt" (str (btoa (random_bytes 16))) (
                field "iv" (str (btoa (random_bytes 12))) (
                  field "kdf" (str "PBKDF2") (
                    field "encryption" (str "AES-GCM") (
                      field "encryption_method" (str "PBKDF2-SHA256-AES-GCM")
                        (field "iterations" (num (integer_text pbkdf2_iterations)) rest)))))))))

  module _ (vault : IsVault) where
    bytes-filled :
        (bytes : List ℕ) (n : ℕ)
        → IsByteList bytes
        → length bytes ≡ suc n
        → str_eq (trim (btoa bytes)) "" ≡ false
    bytes-filled [] n h e = absurd (omega (arith, e))
    bytes-filled (byte ∷ bytes) n h e = vault.encoded byte bytes h

    pub copied-backup :
        (address public_key : String) (encrypted : List ℕ) (rest : Fields) (other : String)
        (more : Fields)
        → copied browser (backup_fields address public_key encrypted rest) other more
          ≡ backup_fields other public_key encrypted more
    unfolding copied text_at lookup
    copied-backup address public_key encrypted rest other more =
        rw
          (
            vault.version_text,
            vault.iterations_text,
            vault.number (integer_text backup_version),
            vault.number (integer_text pbkdf2_iterations),
          )
          refl

    pub settings : List ℕ → Sealed
    settings encrypted = record {
      salt = random_bytes 16;
      iv = random_bytes 12;
      encrypted = encrypted;
      iterations = pbkdf2_iterations;
    }

    validate-backup :
        (address public_key : String) (encrypted : List ℕ) (rest : Fields)
        → str_eq (trim address) "" ≡ false
        → str_eq (trim public_key) "" ≡ false
        → IsByteList encrypted
        → str_eq (trim (btoa encrypted)) "" ≡ false
        → validate_fields browser (backup_fields address public_key encrypted rest)
          ≡ done (settings encrypted)
    unfolding validate_fields text_at lookup settings
    validate-backup address public_key encrypted rest named keyed bytes filled =
        let (salt, n) = vault.random 16 in
        let (iv, m) = vault.random 12 in
        rw
          (
            named,
            keyed,
            filled,
            bytes-filled (random_bytes 16) 15 salt n,
            bytes-filled (random_bytes 12) 11 iv m,
            vault.iterations_text,
            vault.iterations,
            vault.decoded (random_bytes 16) salt,
            vault.decoded (random_bytes 12) iv,
            vault.decoded encrypted bytes,
          )
          refl

    abbrev pub derived_key : String → List ℕ
    derived_key password = browser.derive_key password (random_bytes 16) pbkdf2_iterations

    abbrev pub sealed_key : String → String → List ℕ
    sealed_key password secret =
        encrypt (derived_key password) (random_bytes 12) (browser.utf8 secret)

    -- A loadable wallet under a password.
    pub record IsKept (wallet : LocalWallet) (password : String) : Type 0 where
      pub named : str_eq (trim wallet.address) "" ≡ false
      pub keyed : str_eq (trim wallet.public_key) "" ≡ false
      pub given : str_eq password "" ≡ false
      pub read : browser.utf8_text (browser.utf8 wallet.private_key) ≡ wallet.private_key

    abbrev pub entry_of : LocalWallet → String → Fields → Fields
    entry_of wallet password rest =
        backup_fields wallet.address wallet.public_key (sealed_key password wallet.private_key) rest

    module _ (wallet : LocalWallet) (password : String) (kept : IsKept wallet password)
        (rest : Fields) where
      pub validate-entry :
          validate_fields browser (entry_of wallet password rest)
          ≡ done (settings (sealed_key password wallet.private_key))
      validate-entry =
          let (bytes, tag, more, e) =
            vault.cipher (derived_key password) (random_bytes 12) (browser.utf8 wallet.private_key)
              (vault.text_bytes wallet.private_key) in
          let filled : str_eq (trim (btoa (sealed_key password wallet.private_key))) "" ≡ false =
            rw e (vault.encoded tag more (rw e at bytes)) in
          validate-backup wallet.address wallet.public_key (sealed_key password wallet.private_key)
            rest kept.named kept.keyed bytes filled

      pub decrypt-entry :
          decrypt_stored_wallet browser (entry_of wallet password rest) password
          ≡ done wallet.private_key
      unfolding decrypt_stored_wallet derive_encryption_key settings
      decrypt-entry =
          rw
            (
              validate-entry,
              kept.given,
              vault.opened (derived_key password) (random_bytes 12)
                  (browser.utf8 wallet.private_key) (vault.text_bytes wallet.private_key),
              kept.read,
            )
            refl

      open-entry : open_wallet browser (obj (entry_of wallet password rest)) password ≡ done wallet
      unfolding open_wallet text_at lookup
      open-entry = rw decrypt-entry refl

      pub load-entry :
          ReadsBack (entry_of wallet password rest)
          → load_wallet browser
              (some (stringify quote (obj (entry_of wallet password rest))))
              password
            ≡ done wallet
      unfolding load_wallet
      load-entry plain = rw (vault.printed (entry_of wallet password rest), plain, open-entry) refl
