-- ===== src/Client/Restored.antt =====
-- A wallet through localStorage, and through a backup to another browser's localStorage.
use vorliq.Common.{String, ◌≡◌, refl, some, ap}
use vorliq.Common.Text.{trim}
use vorliq.Json.Defs.{Json, null, str, obj, Fields, end, field, lookup}
use vorliq.Json.Stringify.{stringify}
use vorliq.Client.Browser.{Browser, done}
use vorliq.Client.Wallet.{
  LocalWallet, GivenWallet, normalize_wallet, stored_wallet, save_wallet, load_wallet, text_at,
  create_encrypted_wallet_backup, derive_encryption_key,
}
use vorliq.Client.Backup.{
  or_json, get_stored_encrypted_wallet, export_encrypted_wallet_backup,
  import_encrypted_wallet_backup,
}
use vorliq.Client.Saved.{
  ReadsBack, IsVault, IsKept, entry_of, copied-backup, validate-entry, decrypt-entry, load-entry,
}

abbrev created_at : String → Fields
created_at now = field "created_at" (str now) end

module _ (browser : Browser) (vault : IsVault browser) where
  save-entry :
      (given : GivenWallet) (wallet : LocalWallet) (password now : String)
      → normalize_wallet given ≡ done wallet
      → IsKept browser vault wallet password
      → save_wallet browser given password now
        ≡ done (
            stringify browser.quote (obj (entry_of browser vault wallet password (created_at now))))
  unfolding save_wallet create_encrypted_wallet_backup derive_encryption_key stored_wallet
  save-entry given wallet password now normal kept = rw (normal, kept.given) refl

  -- A wallet with an address and a public key that are not blank, saved under a password that is
  -- not empty, is stored, and the text that is stored loads under that password as the same
  -- wallet, where the private key decodes to its text and the text parses to what was stored.
  pub load-saved :
      (given : GivenWallet) (wallet : LocalWallet) (password now : String)
      → normalize_wallet given ≡ done wallet
      → IsKept browser vault wallet password
      → ReadsBack browser (entry_of browser vault wallet password (created_at now))
      → (text : String) × (save_wallet browser given password now ≡ done text)
        × (load_wallet browser (some text) password ≡ done wallet)
  load-saved given wallet password now normal kept parsed = (
    _,
    save-entry given wallet password now normal kept,
    load-entry browser vault wallet password kept (created_at now) parsed,
  )

  export-entry :
      (wallet : LocalWallet) (password rest_time now : String)
      → IsKept browser vault wallet password
      → ReadsBack browser (entry_of browser vault wallet password (created_at rest_time))
      → export_encrypted_wallet_backup browser
          (some (
            stringify browser.quote
              (obj (entry_of browser vault wallet password (created_at rest_time)))))
          password
          now
        ≡ done (
            entry_of browser vault wallet password (
              field "created_at"
                (or_json (some (str rest_time)) null)
                (field "exported_at" (str now) end)))
  unfolding export_encrypted_wallet_backup get_stored_encrypted_wallet text_at lookup
  export-entry wallet password time now kept parsed =
      let entry = entry_of browser vault wallet password (created_at time) in
      rw
        (
          vault.printed entry,
          parsed,
          validate-entry browser vault wallet password kept (created_at time),
          decrypt-entry browser vault wallet password kept (created_at time),
        )
        (ap done (
          copied-backup browser vault wallet.address wallet.public_key _ (created_at time)
            wallet.address _))

  import-entry :
      (wallet : LocalWallet) (password now : String) (v : Json) (rest : Fields)
      → IsKept browser vault wallet password
      → trim wallet.address ≡ wallet.address
      → import_encrypted_wallet_backup browser
          (obj (entry_of browser vault wallet password (field "created_at" v rest)))
          password
          now
        ≡ done (
            stringify browser.quote (
              obj (
                entry_of browser vault wallet password (
                  field "created_at"
                    (or_json (some v) (str now))
                    (field "imported_at" (str now) end)))))
  unfolding import_encrypted_wallet_backup text_at lookup
  import-entry wallet password now v rest kept trimmed =
      rw
        (
          decrypt-entry browser vault wallet password kept (field "created_at" v rest),
          validate-entry browser vault wallet password kept (field "created_at" v rest),
          trimmed,
        )
        (ap (λ fs. done (stringify browser.quote (obj fs)))
          (copied-backup browser vault wallet.address wallet.public_key _
            (field "created_at" v rest) wallet.address _))

  -- What an import stores of a wallet that was saved and exported.
  abbrev pub imported_entry : LocalWallet → String → String → String → Fields
  imported_entry wallet password saved imported = entry_of browser vault wallet password (
      field "created_at" (or_json (some (or_json (some (str saved)) null)) (str imported))
        (field "imported_at" (str imported) end))

  -- A wallet that is saved, exported under its password, and imported by a browser under that
  -- password loads there as the same wallet, where its address and public key are not blank, its
  -- address has no spaces around it, the password is not empty, the private key decodes to its
  -- text, and each stored text parses to what was stored.
  pub load-imported :
      (given : GivenWallet) (wallet : LocalWallet) (password saved exported imported : String)
      → normalize_wallet given ≡ done wallet
      → IsKept browser vault wallet password
      → trim wallet.address ≡ wallet.address
      → ReadsBack browser (entry_of browser vault wallet password (created_at saved))
      → ReadsBack browser (imported_entry wallet password saved imported)
      → (text : String) × (save_wallet browser given password saved ≡ done text)
        × (backup : Fields) × (export_encrypted_wallet_backup browser (some text) password exported
            ≡ done backup)
        × (stored : String) × (import_encrypted_wallet_backup browser (obj backup) password imported
            ≡ done stored)
        × (load_wallet browser (some stored) password ≡ done wallet)
  load-imported given wallet password saved exported imported normal kept trimmed first second = (
    _,
    save-entry given wallet password saved normal kept,
    _,
    export-entry wallet password saved exported kept first,
    _,
    import-entry wallet password imported (or_json (some (str saved)) null)
        (field "exported_at" (str exported) end) kept trimmed,
    load-entry browser vault wallet password kept
        (field "created_at" (or_json (some (or_json (some (str saved)) null)) (str imported))
          (field "imported_at" (str imported) end))
        second,
  )
