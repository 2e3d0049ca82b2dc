-- ===== src/Client/VaultTests.antt =====
-- The saved wallet on toy codecs.
use vorliq.Common.{
  ℕ, zero, suc, ◌+◌, ◌<◌, String, true, false, ◌≡◌, refl, some, List, [], ◌∷◌, arith, ap, ◌∙◌, All,
  length, str_eq, eq_refl, eq_iff, Bool-cases, inl, inr,
}
use vorliq.Common.Text.{codes, all_codes, is_space, trim, trim_start, trim_end, drop_last_space}
use vorliq.Common.Trim.{not_space, trim_id, codes-join}
use vorliq.Json.Defs.{obj, Fields, end, field}
use vorliq.Json.Stringify.{stringify}
use vorliq.Client.Browser.{done}
use vorliq.Client.Wallet.{normalize_wallet, save_wallet, load_wallet}
use vorliq.Client.Backup.{export_encrypted_wallet_backup, import_encrypted_wallet_backup}
use vorliq.Client.Saved.{IsVault, IsKept, ReadsBack}
use vorliq.Client.Restored.{load-imported}
use vorliq.Client.Sample.{
  sample_wallet, vault_browser, given_wallet, strokes, stroke_bytes, read_bytes, cons_byte, zeros,
  quoted, saved_entry, restored_entry,
}

read_bytes-strokes :
    (m n : ℕ) (s : String)
    → read_bytes m (strokes n (String.◌∷◌ "," s)) ≡ cons_byte (m + n) (read_bytes 0 s)
read_bytes-strokes m zero s = ap (λ k. cons_byte k (read_bytes 0 s)) (omega arith)
read_bytes-strokes m (suc n) s =
    read_bytes-strokes (suc m) n s ∙ ap (λ k. cons_byte k (read_bytes 0 s)) (omega arith)

read_bytes-stroke_bytes : (bytes : List ℕ) → read_bytes 0 (stroke_bytes bytes) ≡ some bytes
read_bytes-stroke_bytes [] = refl
read_bytes-stroke_bytes (n ∷ ns) =
    read_bytes-strokes 0 n (stroke_bytes ns)
    ∙ (rw (read_bytes-stroke_bytes ns) (ap (λ k. some (k ∷ ns)) (omega arith)))

strokes-solid :
    (n : ℕ) (s : String)
    → all_codes not_space (codes s) ≡ true
    → all_codes not_space (codes (strokes n s)) ≡ true
unfolding all_codes is_space
strokes-solid zero s h = h
strokes-solid (suc n) s h = strokes-solid n s h

bytes-solid : (bytes : List ℕ) → all_codes not_space (codes (stroke_bytes bytes)) ≡ true
unfolding all_codes is_space
bytes-solid [] = refl
bytes-solid (n ∷ ns) = strokes-solid n (String.◌∷◌ "," (stroke_bytes ns)) (bytes-solid ns)

not_empty : (s : String) {c : ℕ} {cs : List ℕ} → codes s ≡ c ∷ cs → str_eq s "" ≡ false
not_empty s e = elim (Bool-cases (str_eq s "")) [
  | inl same ↦ absurd (cc (ap codes ((eq_iff s "").0 same), e))
  | inr other ↦ other
]

strokes-not_empty : (n : ℕ) (s : String) → str_eq (strokes n (String.◌∷◌ "," s)) "" ≡ false
strokes-not_empty zero s = not_empty (String.◌∷◌ "," s) refl
strokes-not_empty (suc n) s = not_empty (String.◌∷◌ "i" (strokes n (String.◌∷◌ "," s))) refl

zeros-bytes : (n : ℕ) → All (λ byte. byte < 256) (zeros n) × (length (zeros n) ≡ n)
zeros-bytes zero = (tt, refl)
zeros-bytes (suc n) = let (h, e) = zeros-bytes n in ((omega arith, h), ap suc e)

braces : (fs : Fields) → str_eq (stringify quoted (obj fs)) "" ≡ false
unfolding stringify
braces end = refl
braces (field k v fs) = not_empty (stringify quoted (obj (field k v fs))) (codes-join "{" _)

read_back :
    str_eq (stringify quoted (obj restored_entry)) (stringify quoted (obj saved_entry)) ≡ false
unfolding stringify
read_back = refl

vault : IsVault vault_browser
unfolding stringify
vault = record {
  printed = braces;
  iterations = refl;
  iterations_text = refl;
  version_text = refl;
  number = λ text. refl;
  decoded = λ bytes h. read_bytes-stroke_bytes bytes;
  encoded = λ b bytes h.
      rw (trim_id (stroke_bytes (b ∷ bytes)) (bytes-solid (b ∷ bytes)))
        (strokes-not_empty b (stroke_bytes bytes));
  random = zeros-bytes;
  text_bytes = λ s. tt;
  opened = λ key iv bytes h. refl;
  cipher = λ key iv bytes h. ((omega arith, h), 7, bytes, refl);
}

kept : IsKept vault_browser vault sample_wallet "secret"
unfolding trim trim_start trim_end is_space drop_last_space
kept = record { named = refl; keyed = refl; given = refl; read = refl }

normal : normalize_wallet given_wallet ≡ done sample_wallet
unfolding normalize_wallet
normal = refl

trimmed : trim "2M1B" ≡ "2M1B"
unfolding trim trim_start trim_end is_space drop_last_space
trimmed = refl

first_back : ReadsBack vault_browser saved_entry
first_back = rw (eq_refl (stringify quoted (obj saved_entry))) refl

second_back : ReadsBack vault_browser restored_entry
second_back = rw read_back refl

load-imported_example :
    (text : String) × (save_wallet vault_browser given_wallet "secret" "monday" ≡ done text)
    × (backup : Fields) × (export_encrypted_wallet_backup vault_browser
          (some text)
          "secret"
          "tuesday"
        ≡ done backup)
    × (stored : String) × (import_encrypted_wallet_backup vault_browser
          (obj backup)
          "secret"
          "friday"
        ≡ done stored)
    × (load_wallet vault_browser (some stored) "secret" ≡ done sample_wallet)
load-imported_example =
    load-imported vault_browser vault given_wallet sample_wallet "secret" "monday" "tuesday"
      "friday" normal kept trimmed first_back second_back
