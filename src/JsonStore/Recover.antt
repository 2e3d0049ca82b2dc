-- ===== src/JsonStore/Recover.antt =====
-- Reading a file whose text is corrupt.
use Prim.Native.String.{◌++◌ as join}
use vorliq.Common.{
  ℕ, zero, suc, String, true, ◌≡◌, refl, Option, none, some, ◌∷◌, ◌++◌, arith, ◌==◌, leb, ◌||◌,
  if◌then◌else◌,
}
use vorliq.JsonStore.Disk.{
  Disk, act, perform, tear, crash, replace_acts, backup_acts, write_acts, write, read_acts,
  safe_read,
}
use vorliq.JsonStore.Crash.{Holds}

-- The same files, with another text in the main one.
abbrev pub with_main : String → Disk → Disk
with_main s d = record { main = some s; backup = d.backup; temp = d.temp; aside = d.aside }

module _ {V : Type 0} (parse : String → Option V) (to_text : V → String) where
  written-backup :
      (s text : String) (d : Disk)
      → d.main ≡ some s
      → (perform (backup_acts true d.main ++ replace_acts text) d).backup ≡ some s
  unfolding perform act
  written-backup s text d h = rw h refl

  -- If the file that held a value is written, and its text is then replaced by one that cannot be parsed,
  -- the next read gives the value from before the writing, puts the corrupt text aside, leaves the backup,
  -- and the file then holds that value, if a text that was written is parsed as its value.
  pub safe_read-with_main :
      ((v : V) → parse (join (to_text v) "\n") ≡ some v)
      → (d : Disk) (u v fallback : V) (corrupt : String) → Holds parse to_text d u
      → parse corrupt ≡ none
      → (let after =
            safe_read parse to_text fallback (with_main corrupt (write parse to_text true v d)) in
          (after.0 ≡ u)
          × ((after.1.aside ≡ corrupt ∷ d.aside)
              × ((after.1.backup ≡ d.main) × Holds parse to_text after.1 u)))
  unfolding safe_read read_acts write write_acts perform act
  safe_read-with_main round d u v fallback corrupt h bad =
      rw (h.there, bad, h.parsed)
        (refl, (refl, (refl, record { content = _; there = refl; parsed = round u })))

  -- A read that finds a corrupt text and a backup that holds a value, and crashes: the next read gives that
  -- value if the corrupt text was not yet put aside or the file was already replaced, and else it gives its
  -- fallback, since it takes the file for one that was never written.
  pub crash-safe_read :
      ((v : V) → parse (join (to_text v) "\n") ≡ some v)
      → (d : Disk) (u : V) (corrupt good : String) (first next : V) (n : ℕ) (torn : String)
      → d.main ≡ some corrupt
      → parse corrupt ≡ none
      → d.backup ≡ some good
      → parse good ≡ some u
      → (safe_read parse to_text next (crash n torn (read_acts parse to_text first d).1 d)).0
        ≡ (if n == 0 || leb 4 n then u else next)
  unfolding safe_read read_acts perform act crash tear
  crash-safe_read round d u corrupt good first next zero torn there bad kept parsed =
      rw (there, bad, kept, parsed) (rw (bad, parsed) refl)
  crash-safe_read round d u corrupt good first next (suc zero) torn there bad kept parsed =
      rw (there, bad, kept, parsed) refl
  crash-safe_read round d u corrupt good first next (suc (suc zero)) torn there bad kept parsed =
      rw (there, bad, kept, parsed) refl
  crash-safe_read round d u corrupt good first next (suc (suc (suc zero))) torn there bad kept
        parsed =
      rw (there, bad, kept, parsed) refl
  crash-safe_read round d u corrupt good first next (suc (suc (suc (suc n)))) torn there bad kept
        parsed =
      rw (there, bad, kept, parsed, round u) (ground arith)
