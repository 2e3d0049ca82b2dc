-- ===== src/JsonStore/Health.antt =====
-- `fileHealth` and `backendStorageHealth`.
use vorliq.Common.{
  ℕ, ◌+◌, String, Bool, true, false, ◌≡◌, refl, Option, none, some, List, [], ◌∷◌, arith, map,
  length, filter, any, not, ltb, if◌then◌else◌,
}
use vorliq.JsonStore.Disk.{Disk, exists}

pub data Status : Type 0 where
  ok : Status
  warning : Status
  error : Status

abbrev pub is_ok : Status → Bool
is_ok ok = true
is_ok s = false

abbrev pub is_warning : Status → Bool
is_warning warning = true
is_warning s = false

abbrev pub is_error : Status → Bool
is_error error = true
is_error s = false

-- Without the name of the file, its size and the time of its last change.
pub record FileHealth : Type 0 where
  pub file_exists : Bool
  pub valid_json : Bool
  pub has_backup : Bool
  pub status : Status

pub record StorageHealth : Type 0 where
  pub overall_status : Status
  pub critical_files_ok : ℕ
  pub warnings_count : ℕ
  pub errors_count : ℕ
  pub backup_available : Bool
  pub files : List FileHealth

module _ {V : Type 0} (parse : String → Option V) where
  abbrev pub health_parsed : Bool → Option V → FileHealth
  health_parsed backup none = record {
    file_exists = true;
    valid_json = false;
    has_backup = backup;
    status = warning;
  }
  health_parsed backup (some v) = record {
    file_exists = true;
    valid_json = true;
    has_backup = backup;
    status = ok;
  }

  abbrev pub health_of : Bool → Option String → FileHealth
  health_of backup none = record {
    file_exists = false;
    valid_json = false;
    has_backup = backup;
    status = ok;
  }
  health_of backup (some text) = health_parsed backup (parse text)

  unfoldable pub file_health : Disk → FileHealth
  file_health d = health_of (exists d.backup) d.main

  abbrev pub grade : ℕ → ℕ → Status
  grade errors warnings = if ltb 0 errors then error else if ltb 0 warnings then warning else ok

  unfoldable pub backend_storage_health : List Disk → StorageHealth
  backend_storage_health disks =
      let checked = map file_health disks in
      let errors = length (filter (λ h. is_error h.status) checked) in
      let warnings = length (filter (λ h. is_warning h.status) checked) in
      record {
        overall_status = grade errors warnings;
        critical_files_ok = length (filter (λ h. is_ok h.status) checked);
        warnings_count = warnings;
        errors_count = errors;
        backup_available = any (λ h. h.has_backup) checked;
        files = checked;
      }

  -- Whether the file is there and cannot be parsed.
  abbrev is_corrupt : Option String → Bool
  is_corrupt none = false
  is_corrupt (some text) = elim (parse text) [ none ↦ true | some v ↦ false ]

  is_warning-is_corrupt :
      (d : Disk)
      → (is_warning (file_health d).status ≡ is_corrupt d.main)
        × ((is_ok (file_health d).status ≡ not (is_corrupt d.main))
            × (is_error (file_health d).status ≡ false))
  unfolding file_health
  is_warning-is_corrupt d = (ground arith, (ground arith, ground arith))

  counts-is_corrupt :
      (disks : List Disk)
      → (length (filter (λ h. is_warning h.status) (map file_health disks))
          ≡ length (filter (λ d. is_corrupt d.main) disks))
        × ((length (filter (λ h. is_ok h.status) (map file_health disks))
                + length (filter (λ d. is_corrupt d.main) disks)
              ≡ length disks)
            × (length (filter (λ h. is_error h.status) (map file_health disks)) ≡ 0))
  counts-is_corrupt [] = (refl, (omega arith, refl))
  counts-is_corrupt (d ∷ disks) =
      let (a, (b, c)) = is_warning-is_corrupt d in
      let (i, (j, k)) = counts-is_corrupt disks in
      (ground (arith, a, i), (ground (arith, b, j), ground (arith, c, k)))

  -- The health of the files counts as warnings exactly the files that are there and cannot be parsed, as
  -- right all the others, and no errors; so it is a warning if there is a corrupt file, else right, and
  -- never an error.
  backend_storage_health-is_corrupt :
      (disks : List Disk)
      → (let h = backend_storage_health disks in
          let corrupt = length (filter (λ d. is_corrupt d.main) disks) in
          (h.warnings_count ≡ corrupt)
          × ((h.critical_files_ok + corrupt ≡ length disks)
              × ((h.errors_count ≡ 0)
                  × (h.overall_status ≡ (if ltb 0 corrupt then warning else ok)))))
  unfolding backend_storage_health
  backend_storage_health-is_corrupt disks =
      let (i, (j, k)) = counts-is_corrupt disks in (i, (j, (k, rw (i, k) (ground arith))))
