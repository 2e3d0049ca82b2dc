-- ===== src/JsonStore/Disk.antt =====
-- `atomicWriteJson` and `safeReadJson`: what they do to the files of one store, act by act. A write that
-- crashes has done some acts, and may have done the next one in part.
use Prim.Native.String.{◌++◌ as join}
use vorliq.Common.{ℕ, zero, suc, String, Bool, true, false, Option, none, some, List, [], ◌∷◌, ◌++◌}

-- The content of the file, of its backup, of the temporary file, and of the corrupt files put aside.
pub record Disk : Type 0 where
  pub main : Option String
  pub backup : Option String
  pub temp : Option String
  pub aside : List String

pub data Act : Type 0 where
  copy_backup : Act
  open_temp : Act
  fill_temp : String → Act
  rename_temp : Act
  set_aside : Act

abbrev pub put_aside : Option String → List String → List String
put_aside none files = files
put_aside (some s) files = s ∷ files

unfoldable pub act : Act → Disk → Disk
act copy_backup d = record { main = d.main; backup = d.main; temp = d.temp; aside = d.aside }
act open_temp d = record { main = d.main; backup = d.backup; temp = some ""; aside = d.aside }
act (fill_temp s) d = record { main = d.main; backup = d.backup; temp = some s; aside = d.aside }
act rename_temp d = record { main = d.temp; backup = d.backup; temp = none; aside = d.aside }
act set_aside d = record {
  main = none;
  backup = d.backup;
  temp = d.temp;
  aside = put_aside d.main d.aside;
}

unfoldable pub perform : List Act → Disk → Disk
perform [] d = d
perform (a ∷ acts) d = perform acts (act a d)

-- What a crash within an act leaves: a copy and a writing can leave any text, a rename is whole or not done.
unfoldable pub tear : Act → String → Disk → Disk
tear copy_backup torn d = record {
  main = d.main;
  backup = some torn;
  temp = d.temp;
  aside = d.aside;
}
tear (fill_temp s) torn d = record {
  main = d.main;
  backup = d.backup;
  temp = some torn;
  aside = d.aside;
}
tear a torn d = d

-- A crash within the act that follows n acts.
unfoldable pub crash : ℕ → String → List Act → Disk → Disk
crash n torn [] d = d
crash zero torn (a ∷ acts) d = tear a torn d
crash (suc n) torn (a ∷ acts) d = crash n torn acts (act a d)

abbrev pub exists : Option String → Bool
exists none = false
exists (some s) = true

-- The acts that replace the file by a text.
abbrev pub replace_acts : String → List Act
replace_acts text = open_temp ∷ fill_temp text ∷ rename_temp ∷ []

abbrev pub backup_acts : Bool → Option String → List Act
backup_acts true (some s) = copy_backup ∷ []
backup_acts _ _ = []

-- JSON.parse and JSON.stringify(value, null, 2)
module _ {V : Type 0} (parse : String → Option V) (to_text : V → String) where
  -- `atomicWriteJson` with its option `createBackup`
  unfoldable pub write_acts : Bool → V → Disk → List Act
  write_acts create_backup value d =
      backup_acts create_backup d.main ++ replace_acts (join (to_text value) "\n")

  unfoldable pub write : Bool → V → Disk → Disk
  write create_backup value d = perform (write_acts create_backup value d) d

  -- The result of a read, with the acts that come with it.
  abbrev pub restored : V → Option V → V × List Act
  restored fallback none = (fallback, [])
  restored fallback (some v) = (v, set_aside ∷ replace_acts (join (to_text v) "\n"))

  abbrev pub from_backup : V → Option String → V × List Act
  from_backup fallback none = (fallback, [])
  from_backup fallback (some text) = restored fallback (parse text)

  abbrev pub parsed_or : V → Option String → Option V → V × List Act
  parsed_or fallback backup none = from_backup fallback backup
  parsed_or fallback backup (some v) = (v, [])

  abbrev pub from_main : V → Disk → Option String → V × List Act
  from_main fallback d none = (fallback, write_acts true fallback d)
  from_main fallback d (some text) = parsed_or fallback d.backup (parse text)

  unfoldable pub read_acts : V → Disk → V × List Act
  read_acts fallback d = from_main fallback d d.main

  -- `safeReadJson`, where a corrupt file can be moved
  unfoldable pub safe_read : V → Disk → V × Disk
  safe_read fallback d = let (value, acts) = read_acts fallback d in (value, perform acts d)
