-- ===== src/JsonStore/Tests.antt =====
-- Runs on files that hold a truth value, and on a lock that a dead process left.
use Prim.Native.String.{◌++◌ as join}
use vorliq.Common.{
  ℕ, ◌+◌, zero, suc, String, Bool, true, false, ◌≡◌, ◌⊎◌, refl, Option, none, some, List, [], ◌∷◌,
  str_eq, length, if◌then◌else◌, arith,
}
use vorliq.JsonStore.Disk.{Disk, write, read_acts, safe_read, crash, act, perform, tear, write_acts}
use vorliq.JsonStore.Crash.{
  Command, put, put_crashed, read, AllBecome, Holds, run, run_all, run_all-AllBecome,
}
use vorliq.JsonStore.Recover.{with_main, safe_read-with_main, crash-safe_read}
use vorliq.JsonStore.Lock.{
  LockFile, Stage, opening, holding, dead, World, Event, turn, happens, happen_all, move_to,
}
use vorliq.JsonStore.Lock.Exclusion.{is_owned, AllCalm, happen_all-is_inside}
use vorliq.JsonStore.Lock.Progress.{with_pid, turns_for, turns_for-holding}
use vorliq.JsonStore.Lock.Race.{both_break, both_break-holding}
use vorliq.JsonStore.Lock.Wait.{
  Attempt, busy, acquired, gave_up, acquire, Waits, count_stale, acquire-count_stale,
}

abbrev print : Bool → String
print true = "true"
print false = "false"

abbrev scan : String → Option Bool
scan s = if str_eq s "true\n" then some true else if str_eq s "false\n" then some false else none

abbrev round : (v : Bool) → scan (join (print v) "\n") ≡ some v
round true = refl
round false = refl

abbrev disk : Disk
disk = record { main = some "true\n"; backup = none; temp = none; aside = [] }

abbrev disk_holds : Holds scan print disk true
disk_holds = record { content = "true\n"; there = refl; parsed = refl }

abbrev commands : List (Command Bool)
commands = put false ∷ put_crashed true 2 "tr" ∷ read true ∷ []

torn_write : (run_all scan print commands disk).main ≡ some "false\n"
unfolding run_all run write write_acts perform crash act tear safe_read read_acts
torn_write = refl

run_all-AllBecome_example :
    (v : Bool) × (AllBecome commands true v
      × (Holds scan print (run_all scan print commands disk) v
          × ((fallback : Bool)
              → (safe_read scan print fallback (run_all scan print commands disk)).0 ≡ v)))
run_all-AllBecome_example = run_all-AllBecome scan print round commands disk true disk_holds

safe_read-with_main_example :
    (let after = safe_read scan print false (with_main "fal" (write scan print true false disk)) in
      (after.0 ≡ true)
      × ((after.1.aside ≡ "fal" ∷ [])
          × ((after.1.backup ≡ some "true\n") × Holds scan print after.1 true)))
safe_read-with_main_example =
    safe_read-with_main scan print round disk true false false "fal" disk_holds refl

abbrev corrupt : Disk
corrupt = record { main = some "fal"; backup = some "true\n"; temp = none; aside = [] }

crash-safe_read_example :
    (safe_read scan print false (crash 2 "" (read_acts scan print false corrupt).1 corrupt)).0
    ≡ false
crash-safe_read_example =
    crash-safe_read scan print round corrupt true "fal" "true\n" false false 2 "" refl refl refl
      refl

abbrev orphan : LockFile
orphan = record { owner = 9; written = true; mtime = 0 }

abbrev two_waiting : ℕ → Stage
two_waiting (suc (suc (suc p))) = dead
two_waiting p = opening 100

abbrev world : World
world = record { lock = some orphan; stage = two_waiting }

both_break-holding_example :
    ((happen_all world (both_break 1 2 100)).stage 1 ≡ holding)
    × ((happen_all world (both_break 1 2 100)).stage 2 ≡ holding)
both_break-holding_example = both_break-holding world 1 2 100 record {
  file = orphan;
  there = refl;
  has_pid = refl;
  is_dead = refl;
  first = refl;
  second = refl;
  two = λ h. ground arith;
}

-- A process finds the lock file of a dead one, removes it and gets the lock.
abbrev me : ℕ
me = 1

abbrev one_waiting : World
one_waiting = record { lock = some orphan; stage = move_to (λ p. dead) 1 (opening 100) }

abbrev steal : List Event
steal = turn 1 100 ∷ turn 1 100 ∷ turn 1 100 ∷ turn 1 100 ∷ turn 1 100 ∷ []

steal-AllCalm : AllCalm one_waiting steal
unfolding AllCalm happens
steal-AllCalm = (
  record { one_breaks = λ start a b q. ground arith; soon_written = λ file a b c. ground arith },
  (
    record { one_breaks = λ start a b q. ground arith; soon_written = λ file a b c. ground arith },
    (
      record {
        one_breaks = λ start a b q. ground arith;
        soon_written = λ file a b c. ground arith;
      },
      (
        record {
          one_breaks = λ start a b q. ground arith;
          soon_written = λ file a b c. ground arith;
        },
        (
          record {
            one_breaks = λ start a b q. ground arith;
            soon_written = λ file a b c. ground arith;
          },
          tt,
        ),
      ),
    ),
  ),
)

happen_all-is_inside_example : (me ≡ me) × (is_owned (happen_all one_waiting steal).lock me ≡ true)
unfolding happen_all happens
happen_all-is_inside_example =
    happen_all-is_inside one_waiting steal me me
      record { nobody_inside = λ p. ground arith; nobody_breaking = λ p. ground arith }
      steal-AllCalm refl refl

abbrev leave : List Event
leave = turns_for one_waiting.lock me 100

turns_for-holding_example :
    ((happen_all one_waiting leave).stage me ≡ holding)
    × (is_owned (happen_all one_waiting leave).lock me ≡ true)
turns_for-holding_example = turns_for-holding one_waiting me 100 100 refl (with_pid refl refl)

abbrev busy_from : ℕ → ℕ → List Attempt
busy_from zero now = []
busy_from (suc k) now = busy now ∷ busy_from k (now + 50)

busy_from-Waits : (k now : ℕ) → Waits now (busy_from k now)
unfolding Waits
busy_from-Waits zero now = tt
busy_from-Waits (suc k) now = (omega arith, busy_from-Waits k (now + 50))

busy_from-length :
    (k now : ℕ) → (length (busy_from k now) ≡ k) × (count_stale (busy_from k now) ≡ 0)
busy_from-length zero now = (refl, refl)
busy_from-length (suc k) now = let (a, b) = busy_from-length k (now + 50) in (omega (arith, a), b)

acquire-count_stale_example :
    (acquire 100 (busy_from 101 100) ≡ acquired) ⊎ (acquire 100 (busy_from 101 100) ≡ gave_up)
acquire-count_stale_example =
    acquire-count_stale 100 (busy_from 101 100) (busy_from-Waits 101 100)
      (omega (arith, (busy_from-length 101 100).0, (busy_from-length 101 100).1))
