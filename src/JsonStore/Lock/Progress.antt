-- ===== src/JsonStore/Lock/Progress.antt =====
-- The turns of one process at a lock file that a dead process of backend/jsonStore.js left.
use vorliq.Common.{
  ℕ, ◌-◌, ◌<◌, true, false, ◌≡◌, refl, Option, none, some, List, [], ◌∷◌, arith, ◌==◌,
}
use vorliq.JsonStore.Lock.{
  LockFile, Stage, opening, judging, holding, dead, World, grace_ms, Event, turn, happens,
  happen_all, move_to, lock_is_stale,
}
use vorliq.JsonStore.Lock.Exclusion.{is_owned}

-- There is no lock file, or one of a dead process, which has its pid in it or is over 30 seconds old.
pub data Left (stage : ℕ → Stage) (now : ℕ) : Option LockFile → Type 0 where
  nothing : Left stage now none
  with_pid :
      {file : LockFile} → file.written ≡ true → stage file.owner ≡ dead → Left stage now (some file)
  without_pid :
      {file : LockFile}
      → file.written ≡ false
      → grace_ms < now - file.mtime
      → Left stage now (some file)

abbrev pub five_turns : ℕ → ℕ → List Event
five_turns me now = turn me now ∷ turn me now ∷ turn me now ∷ turn me now ∷ turn me now ∷ []

abbrev pub two_turns : ℕ → ℕ → List Event
two_turns me now = turn me now ∷ turn me now ∷ []

free-holding :
    (w : World) (me now start : ℕ)
    → w.stage me ≡ opening start
    → w.lock ≡ none
    → ((happen_all w (two_turns me now)).stage me ≡ holding)
      × (is_owned (happen_all w (two_turns me now)).lock me ≡ true)
unfolding happen_all happens
free-holding w me now start at free =
    let same : (me == me) ≡ true = ground arith in simp (at, free, same) (refl, refl)

abbrev pub turns_for : Option LockFile → ℕ → ℕ → List Event
turns_for none me now = two_turns me now
turns_for (some file) me now = five_turns me now

Left-stale :
    (stage : ℕ → Stage) (me now start : ℕ) (file : LockFile)
    → stage me ≡ opening start
    → Left stage now (some file)
    → lock_is_stale (move_to stage me (judging start)) me now (some file) ≡ true
Left-stale stage me now start file at (with_pid has gone) = ground (arith, has, gone, at)
Left-stale stage me now start file at (without_pid has old) = ground (arith, has, old)

take_turns :
    (w : World) (me now start : ℕ) (lock : Option LockFile)
    → w.lock ≡ lock
    → w.stage me ≡ opening start
    → Left w.stage now lock
    → ((happen_all w (turns_for lock me now)).stage me ≡ holding)
      × (is_owned (happen_all w (turns_for lock me now)).lock me ≡ true)
unfolding happen_all happens
take_turns w me now start none there at left = free-holding w me now start at there
take_turns w me now start (some file) there at left =
    let same : (me == me) ≡ true = ground arith in
    let old = Left-stale w.stage me now start file at left in
    simp (at, there, same, old) (refl, refl)

-- A process that is about to create the lock file, and takes its turns while no other one does, is inside
-- with the lock file its own after two turns if there is none, and after five if there is one that a dead
-- process left with its pid in it, or one without a pid that is over 30 seconds old.
pub turns_for-holding :
    (w : World) (me now start : ℕ)
    → w.stage me ≡ opening start
    → Left w.stage now w.lock
    → ((happen_all w (turns_for w.lock me now)).stage me ≡ holding)
      × (is_owned (happen_all w (turns_for w.lock me now)).lock me ≡ true)
turns_for-holding w me now start at left = take_turns w me now start w.lock refl at left
