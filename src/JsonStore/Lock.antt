-- ===== src/JsonStore/Lock.antt =====
-- `withLock` of several processes on one lock file. A process is a number, its place in the loop a stage;
-- a turn is one system call of the loop, with the time at which it is made.
pub mod Exclusion
pub mod Progress
pub mod Race
pub mod Wait
use vorliq.Common.{
  ℕ, ◌+◌, ◌-◌, Bool, true, false, not, ◌&&◌, ◌||◌, Option, none, some, List, [], ◌∷◌, ltb, leb,
  ◌==◌, if◌then◌else◌,
}

-- The lock file: the process that created it, whether that process has written its pid into it, and when
-- it was last changed.
pub record LockFile : Type 0 where
  pub owner : ℕ
  pub written : Bool
  pub mtime : ℕ

pub data Stage : Type 0 where
  outside : Stage
  -- about to create the file, to read the one that is there, and to remove it as stale; since when it waits
  opening : ℕ → Stage
  judging : ℕ → Stage
  breaking : ℕ → Stage
  -- the file is created and gets the pid; the callback runs
  created : Stage
  holding : Stage
  timed_out : Stage
  dead : Stage

pub record World : Type 0 where
  pub lock : Option LockFile
  pub stage : ℕ → Stage

abbrev pub timeout_ms : ℕ
timeout_ms = 5000

abbrev pub grace_ms : ℕ
grace_ms = 30000

-- `pidIsAlive`
abbrev pub is_alive : Stage → Bool
is_alive dead = false
is_alive s = true

-- `lockIsStale`, for the process `me`; a file that cannot be read is not stale.
abbrev pub file_is_stale : (ℕ → Stage) → ℕ → ℕ → LockFile → Bool
file_is_stale stage me now file =
    if file.written
    then not (file.owner == me) && not (is_alive (stage file.owner))
    else ltb grace_ms (now - file.mtime)

abbrev pub lock_is_stale : (ℕ → Stage) → ℕ → ℕ → Option LockFile → Bool
lock_is_stale stage me now none = false
lock_is_stale stage me now (some file) = file_is_stale stage me now file

abbrev pub move_to : (ℕ → Stage) → ℕ → Stage → ℕ → Stage
move_to stage me s p = if p == me then s else stage p

abbrev pub at : World → ℕ → Stage → World
at w me s = record { lock = w.lock; stage = move_to w.stage me s }

abbrev pub put_lock : World → ℕ → Option LockFile → Stage → World
put_lock w me lock s = record { lock = lock; stage = move_to w.stage me s }

-- openSync with the flag "wx"
abbrev pub open_lock : World → ℕ → ℕ → ℕ → Option LockFile → World
open_lock w me now start none =
    put_lock w me (some record { owner = me; written = false; mtime = now }) created
open_lock w me now start (some file) = at w me (judging start)

-- The pid goes to the file that was created, which another process may have removed.
abbrev pub write_pid : ℕ → ℕ → Option LockFile → Option LockFile
write_pid me now none = none
write_pid me now (some file) =
    if file.owner == me then some record { owner = me; written = true; mtime = now } else some file

abbrev pub judge : World → ℕ → ℕ → ℕ → Bool → World
judge w me now start true = at w me (breaking start)
judge w me now start false =
    at w me (if leb timeout_ms (now - start) then timed_out else opening start)

-- The turn of a process at a stage. `outside` begins withLock; at `holding` the callback is over.
abbrev pub turn_at : World → ℕ → ℕ → Stage → World
turn_at w me now outside = at w me (opening now)
turn_at w me now (opening start) = open_lock w me now start w.lock
turn_at w me now (judging start) = judge w me now start (lock_is_stale w.stage me now w.lock)
turn_at w me now (breaking start) = put_lock w me none (opening start)
turn_at w me now created = put_lock w me (write_pid me now w.lock) holding
turn_at w me now holding = put_lock w me none outside
turn_at w me now timed_out = w
turn_at w me now dead = w

pub data Event : Type 0 where
  turn : ℕ → ℕ → Event
  killed : ℕ → Event

unfoldable pub happens : World → Event → World
happens w (turn me now) = turn_at w me now (w.stage me)
happens w (killed me) = at w me dead

unfoldable pub happen_all : World → List Event → World
happen_all w [] = w
happen_all w (e ∷ es) = happen_all (happens w e) es
