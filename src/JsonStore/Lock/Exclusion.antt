-- ===== src/JsonStore/Lock/Exclusion.antt =====
-- Which processes are inside the lock of backend/jsonStore.js, and which find its file stale.
use vorliq.Common.{
  ℕ, ◌-◌, ◌≤◌, Bool, true, false, not, ◌&&◌, ◌≡◌, refl, Option, none, some, List, [], ◌∷◌, arith,
  leb, ◌==◌, if◌then◌else◌,
}
use vorliq.JsonStore.Lock.{
  LockFile, Stage, outside, opening, judging, breaking, created, holding, timed_out, dead, World,
  grace_ms, lock_is_stale, open_lock, judge, timeout_ms, move_to, turn_at, Event, turn, killed,
  happens, happen_all,
}

abbrev pub is_inside : Stage → Bool
is_inside created = true
is_inside holding = true
is_inside s = false

abbrev pub is_breaking : Stage → Bool
is_breaking (breaking start) = true
is_breaking s = false

-- The lock file is that of a process; with its pid in it; or that of a process that is not inside.
abbrev pub is_owned : Option LockFile → ℕ → Bool
is_owned none p = false
is_owned (some file) p = file.owner == p

abbrev is_held : Option LockFile → ℕ → Bool
is_held none p = false
is_held (some file) p = file.owner == p && file.written

abbrev is_orphan : (ℕ → Stage) → Option LockFile → Bool
is_orphan stage none = false
is_orphan stage (some file) = not (is_inside (stage file.owner))

abbrev fits : (ℕ → Stage) → Option LockFile → ℕ → Stage → Bool
fits stage lock p created = is_owned lock p
fits stage lock p holding = is_held lock p
fits stage lock p (breaking start) = is_orphan stage lock
fits stage lock p s = true

record Safe (w : World) : Type 0 where
  fit : (p : ℕ) → fits w.stage w.lock p (w.stage p) ≡ true
  alone : (p q : ℕ) → is_breaking (w.stage p) ≡ true → is_breaking (w.stage q) ≡ true → p ≡ q

pub record Calm (w : World) (me now : ℕ) : Type 0 where
  pub one_breaks :
      (start : ℕ)
      → w.stage me ≡ judging start
      → lock_is_stale w.stage me now w.lock ≡ true
      → (q : ℕ) → is_breaking (w.stage q) ≡ false
  pub soon_written :
      (file : LockFile)
      → w.lock ≡ some file
      → file.written ≡ false
      → w.stage file.owner ≡ created
      → now - file.mtime ≤ grace_ms

unfoldable pub AllCalm : World → List Event → Type 0
AllCalm w [] = Unit {0}
AllCalm w (turn me now ∷ es) = Calm w me now × AllCalm (happens w (turn me now)) es
AllCalm w (killed me ∷ es) = AllCalm (happens w (killed me)) es

killed-Safe : (w : World) (me : ℕ) → Safe w → Safe (happens w (killed me))
unfolding happens
killed-Safe w me safe = record {
  fit = λ p. ground (arith, safe.fit p);
  alone = λ p q a b. safe.alone p q (ground arith) (ground arith);
}

-- A move that starts no breaking keeps the breaker alone.
alone-move_to :
    (stage : ℕ → Stage) (me : ℕ) (s : Stage)
    → is_breaking s ≡ false
    → ((p q : ℕ) → is_breaking (stage p) ≡ true → is_breaking (stage q) ≡ true → p ≡ q)
    → (p q : ℕ) → is_breaking (move_to stage me s p) ≡ true
    → is_breaking (move_to stage me s q) ≡ true
    → p ≡ q
alone-move_to stage me s h alone p q a b = alone p q (ground arith) (ground arith)

open_lock-Safe :
    (w : World) (me now start : ℕ) (lock : Option LockFile)
    → w.lock ≡ lock
    → w.stage me ≡ opening start
    → Safe w
    → Safe (open_lock w me now start lock)
open_lock-Safe w me now start none h at safe = record {
  fit = λ p. ground (arith, safe.fit p, h);
  alone = alone-move_to w.stage me created refl safe.alone;
}
open_lock-Safe w me now start (some file) h at safe = record {
  fit = λ p. ground (arith, safe.fit p, h);
  alone = alone-move_to w.stage me (judging start) refl safe.alone;
}

-- A stale lock file is that of a process that is not inside.
lock_is_stale-is_orphan :
    (w : World) (me now : ℕ) (lock : Option LockFile)
    → w.lock ≡ lock
    → lock_is_stale w.stage me now lock ≡ true
    → Calm w me now
    → Safe w
    → is_orphan w.stage lock ≡ true
lock_is_stale-is_orphan w me now none at h calm safe = h
lock_is_stale-is_orphan w me now (some file) at h calm safe =
    ground (arith, safe.fit file.owner, calm.soon_written file at, at)

judge-Safe :
    (w : World) (me now start : ℕ) (stale : Bool)
    → w.stage me ≡ judging start
    → lock_is_stale w.stage me now w.lock ≡ stale
    → Calm w me now
    → Safe w
    → Safe (judge w me now start stale)
judge-Safe w me now start true at h calm safe = record {
  fit = λ p. ground (arith, safe.fit p, lock_is_stale-is_orphan w me now w.lock refl h calm safe);
  alone = λ p q a b. ground (arith, calm.one_breaks start at h p, calm.one_breaks start at h q);
}
judge-Safe w me now start false at h calm safe = record {
  fit = λ p. ground (arith, safe.fit p);
  alone =
      alone-move_to w.stage me (if leb timeout_ms (now - start) then timed_out else opening start)
        (ground arith) safe.alone;
}

turn_at-Safe :
    (w : World) (me now : ℕ) (s : Stage)
    → w.stage me ≡ s
    → Calm w me now
    → Safe w
    → Safe (turn_at w me now s)
turn_at-Safe w me now outside at calm safe = record {
  fit = λ p. ground (arith, safe.fit p);
  alone = alone-move_to w.stage me (opening now) refl safe.alone;
}
turn_at-Safe w me now (opening start) at calm safe =
    open_lock-Safe w me now start w.lock refl at safe
turn_at-Safe w me now (judging start) at calm safe =
    judge-Safe w me now start (lock_is_stale w.stage me now w.lock) at refl calm safe
turn_at-Safe w me now (breaking start) at calm safe = record {
  fit = λ p. ground (arith, safe.fit p, safe.fit me, safe.alone p me);
  alone = alone-move_to w.stage me (opening start) refl safe.alone;
}
turn_at-Safe w me now created at calm safe = record {
  fit = λ p. ground (arith, safe.fit p, safe.fit me);
  alone = alone-move_to w.stage me holding refl safe.alone;
}
turn_at-Safe w me now holding at calm safe = record {
  fit = λ p. ground (arith, safe.fit p, safe.fit me);
  alone = alone-move_to w.stage me outside refl safe.alone;
}
turn_at-Safe w me now timed_out at calm safe = safe
turn_at-Safe w me now dead at calm safe = safe

happens-Safe :
    (w : World) (e : Event) (es : List Event) → AllCalm w (e ∷ es) → Safe w → Safe (happens w e)
unfolding happens AllCalm
happens-Safe w (turn me now) es calm safe = turn_at-Safe w me now (w.stage me) refl calm.0 safe
happens-Safe w (killed me) es calm safe = killed-Safe w me safe

happen_all-Safe : (w : World) (es : List Event) → AllCalm w es → Safe w → Safe (happen_all w es)
unfolding happen_all AllCalm
happen_all-Safe w [] calm safe = safe
happen_all-Safe w (turn me now ∷ es) calm safe =
    happen_all-Safe (happens w (turn me now)) es calm.1 (happens-Safe w (turn me now) es calm safe)
happen_all-Safe w (killed me ∷ es) calm safe =
    happen_all-Safe (happens w (killed me)) es calm (happens-Safe w (killed me) es calm safe)

pub record Fresh (w : World) : Type 0 where
  pub nobody_inside : (p : ℕ) → is_inside (w.stage p) ≡ false
  pub nobody_breaking : (p : ℕ) → is_breaking (w.stage p) ≡ false

Fresh-Safe : (w : World) → Fresh w → Safe w
Fresh-Safe w h = record {
  fit = λ p. ground (arith, h.nobody_inside p, h.nobody_breaking p);
  alone = λ p q a b. ground (arith, h.nobody_breaking p);
}

-- Processes that begin with nobody inside the lock and nobody about to remove it, whatever lock file is
-- there, are never two inside at once, after any turns and deaths, and the lock file is then that of the
-- one inside, as long as no process finds the lock file stale while another one is about to remove it, and
-- a process that created the file writes its pid before another one finds that 30 seconds have passed.
pub happen_all-is_inside :
    (w : World) (es : List Event) (p q : ℕ)
    → Fresh w
    → AllCalm w es
    → is_inside ((happen_all w es).stage p) ≡ true
    → is_inside ((happen_all w es).stage q) ≡ true
    → (p ≡ q) × (is_owned (happen_all w es).lock p ≡ true)
happen_all-is_inside w es p q fresh calm a b =
    let safe = happen_all-Safe w es calm (Fresh-Safe w fresh) in
    (ground (arith, safe.fit p, safe.fit q), ground (arith, safe.fit p))
