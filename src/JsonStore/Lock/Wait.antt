-- ===== src/JsonStore/Lock/Wait.antt =====
-- The loop of `withLock` in one process, over what each of its attempts to open the file meets.
use vorliq.Common.{
  ℕ, suc, ◌+◌, ◌-◌, ◌*◌, ◌≤◌, ◌≡◌, refl, ◌<◌, ◌⊎◌, inl, inr, Bool-cases, length, List, [], ◌∷◌,
  arith, leb, if◌then◌else◌,
}
use vorliq.JsonStore.Lock.{timeout_ms}

-- The file is created; it is there and stale, and is removed; it is there, at a time.
pub data Attempt : Type 0 where
  opened : Attempt
  stale : Attempt
  busy : ℕ → Attempt

pub data Outcome : Type 0 where
  acquired : Outcome
  gave_up : Outcome
  -- the attempts are used up
  unfinished : Outcome

unfoldable pub acquire : ℕ → List Attempt → Outcome
acquire start [] = unfinished
acquire start (opened ∷ rest) = acquired
acquire start (stale ∷ rest) = acquire start rest
acquire start (busy now ∷ rest) =
    let next = acquire start rest in if leb timeout_ms (now - start) then gave_up else next

-- atomicWait(50): the clock shows at least 50 more after each wait than at the attempt before it, and does
-- not go back otherwise.
abbrev pub wait_ms : ℕ
wait_ms = 50

unfoldable pub Waits : ℕ → List Attempt → Type 0
Waits earliest [] = Unit {0}
Waits earliest (opened ∷ rest) = Unit {0}
Waits earliest (stale ∷ rest) = Waits earliest rest
Waits earliest (busy now ∷ rest) = (earliest ≤ now) × Waits (now + wait_ms) rest

abbrev pub count_stale : List Attempt → ℕ
count_stale [] = 0
count_stale (stale ∷ rest) = suc (count_stale rest)
count_stale (a ∷ rest) = count_stale rest

acquire-ends :
    (start earliest : ℕ) (attempts : List Attempt)
    → Waits earliest attempts
    → earliest < start + timeout_ms + wait_ms
    → start + timeout_ms + wait_ms + wait_ms * count_stale attempts
      ≤ earliest + wait_ms * length attempts
    → (acquire start attempts ≡ acquired) ⊎ (acquire start attempts ≡ gave_up)
unfolding acquire Waits
acquire-ends start e [] waits early enough = ground arith
acquire-ends start e (opened ∷ rest) waits early enough = inl refl
acquire-ends start e (stale ∷ rest) waits early enough =
    acquire-ends start e rest waits early (omega arith)
acquire-ends start e (busy now ∷ rest) waits early enough =
    elim (Bool-cases (leb timeout_ms (now - start))) [
      | inl late ↦ inr (rw late refl)
      | inr soon ↦
          rw soon (
            acquire-ends start (now + wait_ms) rest waits.1 (ground arith) (omega (arith, waits.0)))
    ]

-- The loop ends: among 101 attempts and as many more as stale lock files are met there is one that gets
-- the lock or gives up, if the clock shows at least 50 milliseconds more after each wait.
pub acquire-count_stale :
    (start : ℕ) (attempts : List Attempt)
    → Waits start attempts
    → 101 + count_stale attempts ≤ length attempts
    → (acquire start attempts ≡ acquired) ⊎ (acquire start attempts ≡ gave_up)
acquire-count_stale start attempts waits enough =
    acquire-ends start start attempts waits (omega arith) (omega arith)
