-- ===== src/Auth/Lockout/Runs.antt =====
-- Runs of failures: when a client gets locked, and for how long.
use vorliq.Common.{
  ℕ, suc, ◌+◌, ◌≤◌, ◌<◌, String, true, false, ◌≡◌, refl, none, some, List, [], ◌∷◌, arith, ◌↔◌, leb,
  if◌then◌else◌, length, All, ap,
}
use native.Mathlib.Nat.{add-zero, add-suc, suc-add}
use vorliq.Common.Dict
use vorliq.Auth.Lockout.{
  Attempts, Entry, Code, is_credential_failure, failure_limit, window_ms, lock_ms, remaining_of,
  locked_seconds_remaining, next_entry, record_failure,
}
use vorliq.Auth.Lockout.Laws.{remaining-pos, get-record_failure_self}

-- The Map after credential failures of one client at the listed times, in that order.
pub fail_all : Attempts → String → Code → List ℕ → Attempts
fail_all attempts key code [] = attempts
fail_all attempts key code (t ∷ ts) =
    fail_all (record_failure false attempts key code t).0 key code ts

-- The last of the times `t ∷ ts`.
abbrev pub last_time : ℕ → List ℕ → ℕ
last_time t [] = t
last_time t (u ∷ ts) = last_time u ts

abbrev pub counted : ℕ → ℕ → ℕ → Entry
counted n first last = record {
  count = n;
  first_at = first;
  locked_until = if leb failure_limit n then last + lock_ms else 0;
}

-- The bounds that keep every failure of a run inside the first one's window.
abbrev pub InWindow : ℕ → List ℕ → Type 0
InWindow first ts = All (λ u. u ≤ first + window_ms) ts

add-one-eq : (n : ℕ) → suc n ≡ 1 + n
add-one-eq n = omega arith

pub next_entry-counted :
    (n first last u : ℕ)
    → u ≤ first + window_ms
    → next_entry (some (counted n first last)) u ≡ counted (suc n) first u
unfolding next_entry
next_entry-counted n first last u h = ground arith

module _ (key : String) (code : Code) (credential : is_credential_failure code ≡ true) where
  get-fail_all-counted :
      (attempts : Attempts) (n first last : ℕ) (ts : List ℕ)
      → Dict.get attempts key ≡ some (counted (suc n) first last)
      → InWindow first ts
      → Dict.get (fail_all attempts key code ts) key
        ≡ some (counted (suc n + length ts) first (last_time last ts))
  unfolding fail_all
  get-fail_all-counted attempts n first last [] h w = rw (h, add-zero)
  get-fail_all-counted attempts n first last (u ∷ ts) h (here, w) =
      rw (add-suc (suc n) (length ts), ← suc-add)
        (get-fail_all-counted (record_failure false attempts key code u).0 (suc n) first u ts
          (rw (get-record_failure_self attempts key code u credential, h)
            (ap some (next_entry-counted (suc n) first last u here)))
          w)

  get-fail_all :
      (attempts : Attempts) (first : ℕ) (ts : List ℕ)
      → Dict.get attempts key ≡ none
      → InWindow first ts
      → Dict.get (fail_all attempts key code (first ∷ ts)) key
        ≡ some (counted (suc (length ts)) first (last_time first ts))
  unfolding fail_all next_entry
  get-fail_all attempts first ts h w = rw (add-one-eq (length ts)) (
      get-fail_all-counted (record_failure false attempts key code first).0 0 first first ts
        (rw (get-record_failure_self attempts key code first credential, h) refl) w)

  -- A client with no entry that fails at the times `first ∷ ts`, all within the window of the
  -- first, is locked out at `now` exactly if there are five failures or more and less than ten
  -- minutes have passed since the last of them.
  pub locked_iff :
      (attempts : Attempts) (first : ℕ) (ts : List ℕ) (now : ℕ)
      → Dict.get attempts key ≡ none
      → InWindow first ts
      → (0 < locked_seconds_remaining false (fail_all attempts key code (first ∷ ts)) key now)
        ↔ ((failure_limit ≤ suc (length ts)) × (now < last_time first ts + lock_ms))
  unfolding locked_seconds_remaining
  locked_iff attempts first ts now h w = rw (get-fail_all attempts first ts h w) (
      let e = counted (suc (length ts)) first (last_time first ts) in
      (
        λ p. let q = (remaining-pos e now).0 p in ground arith,
        λ p. (remaining-pos e now).1 (ground arith),
      ))

  next_entry-renewed :
      (n first last v : ℕ)
      → n < failure_limit
      → first + window_ms < v
      → next_entry (some (counted n first last)) v ≡ counted 1 v v
  unfolding next_entry
  next_entry-renewed n first last v few late = ground arith

  -- The window is fixed at the first failure and does not slide: once it is over, the next failure
  -- starts a new count, so a client whose second failure `u` fell inside the first window and
  -- which then fails at `v` after it and at most three times more is not locked, although the
  -- failures from `u` on may be five within ten minutes.
  pub fixed_window :
      (attempts : Attempts) (first u v : ℕ) (ts : List ℕ) (now : ℕ)
      → Dict.get attempts key ≡ none
      → u ≤ first + window_ms
      → first + window_ms < v
      → InWindow v ts
      → length ts < 4
      → locked_seconds_remaining false (fail_all attempts key code (first ∷ u ∷ v ∷ ts)) key now ≡ 0
  unfolding locked_seconds_remaining remaining_of fail_all
  fixed_window attempts first u v ts now h inside late w few =
      let two = fail_all attempts key code (first ∷ u ∷ []) in
      let renewed : Dict.get (record_failure false two key code v).0 key ≡ some (counted 1 v v) =
        rw
          (
            get-record_failure_self two key code v credential,
            get-fail_all attempts first (u ∷ []) h (inside, tt),
          )
          (ap some (next_entry-renewed 2 first u v (omega arith) late)) in
      ground
        (arith, get-fail_all-counted (record_failure false two key code v).0 0 v v ts renewed w)
