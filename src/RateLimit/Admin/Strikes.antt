-- ===== src/RateLimit/Admin/Strikes.antt =====
-- Five wrong admin tokens lock an address for an hour.
use Prim.Native.String.{◌++◌, slice}
use text.Mathlib.TextPositions.{slice-append_left}
use mathlib.Core.Bool.{false≢true}
use vorliq.Common.{
  ℕ, suc, ◌+◌, ◌-◌, ◌≤◌, ◌<◌, String, true, false, ◌≡◌, refl, none, some, List, [], ◌∷◌, arith,
  str_eq, eq_iff, eq_refl, ceil_div, ap, sym, ◌∙◌, All, length, Bool-cases, inl, inr, str_eq-eq,
}
use mathlib.Core.Path.{subst}
use native.Mathlib.Nat.{add-zero}
use vorliq.Common.Dict
use vorliq.Common.Dict.{get-put, get-revise}
use vorliq.RateLimit.{Counters, prune, full_key, record_hit, peek_hit}
use vorliq.RateLimit.Window.{get-prune, Hit, hit, get-hit}
use vorliq.RateLimit.Admin.{
  failure_limit, window_ms, lock_ms, fail_space, lock_space, record_failure, locked_seconds,
  is_wrong, admin_auth, locked,
}

fail≢lock : ◌≡◌ {A = String} "admin-fail" "admin-lock" → ⊥
fail≢lock p = false≢true ((eq_iff "admin-fail" "admin-lock").1 p)

-- The two counters of an address are different keys.
keys_differ : (ip : String) → full_key fail_space ip ≡ full_key lock_space ip → ⊥
unfolding full_key
keys_differ ip e = fail≢lock (
    sym (slice-append_left "admin-fail" (":" ++ ip))
    ∙ ap (λ s. slice s 0 10) e
    ∙ slice-append_left "admin-lock" (":" ++ ip))

get-prune-none :
    (store : Counters) (key : String) (now : ℕ)
    → Dict.get store key ≡ none
    → Dict.get (prune store now) key ≡ none
unfolding prune
get-prune-none store key now free = rw (get-revise, free) refl

get-hit-none :
    (store : Counters) (h : Hit) (key : String)
    → (full_key h.space h.key ≡ key → ⊥)
    → Dict.get store key ≡ none
    → Dict.get (hit store h) key ≡ none
unfolding hit record_hit
get-hit-none store h key other free =
    rw (get-put, get-prune-none store key h.now free)
      (elim (Bool-cases (str_eq (full_key h.space h.key) key)) [
        | inl same ↦ absurd (other (str_eq-eq _ _ same))
        | inr differ ↦ rw differ refl
      ])

-- An attempt on the admin routes: the Authorization header and the time.
abbrev pub Attempt : Type 0
Attempt = String × ℕ

module _ (sha256_hex : String → String) (admin_token ip : String) where
  pub step : Counters → Attempt → Counters
  step store (header, now) = (admin_auth sha256_hex false admin_token store ip header now).0

  pub step_all : Counters → List Attempt → Counters
  step_all store [] = store
  step_all store (a ∷ rest) = step_all (step store a) rest

  -- The address has `n` failures in a window up to `until`, and no lock.
  abbrev Failed : Counters → ℕ → ℕ → Type 0
  Failed store n until =
      (Dict.get store (full_key fail_space ip) ≡ some (record { count = n; reset_at = until }))
      × (Dict.get store (full_key lock_space ip) ≡ none)

  abbrev Wrong : ℕ → Attempt → Type 0
  Wrong until (header, now) = (is_wrong sha256_hex admin_token header ≡ true) × (now < until)

  unlocked :
      (store : Counters) (now : ℕ)
      → Dict.get store (full_key lock_space ip) ≡ none
      → locked_seconds false store ip now ≡ 0
  unfolding locked_seconds peek_hit
  unlocked store now free = rw free refl

  step-wrong :
      (store : Counters) (header : String) (now : ℕ)
      → Dict.get store (full_key lock_space ip) ≡ none
      → is_wrong sha256_hex admin_token header ≡ true
      → step store (header, now) ≡ record_failure false store ip now
  unfolding step admin_auth
  step-wrong store header now free wrong = ground (arith, unlocked store now free)

  abbrev failing : ℕ → Hit
  failing now = record { space = fail_space; key = ip; window = window_ms; now = now }

  fail_again :
      (store : Counters) (n until now : ℕ)
      → Failed store n until
      → now < until
      → Failed (hit store (failing now)) (suc n) until
  fail_again store n until now (found, free) early = (
    rw (get-hit store (failing now) (full_key fail_space ip) n until found early, eq_refl) refl,
    get-hit-none store (failing now) (full_key lock_space ip) (keys_differ ip) free,
  )

  get-hit_fresh :
      (store : Counters) (h : Hit)
      → Dict.get (prune store h.now) (full_key h.space h.key) ≡ none
      → Dict.get (hit store h) (full_key h.space h.key)
        ≡ some (record { count = 1; reset_at = h.now + h.window })
  unfolding hit record_hit
  get-hit_fresh store h free = rw (get-put, eq_refl) (rw free refl)

  Failed-once :
      (store : Counters) (now : ℕ)
      → Dict.get (prune store now) (full_key fail_space ip) ≡ none
      → Dict.get store (full_key lock_space ip) ≡ none
      → Failed (hit store (failing now)) 1 (now + window_ms)
  Failed-once store now fresh free = (
    get-hit_fresh store (failing now) fresh,
    get-hit-none store (failing now) (full_key lock_space ip) (keys_differ ip) free,
  )

  abbrev locking : ℕ → Hit
  locking now = record { space = lock_space; key = ip; window = lock_ms; now = now }

  abbrev counted : Counters → ℕ → ℕ
  counted store now = (record_hit store fail_space ip window_ms now).1.count

  counted_next :
      (store : Counters) (n until now : ℕ)
      → Failed store n until
      → now < until
      → counted store now ≡ suc n
  unfolding record_hit
  counted_next store n until now (found, free) early =
      rw
        (get-prune store (full_key fail_space ip) (record { count = n; reset_at = until }) now found
          early)
        (ground arith)

  counted_first :
      (store : Counters) (now : ℕ)
      → Dict.get (prune store now) (full_key fail_space ip) ≡ none
      → counted store now ≡ 1
  unfolding record_hit
  counted_first store now fresh = rw fresh refl

  record_failure-few :
      (store : Counters) (now n : ℕ)
      → counted store now ≡ n
      → n < failure_limit
      → record_failure false store ip now ≡ hit store (failing now)
  unfolding record_failure hit
  record_failure-few store now n count few = ground (arith, count)

  record_failure-full :
      (store : Counters) (now n : ℕ)
      → counted store now ≡ n
      → failure_limit ≤ n
      → record_failure false store ip now ≡ hit (hit store (failing now)) (locking now)
  unfolding record_failure hit
  record_failure-full store now n count full = ground (arith, count)

  Failed-step_all :
      (rest : List Attempt) (store : Counters) (n until : ℕ)
      → Failed store n until
      → All (Wrong until) rest
      → n + length rest < failure_limit
      → Failed (step_all store rest) (n + length rest) until
  unfolding step_all
  Failed-step_all [] store n until f wrong few =
      subst (λ k. Failed store k until) (sym (add-zero n)) f
  Failed-step_all ((header, now) ∷ rest) store n until f ((wrong, early), others) few =
      let after : step store (header, now) ≡ hit store (failing now) =
        step-wrong store header now f.1 wrong
        ∙ record_failure-few store now (suc n) (counted_next store n until now f early)
            (omega arith) in
      subst (λ k. Failed (step_all (step store (header, now)) rest) k until) (omega arith)
        (Failed-step_all rest (step store (header, now)) (suc n) until
          (subst (λ s. Failed s (suc n) until) (sym after) (fail_again store n until now f early))
          others (omega arith))

  get-last_step :
      (store : Counters) (header : String) (until now : ℕ)
      → Failed store 4 until
      → Wrong until (header, now)
      → Dict.get (step store (header, now)) (full_key lock_space ip)
        ≡ some (record { count = 1; reset_at = now + lock_ms })
  get-last_step store header until now f (wrong, early) =
      ap (λ s. Dict.get s (full_key lock_space ip))
        (step-wrong store header now f.1 wrong
          ∙ record_failure-full store now 5 (counted_next store 4 until now f early) (omega arith))
      ∙ get-hit_fresh (hit store (failing now)) (locking now) (
          get-prune-none (hit store (failing now)) (full_key lock_space ip) now
            (fail_again store 4 until now f early).1)

  locked_out :
      (store : Counters) (header : String) (until now : ℕ)
      → Dict.get store (full_key lock_space ip) ≡ some (record { count = 1; reset_at = until })
      → now < until
      → admin_auth sha256_hex false admin_token store ip header now
        ≡ (store, locked (ceil_div (until - now) 1000))
  unfolding admin_auth locked_seconds peek_hit
  locked_out store header until now held early = ground (arith, held)

  -- An address without a lock or a running window of failures sends a wrong admin token, three more
  -- within ten minutes of it, and then a fifth, also within these ten minutes. Then for an hour
  -- after the fifth every request of the address to the admin routes is answered with a lock, with
  -- the seconds that are left of the hour, whatever token it carries, and changes no counter.
  pub admin_lock_holds :
      (store : Counters) (first : Attempt) (rest : List Attempt) (fifth : Attempt)
      → Dict.get (prune store first.1) (full_key fail_space ip) ≡ none
      → Dict.get store (full_key lock_space ip) ≡ none
      → All (Wrong (first.1 + window_ms)) (first ∷ rest)
      → length rest ≡ 3
      → Wrong (first.1 + window_ms) fifth
      → (header : String) (now : ℕ) → now < fifth.1 + lock_ms
      → admin_auth sha256_hex false admin_token
          (step (step_all store (first ∷ rest)) fifth)
          ip
          header
          now
        ≡ (
          step (step_all store (first ∷ rest)) fifth,
          locked (ceil_div ((fifth.1 + lock_ms) - now) 1000),
        )
  unfolding step_all
  admin_lock_holds store first rest fifth fresh free ((wrong, early), others) three last header now
        soon =
      let once : Failed (step store first) 1 (first.1 + window_ms) =
        subst (λ s. Failed s 1 (first.1 + window_ms))
          (sym (
            step-wrong store first.0 first.1 free wrong
            ∙ record_failure-few store first.1 1 (counted_first store first.1 fresh) (omega arith)))
          (Failed-once store first.1 fresh free) in
      let four : Failed (step_all (step store first) rest) 4 (first.1 + window_ms) =
        subst (λ n. Failed (step_all (step store first) rest) n (first.1 + window_ms)) (omega arith)
          (Failed-step_all rest (step store first) 1 (first.1 + window_ms) once others
            (omega arith)) in
      locked_out (step (step_all store (first ∷ rest)) fifth) header (fifth.1 + lock_ms) now
        (get-last_step (step_all (step store first) rest) fifth.0 (first.1 + window_ms) fifth.1 four
          last)
        soon
