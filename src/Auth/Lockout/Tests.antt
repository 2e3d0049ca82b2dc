-- ===== src/Auth/Lockout/Tests.antt =====
-- The lockout at concrete times.
use vorliq.Common.{ℕ, ◌+◌, ◌<◌, ◌≤◌, ◌≡◌, refl, ◌↔◌, false, List, [], ◌∷◌, arith}
use vorliq.Common.Dict
use vorliq.Common.Dict.{get-empty}
use vorliq.Auth.Lockout.{
  signature_invalid, failure_limit, lock_ms, locked_seconds_remaining, lockout_minutes,
}
use vorliq.Auth.Lockout.Runs.{fail_all, locked_iff, fixed_window}

abbrev later : List ℕ
later = 1000 ∷ 2000 ∷ 3000 ∷ 4000 ∷ []

locked_iff_example :
    (0
      < locked_seconds_remaining false
          (fail_all Dict.empty "ip" signature_invalid (500 ∷ later))
          "ip"
          9000)
    ↔ ((failure_limit ≤ 5) × (9000 < 4000 + lock_ms))
locked_iff_example =
    locked_iff "ip" signature_invalid refl Dict.empty 500 later 9000 (get-empty "ip") (omega arith)

-- Five failures between 500000 and 600004, and no lock.
fixed_window_example :
    locked_seconds_remaining false
      (fail_all Dict.empty "ip" signature_invalid
        (0 ∷ 500000 ∷ 600001 ∷ 600002 ∷ 600003 ∷ 600004 ∷ []))
      "ip"
      600004
    ≡ 0
fixed_window_example =
    fixed_window "ip" signature_invalid refl Dict.empty 0 500000 600001
      (600002 ∷ 600003 ∷ 600004 ∷ []) 600004 (get-empty "ip") (omega arith) (omega arith)
      (omega arith) (omega arith)

ten_minutes : lockout_minutes 600 ≡ 10
unfolding lockout_minutes
ten_minutes = refl
