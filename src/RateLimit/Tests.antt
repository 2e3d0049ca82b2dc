-- ===== src/RateLimit/Tests.antt =====
-- Runs of the counters and of the admin lockout at concrete requests.
use vorliq.Common.{
  ℕ, leb, Bool, eq_refl, str_eq, String, true, false, ◌≡◌, refl, none, List, [], ◌∷◌, arith,
}
use vorliq.Common.Text.{trim}
use vorliq.Common.Dict
use vorliq.Common.Dict.{get-revise, get-empty, get-put}
use vorliq.RateLimit.Limiters.{next, limited, exchange_limiter, serve, retry_after_seconds}
use vorliq.RateLimit.Retry.{serve-retry_after_seconds}
use vorliq.RateLimit.{Counters, prune, full_key, record_hit}
use vorliq.RateLimit.Window.{Hit, hit_all, hits_on}
use vorliq.RateLimit.Admin.{is_wrong, provided_token, admin_auth, locked, fail_space}
use vorliq.RateLimit.Admin.Strikes.{Attempt, step, step_all, admin_lock_holds}

get-prune-empty : (key : String) (now : ℕ) → Dict.get (prune Dict.empty now) key ≡ none
unfolding prune
get-prune-empty key now = rw (get-revise, get-empty) refl

abbrev hits : List Hit
hits =
    record { space = "chat"; key = "1.2.3.4"; window = 60000; now = 2000 }
    ∷ record { space = "chat"; key = "5.6.7.8"; window = 60000; now = 3000 }
    ∷ record { space = "chat"; key = "1.2.3.4"; window = 60000; now = 4000 }
    ∷ []

hits_on_one : hits_on (full_key "chat" "1.2.3.4") hits ≡ 2
unfolding hits_on full_key
hits_on_one = refl

abbrev plain : String → String
plain s = s

bad_token : is_wrong plain "secret" "Basic secret" ≡ true
unfolding is_wrong provided_token trim
bad_token = refl

wrong_token : is_wrong plain "secret" "Bearer guess" ≡ true
unfolding is_wrong provided_token trim
wrong_token = refl

right_token : is_wrong plain "secret" "Bearer secret" ≡ false
unfolding is_wrong provided_token trim
right_token = refl

abbrev guesses : List Attempt
guesses = ("Bearer guess", 2000) ∷ ("Basic secret", 3000) ∷ ("Bearer guess", 4000) ∷ []

abbrev guessed : Counters
guessed =
    step plain "secret" "1.2.3.4"
      (step_all plain "secret" "1.2.3.4" Dict.empty (("Bearer guess", 1000) ∷ guesses))
      ("Bearer guess", 5000)

-- The right token is refused too.
admin_lock_holds_example :
    admin_auth plain false "secret" guessed "1.2.3.4" "Bearer secret" 6000 ≡ (guessed, locked 3599)
admin_lock_holds_example =
    admin_lock_holds plain "secret" "1.2.3.4" Dict.empty ("Bearer guess", 1000) guesses
      ("Bearer guess", 5000) (get-prune-empty (full_key fail_space "1.2.3.4") 1000) (get-empty _)
      (
        (wrong_token, omega arith),
        ((wrong_token, omega arith), ((bad_token, omega arith), ((wrong_token, omega arith), tt))),
      )
      refl (wrong_token, omega arith) "Bearer secret" 6000 (omega arith)

abbrev within : ℕ → ℕ → Bool
within limit count = leb count limit

abbrev used_up : Counters
used_up = Dict.put Dict.empty (full_key "exchange" "k") (record { count = 20; reset_at = 70000 })

one_more :
    (record_hit used_up "exchange" "k" 60000 10100).1 ≡ record { count = 21; reset_at = 70000 }
unfolding record_hit prune
one_more = rw (get-revise, get-put, eq_refl) refl

told_to_wait : (serve within false exchange_limiter used_up "k" 10100).1 ≡ limited 60
unfolding serve retry_after_seconds
told_to_wait = rw one_more refl

abbrev early_hits : List Hit
early_hits = record { space = "exchange"; key = "k"; window = 60000; now = 20000 } ∷ []

abbrev late_hits : List Hit
late_hits = record { space = "faucet"; key = "k"; window = 60000; now = 70050 } ∷ []

other_space : str_eq (full_key "faucet" "k") (full_key "exchange" "k") ≡ false
unfolding full_key
other_space = refl

serve-retry_after_seconds_example :
    (serve within false exchange_limiter
      (hit_all
        (hit_all (serve within false exchange_limiter used_up "k" 10100).0 early_hits)
        late_hits)
      "k"
      70100).1
    ≡ next
serve-retry_after_seconds_example =
    serve-retry_after_seconds within false exchange_limiter used_up "k" 10100 60 70100 early_hits
      late_hits told_to_wait (rw one_more (omega arith), tt) (other_space, tt) (omega arith) refl
