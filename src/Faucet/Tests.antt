-- ===== src/Faucet/Tests.antt =====
-- The faucet defence at concrete addresses, wallets and times.
use vorliq.Common.{
  ℕ, ◌+◌, ◌-◌, ◌≤◌, String, false, ◌≡◌, refl, Option, none, List, [], ◌∷◌, arith, ceil_div, length,
  map, filter, true, any, str_eq, ◌↔◌,
}
use vorliq.Common.Dict
use vorliq.Common.Dict.{get-empty}
use vorliq.Common.Text.{trim}
use vorliq.Faucet.{
  Store, Claim, recent_claim, listed, empty_store, allowed, denied, day_ms, norm_ip, prune, set_of,
  ip_distinct_wallets, ip_faucet_decision, record_faucet_claim, wallet_create_decision,
  record_wallet_creation, wallet_too_new, wallet_created_at,
}
use vorliq.Faucet.Limit.{Attempt, claim, claim_all, IsLimited, claim_all-IsLimited}
use vorliq.Faucet.Views.{
  sort_by, top_ips_by_claims_24h, top_wallets_by_claims, ips_at_multi_wallet_limit, shows,
  at_limit-denied,
}
use vorliq.Faucet.Race.{race}
use vorliq.Faucet.Block.{Operation, claimed, created, creating, apply, apply_all, block_holds}

faucet : Unit {0}
unfolding norm_ip trim prune set_of ip_distinct_wallets ip_faucet_decision record_faucet_claim
    wallet_create_decision record_wallet_creation wallet_too_new wallet_created_at empty_store
    Dict.get Dict.put Dict.revise Dict.remove Dict.empty claim claim_all apply apply_all
faucet = tt

abbrev attempt : String → ℕ → Attempt
attempt wallet t = record {
  ip = " 10.0.0.1 ";
  wallet = wallet;
  fingerprint = "f";
  decided = t;
  recorded = t + 5;
}

abbrev attempts : List Attempt
attempts = attempt "a" 100 ∷ attempt "b" 200 ∷ attempt "c" 300 ∷ attempt "a" 400 ∷ []

third_denied :
    ip_faucet_decision false (claim_all empty_store attempts) "10.0.0.1" "c" 500
    ≡ denied 86400 "ip_wallet_limit"
unfolding faucet
third_denied = refl

nothing_listed :
    (o : Option (List Claim))
    → o ≡ none
    → length (set_of (map (λ (c : Claim). c.wallet) (filter (recent_claim 0) (listed o)))) ≤ 2
nothing_listed o h = rw h (unfold set_of in omega arith)

empty-IsLimited : IsLimited empty_store 0
unfolding ip_distinct_wallets empty_store set_of
empty-IsLimited = record {
  at_ip = λ ip. nothing_listed (Dict.get Dict.empty (norm_ip ip)) (get-empty (norm_ip ip));
}

claim_all-IsLimited_example : IsLimited (claim_all empty_store attempts) 500
claim_all-IsLimited_example =
    claim_all-IsLimited empty_store attempts 0 500 empty-IsLimited (omega arith)

no_claims : Dict.get empty_store.ip_claims (norm_ip "ip") ≡ none
unfolding empty_store
no_claims = get-empty (norm_ip "ip")

race_example :
    (ip_faucet_decision false empty_store "ip" "a" 10 ≡ allowed)
    × (ip_faucet_decision false empty_store "ip" "b" 10 ≡ allowed)
    × (ip_faucet_decision false empty_store "ip" "c" 10 ≡ allowed)
    × (length (
          ip_distinct_wallets
            (record_faucet_claim
              (record_faucet_claim
                (record_faucet_claim empty_store "ip" "a" "f" 20)
                "ip"
                "b"
                "f"
                30)
              "ip"
              "c"
              "f"
              40)
            "ip"
            40)
        ≡ 3)
race_example =
    race empty_store "ip" no_claims "a" "b" "c" "f" 10 20 30 40 refl refl refl (omega arith)
      (omega arith) (omega arith)

-- Three wallets created within a minute.
abbrev busy : Store
busy =
    apply_all empty_store
      ((created "a" "ip", 1000) ∷ (created "b" "ip", 2000) ∷ (created "c" "ip", 3000) ∷ [])

fourth_denied : (wallet_create_decision false busy "ip" 4000).1 ≡ denied 86400 "velocity"
unfolding faucet
fourth_denied = refl

abbrev meanwhile : List (Operation × ℕ)
meanwhile = (creating "ip", 5000) ∷ (claimed "ip" "a" "f", 6000) ∷ []

block_holds_example :
    wallet_create_decision false
      (apply_all (wallet_create_decision false busy "ip" 4000).0 meanwhile)
      "ip"
      7000
    ≡ (
      apply_all (wallet_create_decision false busy "ip" 4000).0 meanwhile,
      denied (ceil_div (4000 + day_ms - 7000) 1000) "blocked",
    )
block_holds_example =
    block_holds busy "ip" 4000 meanwhile 7000 fourth_denied (omega arith) (omega arith)

abbrev two_claims : Store
two_claims = claim_all empty_store attempts

ip_normal : norm_ip "10.0.0.1" ≡ "10.0.0.1"
unfolding faucet
ip_normal = refl

new_wallet : any (str_eq "c") (ip_distinct_wallets two_claims "10.0.0.1" 500) ≡ false
unfolding faucet
new_wallet = refl

-- The wallet "a" claimed twice, "b" once, "c" was denied.
shown_first : top_wallets_by_claims two_claims 1 ≡ record { wallet = "a"; claims = 2 } ∷ []
unfolding faucet top_wallets_by_claims sort_by
shown_first = refl

shown_ip :
    top_ips_by_claims_24h two_claims 10 500
    ≡ record { ip = "10.0.0.1"; claims = 3; distinct_wallets = 2 } ∷ []
unfolding faucet top_ips_by_claims_24h sort_by
shown_ip = refl

at_limit-denied_example : (shows "10.0.0.1" (ips_at_multi_wallet_limit two_claims 500) ≡ true) ↔ (
    ip_faucet_decision false two_claims "10.0.0.1" "c" 500
    ≡ denied (ceil_div day_ms 1000) "ip_wallet_limit")
at_limit-denied_example = at_limit-denied two_claims "10.0.0.1" "c" 500 ip_normal new_wallet
