-- ===== src/Faucet/Race.antt =====
-- Claims that are decided before any of them is recorded, as requests in flight are.
use vorliq.Common.{
  ℕ, ◌+◌, ◌≤◌, ◌<◌, String, false, ◌≡◌, refl, none, [], ◌∷◌, str_eq, eq_refl, arith, length,
}
use vorliq.Common.Dict
use vorliq.Faucet.{
  Store, allowed, norm_ip, set_of, ip_distinct_wallets, ip_faucet_decision, record_faucet_claim,
}
use vorliq.Faucet.Claims.{claims_of, new_claim, claims_of-record_faucet_claim}

module _ (s : Store) (ip : String) (fresh : Dict.get s.ip_claims (norm_ip ip) ≡ none) where
  fresh_allowed : (wallet : String) (now : ℕ) → ip_faucet_decision false s ip wallet now ≡ allowed
  unfolding ip_faucet_decision ip_distinct_wallets set_of
  fresh_allowed wallet now = rw fresh refl

  -- The claims after three recordings at times of one day.
  three_claims :
      (a b c fingerprint : String) (t u v : ℕ)
      → t ≤ u
      → u ≤ v
      → v < t + 86400000
      → claims_of
          (record_faucet_claim
            (record_faucet_claim (record_faucet_claim s ip a fingerprint t) ip b fingerprint u)
            ip
            c
            fingerprint
            v)
          (norm_ip ip)
        ≡ new_claim a fingerprint t ∷ new_claim b fingerprint u ∷ new_claim c fingerprint v ∷ []
  three_claims a b c fingerprint t u v h k l =
      rw (claims_of-record_faucet_claim, eq_refl)
        (rw (claims_of-record_faucet_claim, eq_refl)
          (rw (claims_of-record_faucet_claim, eq_refl) (rw fresh (ground arith))))

  -- The decision and the record of a claim are apart, with a request to Flask between them. Three
  -- claims from one address for different wallets are all allowed if they are decided before the
  -- first is recorded, and the address then has three distinct wallets within the day.
  pub race :
      (a b c fingerprint : String) (now t u v : ℕ)
      → str_eq a b ≡ false
      → str_eq a c ≡ false
      → str_eq b c ≡ false
      → t ≤ u
      → u ≤ v
      → v < t + 86400000
      → (ip_faucet_decision false s ip a now ≡ allowed)
        × (ip_faucet_decision false s ip b now ≡ allowed)
        × (ip_faucet_decision false s ip c now ≡ allowed)
        × (length (
              ip_distinct_wallets
                (record_faucet_claim
                  (record_faucet_claim
                    (record_faucet_claim s ip a fingerprint t)
                    ip
                    b
                    fingerprint
                    u)
                  ip
                  c
                  fingerprint
                  v)
                ip
                v)
            ≡ 3)
  unfolding ip_distinct_wallets set_of
  race a b c fingerprint now t u v ab ac bc h k l = (
    fresh_allowed a now,
    fresh_allowed b now,
    fresh_allowed c now,
    rw (three_claims a b c fingerprint t u v h k l) (ground arith),
  )
