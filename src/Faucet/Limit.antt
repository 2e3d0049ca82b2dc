-- ===== src/Faucet/Limit.antt =====
-- At most two wallets per address and day, when each claim is recorded before the next is decided.
use vorliq.Common.{
  ℕ, ◌≤◌, String, Bool, true, false, ◌≡◌, refl, List, [], ◌∷◌, ◌++◌, arith, length, str_eq, eq_refl,
  Bool-cases, inl, inr, ◌⊎◌, str_eq-eq,
}
use vorliq.Faucet.{
  Store, Decision, allowed, denied, norm_ip, ip_distinct_wallets, ip_faucet_decision,
  record_faucet_claim, faucet_ip_wallet_limit,
}
use vorliq.Faucet.Sets.{has, Covers, length-set_of-le}
use vorliq.Faucet.Claims.{
  claims_of, recent_wallets, new_claim, claims_of-record_faucet_claim, Covers-later, Covers-pruned,
  Covers-concat, Covers-weaken, Covers-set_of,
}

-- A claim of a wallet from an address: decided at one time, recorded at a later one if allowed.
pub record Attempt : Type 0 where
  pub ip : String
  pub wallet : String
  pub fingerprint : String
  pub decided : ℕ
  pub recorded : ℕ

record_allowed : Decision → Store → Attempt → Store
record_allowed allowed s a = record_faucet_claim s a.ip a.wallet a.fingerprint a.recorded
record_allowed (denied seconds reason) s a = s

-- The part of `POST /api/faucet/claim` that concerns the address, for a claim that Flask grants.
unfoldable pub claim : Store → Attempt → Store
unfolding record_allowed
claim s a = record_allowed (ip_faucet_decision false s a.ip a.wallet a.decided) s a

-- The store after claims one after the other.
unfoldable pub claim_all : Store → List Attempt → Store
claim_all s [] = s
claim_all s (a ∷ rest) = claim_all (claim s a) rest

-- At time `now` no address has claimed for more than two wallets within the last day.
pub record IsLimited (s : Store) (now : ℕ) : Type 0 where
  pub at_ip : (ip : String) → length (ip_distinct_wallets s ip now) ≤ faucet_ip_wallet_limit

-- The times of a list of attempts do not go back, from `now` to `last`.
abbrev pub InOrder : ℕ → List Attempt → ℕ → Type 0
InOrder now [] last = now ≤ last
InOrder now (a ∷ rest) last =
    (now ≤ a.decided) × (a.decided ≤ a.recorded) × InOrder a.recorded rest last

distinct-le :
    (s : Store) (ip : String) (t u : ℕ) (ws : List String)
    → t ≤ u
    → Covers ws (recent_wallets t (claims_of s (norm_ip ip)))
    → length (ip_distinct_wallets s ip u) ≤ length ws
unfolding ip_distinct_wallets
distinct-le s ip t u ws h c =
    length-set_of-le (recent_wallets u (claims_of s (norm_ip ip))) ws
      (Covers-later ws t u (claims_of s (norm_ip ip)) h c)

distinct-Covers :
    (s : Store) (ip : String) (t : ℕ)
    → Covers (ip_distinct_wallets s ip t) (recent_wallets t (claims_of s (norm_ip ip)))
unfolding ip_distinct_wallets
distinct-Covers s ip t = Covers-set_of (recent_wallets t (claims_of s (norm_ip ip)))

IsLimited-later : (s : Store) (t u : ℕ) → t ≤ u → IsLimited s t → IsLimited s u
IsLimited-later s t u h l = record {
  at_ip = λ ip. omega (
    arith,
    l.at_ip ip,
    distinct-le s ip t u (ip_distinct_wallets s ip t) h (distinct-Covers s ip t),
  );
}

-- The wallets that an allowed claim leaves: at most two.
allowed-Covers :
    (s : Store) (ip wallet : String) (t : ℕ)
    → length (ip_distinct_wallets s ip t) ≤ faucet_ip_wallet_limit
    → ip_faucet_decision false s ip wallet t ≡ allowed
    → (ws : List String) × (length ws ≤ faucet_ip_wallet_limit)
      × Covers ws (recent_wallets t (claims_of s (norm_ip ip)))
      × (has ws wallet ≡ true)
unfolding ip_faucet_decision
allowed-Covers s ip wallet t few h =
    let old = ip_distinct_wallets s ip t in
    elim (Bool-cases (has old wallet)) [
      | inl seen ↦ (old, few, distinct-Covers s ip t, seen)
      | inr new ↦ (
        wallet ∷ old,
        ground arith,
        Covers-weaken old (wallet ∷ old) _ (λ x k. ground arith) (distinct-Covers s ip t),
        ground (arith, eq_refl wallet),
      )
    ]

abbrev is_allowed : Decision → Bool
is_allowed allowed = true
is_allowed (denied seconds reason) = false

is_allowed-eq : (d : Decision) → is_allowed d ≡ true → d ≡ allowed
is_allowed-eq allowed h = refl
is_allowed-eq (denied seconds reason) h = cc

record_denied :
    (d : Decision) (s : Store) (a : Attempt) → is_allowed d ≡ false → record_allowed d s a ≡ s
unfolding record_allowed
record_denied allowed s a h = cc
record_denied (denied seconds reason) s a h = refl

module _ (s : Store) (a : Attempt) (order : a.decided ≤ a.recorded) where
  recorded : Store
  recorded = record_faucet_claim s a.ip a.wallet a.fingerprint a.recorded

  recorded-Covers :
      (ws : List String)
      → Covers ws (recent_wallets a.decided (claims_of s (norm_ip a.ip)))
      → has ws a.wallet ≡ true
      → Covers ws (recent_wallets a.recorded (claims_of recorded (norm_ip a.ip)))
  unfolding recorded
  recorded-Covers ws c h =
      let old = claims_of s (norm_ip a.ip) in
      rw (claims_of-record_faucet_claim, eq_refl)
        (Covers-pruned ws a.recorded a.recorded
          (old ++ new_claim a.wallet a.fingerprint a.recorded ∷ [])
          (Covers-concat ws a.recorded old (new_claim a.wallet a.fingerprint a.recorded)
            (Covers-later ws a.decided a.recorded old order c) h))

  recorded-IsLimited :
      IsLimited s a.decided
      → ip_faucet_decision false s a.ip a.wallet a.decided ≡ allowed
      → IsLimited recorded a.recorded
  recorded-IsLimited l h = record {
    at_ip = λ ip. by_key ip (Bool-cases (str_eq (norm_ip a.ip) (norm_ip ip)));
  }
    where
      by_key :
          (ip : String)
          → (str_eq (norm_ip a.ip) (norm_ip ip) ≡ true)
            ⊎ (str_eq (norm_ip a.ip) (norm_ip ip) ≡ false)
          → length (ip_distinct_wallets recorded ip a.recorded) ≤ faucet_ip_wallet_limit
      by_key ip (inl same) =
          let (ws, few, c, k) = allowed-Covers s a.ip a.wallet a.decided (l.at_ip a.ip) h in
          omega (
            arith,
            distinct-le recorded ip a.recorded a.recorded ws (omega arith)
                (rw (← str_eq-eq _ _ same) (recorded-Covers ws c k)),
          )
      by_key ip (inr other) =
          let ws = ip_distinct_wallets s ip a.decided in
          omega (
            arith,
            l.at_ip ip,
            distinct-le recorded ip a.recorded a.recorded ws (omega arith) (
                unfold recorded in
                rw (claims_of-record_faucet_claim, other)
                  (Covers-pruned ws a.recorded a.recorded (claims_of s (norm_ip ip)) (
                    Covers-later ws a.decided a.recorded (claims_of s (norm_ip ip)) order
                      (distinct-Covers s ip a.decided)))),
          )

claim-IsLimited :
    (s : Store) (a : Attempt) (now : ℕ)
    → IsLimited s now
    → now ≤ a.decided
    → a.decided ≤ a.recorded
    → IsLimited (claim s a) a.recorded
unfolding claim recorded
claim-IsLimited s a now l h k =
    let then_l = IsLimited-later s now a.decided h l in
    elim (Bool-cases (is_allowed (ip_faucet_decision false s a.ip a.wallet a.decided))) [
      | inl yes_allowed ↦
          let e = is_allowed-eq _ yes_allowed in rw e (recorded-IsLimited s a k then_l e)
      | inr no_allowed ↦
          rw (record_denied _ s a no_allowed) (IsLimited-later s a.decided a.recorded k then_l)
    ]

-- From a store in which no address has more than two recent wallets, claims that are each decided
-- and recorded before the next one, in the order of time, never leave an address with more than
-- two distinct wallets within a day.
pub claim_all-IsLimited :
    (s : Store) (attempts : List Attempt) (now last : ℕ)
    → IsLimited s now
    → InOrder now attempts last
    → IsLimited (claim_all s attempts) last
unfolding claim_all
claim_all-IsLimited s [] now last l o = IsLimited-later s now last o l
claim_all-IsLimited s (a ∷ rest) now last l (h, k, o) =
    claim_all-IsLimited (claim s a) rest a.recorded last (claim-IsLimited s a now l h k) o
