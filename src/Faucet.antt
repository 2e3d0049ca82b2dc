-- ===== src/Faucet.antt =====
-- backend/faucetAbuse.js: the store of the faucet-abuse defence, and its operations. A function that
-- reads and writes the JSON file takes the store and returns the new one; the file holds what was
-- written last. Times are milliseconds, and `disabled` is the VORLIQ_DISABLE_RATE_LIMITS flag.
pub mod Sets
pub mod Claims
pub mod Limit
pub mod Race
pub mod Block
pub mod Views
mod Tests
use vorliq.Common.{
  ℕ, ◌+◌, ◌-◌, String, Bool, true, false, not, ◌&&◌, ◌||◌, Option, none, some, List, [], ◌∷◌, ◌++◌,
  map, str_eq, ltb, leb, if◌then◌else◌, ceil_div, filter, length, any,
}
use vorliq.Common.Dict
use vorliq.Common.Dict.{Dict}
use vorliq.Common.Text.{trim}

abbrev pub hour_ms : ℕ
hour_ms = 3600000

abbrev pub day_ms : ℕ
day_ms = 86400000

abbrev pub wallet_create_limit : ℕ
wallet_create_limit = 3

abbrev pub faucet_ip_wallet_limit : ℕ
faucet_ip_wallet_limit = 2

-- CREATION_RETENTION_MS
abbrev pub creation_retention_ms : ℕ
creation_retention_ms = 172800000

pub record Creation : Type 0 where
  pub created_at : ℕ
  pub ip : String

pub record Claim : Type 0 where
  pub wallet : String
  pub fingerprint : String
  pub at : ℕ

pub record Ban : Type 0 where
  pub at : ℕ
  pub reason : String

pub record Store : Type 0 where
  pub wallet_creations : Dict Creation
  pub ip_creations : Dict (List ℕ)
  pub ip_create_blocked_until : Dict ℕ
  pub wallet_claim_counts : Dict ℕ
  pub ip_claims : Dict (List Claim)
  pub banned_ips : Dict Ban
  pub banned_wallets : Dict Ban

unfoldable pub empty_store : Store
empty_store = record {
  wallet_creations = Dict.empty;
  ip_creations = Dict.empty;
  ip_create_blocked_until = Dict.empty;
  wallet_claim_counts = Dict.empty;
  ip_claims = Dict.empty;
  banned_ips = Dict.empty;
  banned_wallets = Dict.empty;
}

-- `now - Number(ts) < WALLET_CREATE_WINDOW_MS`
abbrev pub recent_creation : ℕ → ℕ → Bool
recent_creation now ts = ltb now (ts + hour_ms)

-- `now - Number(c.at) < FAUCET_IP_WINDOW_MS`
abbrev pub recent_claim : ℕ → Claim → Bool
recent_claim now c = ltb now (c.at + day_ms)

-- `if (kept.length) … = kept; else delete …`
abbrev pub unless_empty {ℓ} : {A : Type ℓ} → List A → Option (List A)
unless_empty [] = none
unless_empty (x ∷ xs) = some (x ∷ xs)

unfoldable pub prune : Store → ℕ → Store
prune s now = record s {
  wallet_creations =
      Dict.revise
        (λ wallet (e : Creation).
          if ltb (e.created_at + creation_retention_ms) now then none else some e)
        s.wallet_creations;
  ip_creations =
      Dict.revise (λ ip list. unless_empty (filter (recent_creation now) list)) s.ip_creations;
  ip_create_blocked_until =
      Dict.revise (λ ip until. if leb until now then none else some until)
        s.ip_create_blocked_until;
  ip_claims = Dict.revise (λ ip list. unless_empty (filter (recent_claim now) list)) s.ip_claims;
}

-- `String(ip || "unknown").trim() || "unknown"`
unfoldable pub norm_ip : String → String
norm_ip ip =
    let shown = trim (if str_eq ip "" then "unknown" else ip) in
    if str_eq shown "" then "unknown" else shown

is_some {ℓ} : {A : Type ℓ} → Option A → Bool
is_some none = false
is_some (some a) = true

unfoldable pub is_ip_banned : Store → String → Bool
unfolding is_some
is_ip_banned s ip = is_some (Dict.get s.banned_ips (norm_ip ip))

unfoldable pub is_wallet_banned : Store → String → Bool
unfolding is_some
is_wallet_banned s wallet = is_some (Dict.get s.banned_wallets wallet)

-- `String(reason || "manual admin ban")`
ban_of : String → ℕ → Ban
ban_of reason now = record {
  at = now;
  reason = if str_eq reason "" then "manual admin ban" else reason;
}

unfoldable pub ban_ip : Store → String → String → ℕ → Store
unfolding ban_of
ban_ip s ip reason now =
    prune (record s { banned_ips = Dict.put s.banned_ips (norm_ip ip) (ban_of reason now) }) now

unfoldable pub ban_wallet : Store → String → String → ℕ → Store
unfolding ban_of
ban_wallet s wallet reason now =
    prune (record s { banned_wallets = Dict.put s.banned_wallets wallet (ban_of reason now) }) now

unfoldable pub unban_ip : Store → String → ℕ → Store
unban_ip s ip now = prune (record s { banned_ips = Dict.remove s.banned_ips (norm_ip ip) }) now

unfoldable pub unban_wallet : Store → String → ℕ → Store
unban_wallet s wallet now =
    prune (record s { banned_wallets = Dict.remove s.banned_wallets wallet }) now

-- `{ allowed }`, or `{ allowed: false, retryAfterSeconds, reason }`.
pub data Decision : Type 0 where
  allowed : Decision
  denied : ℕ → String → Decision

-- `store.map[key] || []`
abbrev pub listed {ℓ} : {A : Type ℓ} → Option (List A) → List A
listed none = []
listed (some xs) = xs

-- `Number(store.ipCreateBlockedUntil[ip] || 0)`
abbrev pub until_of : Option ℕ → ℕ
until_of none = 0
until_of (some until) = until

unfoldable pub wallet_create_decision : Bool → Store → String → ℕ → Store × Decision
wallet_create_decision disabled s ip now =
    let key = norm_ip ip in
    let until = until_of (Dict.get s.ip_create_blocked_until key) in
    let recent = filter (recent_creation now) (listed (Dict.get s.ip_creations key)) in
    if disabled
    then (s, allowed)
    else if ltb now until
    then (s, denied (ceil_div (until - now) 1000) "blocked")
    else if leb wallet_create_limit (length recent)
    then (
      prune
          (record s {
            ip_create_blocked_until = Dict.put s.ip_create_blocked_until key (now + day_ms);
          })
          now,
      denied (ceil_div day_ms 1000) "velocity",
    )
    else (s, allowed)

unfoldable pub record_wallet_creation : Store → String → String → ℕ → Store
record_wallet_creation s wallet ip now =
    let key = norm_ip ip in
    prune
      (record s {
        wallet_creations =
            Dict.put s.wallet_creations wallet (record { created_at = now; ip = key });
        ip_creations =
            Dict.put s.ip_creations key (listed (Dict.get s.ip_creations key) ++ now ∷ []);
      })
      now

unfoldable pub wallet_created_at : Store → String → Option ℕ
wallet_created_at s wallet = elim (Dict.get s.wallet_creations wallet) [
  | none ↦ none
  | some e ↦ some e.created_at
]

-- A wallet without a creation record is not too new.
unfoldable pub wallet_too_new : Store → String → ℕ → Bool
wallet_too_new s wallet now = elim (wallet_created_at s wallet) [
  | none ↦ false
  | some created_at ↦ ltb now (created_at + hour_ms)
]

-- `new Set(texts)`, of which the code uses `has` and `size` alone.
unfoldable pub set_of : List String → List String
set_of [] = []
set_of (x ∷ xs) = let rest = set_of xs in if any (str_eq x) rest then rest else x ∷ rest

unfoldable pub ip_distinct_wallets : Store → String → ℕ → List String
ip_distinct_wallets s ip now = set_of (
    map (λ (c : Claim). c.wallet)
      (filter (recent_claim now) (listed (Dict.get s.ip_claims (norm_ip ip)))))

unfoldable pub ip_faucet_decision : Bool → Store → String → String → ℕ → Decision
ip_faucet_decision disabled s ip wallet now =
    let wallets = ip_distinct_wallets s ip now in
    if disabled
    then allowed
    else if any (str_eq wallet) wallets
    then allowed
    else if leb faucet_ip_wallet_limit (length wallets)
    then denied (ceil_div day_ms 1000) "ip_wallet_limit"
    else allowed

unfoldable pub record_faucet_claim : Store → String → String → String → ℕ → Store
record_faucet_claim s ip wallet fingerprint now =
    let key = norm_ip ip in
    let claim : Claim = record { wallet = wallet; fingerprint = fingerprint; at = now } in
    prune
      (record s {
        ip_claims = Dict.put s.ip_claims key (listed (Dict.get s.ip_claims key) ++ claim ∷ []);
        wallet_claim_counts =
            Dict.put s.wallet_claim_counts wallet
              (until_of (Dict.get s.wallet_claim_counts wallet) + 1);
      })
      now
