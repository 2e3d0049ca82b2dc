-- ===== src/Faucet/Block.antt =====
-- The block that follows too many wallet creations.
use vorliq.Common.{
  ℕ, ◌+◌, ◌-◌, ◌<◌, String, false, ◌≡◌, Option, some, List, [], ◌∷◌, arith, eq_iff, ltb, ceil_div,
  All, ap, inl, inr, Bool-cases,
}
use mathlib.Core.Bool.{false≢true}
use vorliq.Common.Dict
use vorliq.Common.Dict.{get-put, get-revise}
use vorliq.Faucet.{
  Store, Decision, allowed, denied, day_ms, norm_ip, prune, until_of, ban_ip, ban_wallet, unban_ip,
  unban_wallet, wallet_create_decision, record_wallet_creation, record_faucet_claim,
}

-- Every operation that writes the store.
pub data Operation : Type 0 where
  banning_ip banning_wallet : String → String → Operation
  unbanning_ip unbanning_wallet : String → Operation
  creating : String → Operation
  created : String → String → Operation
  claimed : String → String → String → Operation

unfoldable pub apply : Store → Operation → ℕ → Store
apply s (banning_ip ip reason) now = ban_ip s ip reason now
apply s (banning_wallet wallet reason) now = ban_wallet s wallet reason now
apply s (unbanning_ip ip) now = unban_ip s ip now
apply s (unbanning_wallet wallet) now = unban_wallet s wallet now
apply s (creating ip) now = (wallet_create_decision false s ip now).0
apply s (created wallet ip) now = record_wallet_creation s wallet ip now
apply s (claimed ip wallet fingerprint) now = record_faucet_claim s ip wallet fingerprint now

unfoldable pub apply_all : Store → List (Operation × ℕ) → Store
apply_all s [] = s
apply_all s ((o, now) ∷ rest) = apply_all (apply s o now) rest

abbrev blocked : Store → String → Option ℕ
blocked s key = Dict.get s.ip_create_blocked_until key

blocked-prune :
    (s : Store) (key : String) (until now : ℕ)
    → blocked s key ≡ some until
    → now < until
    → blocked (prune s now) key ≡ some until
unfolding prune
blocked-prune s key until now h live = rw (get-revise, h) (ground arith)

blocked-creating :
    (s : Store) (key ip : String) (until now : ℕ)
    → blocked s key ≡ some until
    → now < until
    → blocked (wallet_create_decision false s ip now).0 key ≡ some until
unfolding wallet_create_decision
blocked-creating s key ip until now h live = ground (
  arith,
  blocked-prune
      (record s {
        ip_create_blocked_until = Dict.put s.ip_create_blocked_until (norm_ip ip) (now + day_ms);
      })
      key until now,
  get-put s.ip_create_blocked_until (norm_ip ip) key (now + day_ms),
  eq_iff (norm_ip ip) key,
)

blocked-apply :
    (s : Store) (o : Operation) (key : String) (until now : ℕ)
    → blocked s key ≡ some until
    → now < until
    → blocked (apply s o now) key ≡ some until
unfolding apply ban_ip ban_wallet unban_ip unban_wallet record_wallet_creation record_faucet_claim
blocked-apply s (creating ip) key until now h live = blocked-creating s key ip until now h live
blocked-apply s (banning_ip ip reason) key until now h live = blocked-prune _ key until now h live
blocked-apply s (banning_wallet wallet reason) key until now h live =
    blocked-prune _ key until now h live
blocked-apply s (unbanning_ip ip) key until now h live = blocked-prune _ key until now h live
blocked-apply s (unbanning_wallet wallet) key until now h live =
    blocked-prune _ key until now h live
blocked-apply s (created wallet ip) key until now h live = blocked-prune _ key until now h live
blocked-apply s (claimed ip wallet fingerprint) key until now h live =
    blocked-prune _ key until now h live

blocked-apply_all :
    (s : Store) (operations : List (Operation × ℕ)) (key : String) (until : ℕ)
    → blocked s key ≡ some until
    → All (λ (e : Operation × ℕ). e.1 < until) operations
    → blocked (apply_all s operations) key ≡ some until
unfolding apply_all
blocked-apply_all s [] key until h early = h
blocked-apply_all s ((o, now) ∷ rest) key until h (here, early) =
    blocked-apply_all (apply s o now) rest key until (blocked-apply s o key until now h here) early

blocked_by_velocity :
    (s : Store) (ip : String) (now : ℕ)
    → (wallet_create_decision false s ip now).1 ≡ denied 86400 "velocity"
    → ltb now (until_of (Dict.get s.ip_create_blocked_until (norm_ip ip))) ≡ false
    → blocked (wallet_create_decision false s ip now).0 (norm_ip ip) ≡ some (now + day_ms)
unfolding wallet_create_decision
blocked_by_velocity s ip now h free = ground (
  arith,
  blocked-prune
      (record s {
        ip_create_blocked_until = Dict.put s.ip_create_blocked_until (norm_ip ip) (now + day_ms);
      })
      (norm_ip ip) (now + day_ms) now,
  get-put s.ip_create_blocked_until (norm_ip ip) (norm_ip ip) (now + day_ms),
  eq_iff (norm_ip ip) (norm_ip ip),
)

denied_of_blocked :
    (s : Store) (ip : String) (until later : ℕ)
    → blocked s (norm_ip ip) ≡ some until
    → later < until
    → wallet_create_decision false s ip later
      ≡ (s, denied (ceil_div (until - later) 1000) "blocked")
unfolding wallet_create_decision
denied_of_blocked s ip until later h soon = ground arith

reason_of : Decision → String
reason_of allowed = ""
reason_of (denied seconds reason) = reason

blocked≢velocity : ◌≡◌ {A = String} "blocked" "velocity" → ⊥
blocked≢velocity p = false≢true ((eq_iff "blocked" "velocity").1 p)

-- A denial for the velocity shows that no block was running.
free_of_velocity :
    (s : Store) (ip : String) (now : ℕ)
    → (wallet_create_decision false s ip now).1 ≡ denied 86400 "velocity"
    → ltb now (until_of (Dict.get s.ip_create_blocked_until (norm_ip ip))) ≡ false
unfolding wallet_create_decision reason_of
free_of_velocity s ip now h =
    elim (Bool-cases (ltb now (until_of (Dict.get s.ip_create_blocked_until (norm_ip ip))))) [
      | inl running ↦ absurd (blocked≢velocity (ap reason_of (rw running at h)))
      | inr free ↦ free
    ]

-- Once an address has been denied a wallet at time `now` because of its
-- velocity, then for 24 hours every further wallet is denied to it, with the seconds that are left
-- of the block, whatever operations at times before the end of the block come in between.
pub block_holds :
    (s : Store) (ip : String) (now : ℕ) (operations : List (Operation × ℕ)) (later : ℕ)
    → (wallet_create_decision false s ip now).1 ≡ denied 86400 "velocity"
    → All (λ (e : Operation × ℕ). e.1 < now + day_ms) operations
    → later < now + day_ms
    → wallet_create_decision false
        (apply_all (wallet_create_decision false s ip now).0 operations)
        ip
        later
      ≡ (
        apply_all (wallet_create_decision false s ip now).0 operations,
        denied (ceil_div (now + day_ms - later) 1000) "blocked",
      )
block_holds s ip now operations later h early soon =
    let one = (wallet_create_decision false s ip now).0 in
    let held =
      blocked-apply_all one operations (norm_ip ip) (now + day_ms)
        (blocked_by_velocity s ip now h (free_of_velocity s ip now h)) early in
    denied_of_blocked (apply_all one operations) ip (now + day_ms) later held soon
