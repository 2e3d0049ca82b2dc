-- ===== src/RateLimit/Limiters.antt =====
-- backend/middleware/rateLimits.js: the limiters that keep their counters in the shared store. The package
-- express-rate-limit counts each request there, and `admits` is its comparison of the hits with the limit.
use Prim.Native.String.{◌++◌ as join}
use vorliq.Common.{
  ℕ, ◌-◌, ◌*◌, max, String, Bool, Option, none, some, List, [], ◌∷◌, ceil_div, ltb, if◌then◌else◌,
}
use vorliq.Json.Defs.{Json, Fields, lookup}
use vorliq.Json.Truth.{is_truthy, either}
use vorliq.NodeLifecycle.{cut}
use vorliq.RateLimit.{Counter, Counters, record_hit}

-- The seconds until the counter is reset, or the whole window where the request has no such time.
unfoldable pub retry_after_seconds : Option ℕ → ℕ → ℕ → ℕ
retry_after_seconds (some reset) window now = max 1 (ceil_div (reset - now) 1000)
retry_after_seconds none window now = max 1 (ceil_div (if ltb 0 window then window else 60000) 1000)

abbrev pub wallet_fields : List String
wallet_fields =
    "sender_address" ∷ "senderAddress" ∷ "voter_address" ∷ "voterAddress" ∷ "author_address"
    ∷ "authorAddress" ∷ "requester_address" ∷ "requesterAddress" ∷ "repayer_address"
    ∷ "repayerAddress" ∷ "proposer_address" ∷ "proposerAddress" ∷ "wallet_address" ∷ "walletAddress"
    ∷ []

-- The first of the fields that counts as true.
unfoldable pub acting_wallet : List String → Fields → Option Json
acting_wallet [] body = none
acting_wallet (name ∷ names) body = either (lookup name body) (acting_wallet names body)

abbrev pub key_of : (Json → String) → String → Option Json → String
key_of to_string ip none = join "ip:" ip
key_of to_string ip (some v) =
    if is_truthy (some v) then join "w:" (cut 160 (to_string v)) else join "ip:" ip

-- String of a value, and ipKeyGenerator of the address of the request
unfoldable pub wallet_key : (Json → String) → Fields → String → String
wallet_key to_string body ip = key_of to_string ip (acting_wallet wallet_fields body)

pub record Limiter : Type 0 where
  pub space : String
  pub window : ℕ
  pub limit : ℕ

abbrev pub wallet_limiter : Limiter
wallet_limiter = record { space = "wallet-create"; window = 60 * 60 * 1000; limit = 10 }

abbrev pub faucet_limiter : Limiter
faucet_limiter = record { space = "faucet"; window = 60 * 60 * 1000; limit = 6 }

abbrev pub per_wallet_write_limiter : Limiter
per_wallet_write_limiter = record { space = "per-wallet-write"; window = 60 * 1000; limit = 10 }

abbrev pub forum_post_limiter : Limiter
forum_post_limiter = record { space = "forum-post"; window = 60 * 1000; limit = 5 }

abbrev pub exchange_limiter : Limiter
exchange_limiter = record { space = "exchange"; window = 60 * 1000; limit = 20 }

abbrev pub cap : Bool → ℕ → ℕ
cap relaxed limit = if relaxed then 1_000_000 else limit

pub data Reply : Type 0 where
  next : Reply
  -- status 429, with the header Retry-After
  limited : ℕ → Reply

abbrev pub reply_to : (ℕ → ℕ → Bool) → Bool → Limiter → Counter → ℕ → Reply
reply_to admits relaxed l counter now =
    if admits (cap relaxed l.limit) counter.count
    then next
    else limited (retry_after_seconds (some counter.reset_at) l.window now)

-- A request under a limiter.
unfoldable pub serve : (ℕ → ℕ → Bool) → Bool → Limiter → Counters → String → ℕ → Counters × Reply
serve admits relaxed l store key now =
    let (after, counter) = record_hit store l.space key l.window now in
    (after, reply_to admits relaxed l counter now)
