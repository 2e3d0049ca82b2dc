-- ===== src/RateLimit/Admin.antt =====
-- backend/middleware/adminAuth.js: the admin token and its lockout, over the shared counters. The
-- token is compared by its hash, which is a parameter.
pub mod Strikes
use Prim.Native.String.{slice, len}
use text.Mathlib.Text.{starts_with}
use vorliq.Common.{
  ℕ, ◌-◌, String, Bool, true, false, not, ◌||◌, str_eq, ltb, leb, ◌==◌, if◌then◌else◌, ceil_div,
}
use vorliq.Common.Text.{trim}
use vorliq.RateLimit.{Counter, Counters, record_hit, clear_hit, peek_hit}

abbrev pub failure_limit : ℕ
failure_limit = 5

abbrev pub window_ms : ℕ
window_ms = 600000

abbrev pub lock_ms : ℕ
lock_ms = 3600000

abbrev pub fail_space : String
fail_space = "admin-fail"

abbrev pub lock_space : String
lock_space = "admin-lock"

pub record_failure : Bool → Counters → String → ℕ → Counters
record_failure disabled store ip now =
    let (failed, counter) = record_hit store fail_space ip window_ms now in
    if disabled
    then store
    else if leb failure_limit counter.count
    then (record_hit failed lock_space ip lock_ms now).0
    else failed

pub locked_seconds : Bool → Counters → String → ℕ → ℕ
locked_seconds disabled store ip now =
    let lock = peek_hit store lock_space ip now in
    if disabled
    then 0
    else if lock.count == 0
    then 0
    else if ltb now lock.reset_at
    then ceil_div (lock.reset_at - now) 1000
    else 0

pub clear_failures : Counters → String → Counters
clear_failures store ip = clear_hit (clear_hit store fail_space ip) lock_space ip

-- `authorization.startsWith("Bearer ") ? authorization.slice(7).trim() : ""`
unfoldable pub provided_token : String → String
provided_token header =
    if starts_with header "Bearer " then trim (slice header 7 (len header)) else ""

pub data Reply : Type 0 where
  next : Reply
  unauthorized : Reply
  locked : ℕ → Reply

-- `!adminToken || !providedToken || !tokensMatch(providedToken, adminToken)`
unfoldable pub is_wrong : (String → String) → String → String → Bool
unfolding provided_token
is_wrong sha256_hex admin_token header =
    str_eq admin_token ""
    || str_eq (provided_token header) ""
    || not (str_eq (sha256_hex (provided_token header)) (sha256_hex admin_token))

pub admin_auth :
    (String → String) → Bool → String → Counters → String → String → ℕ → Counters × Reply
admin_auth sha256_hex disabled admin_token store ip header now =
    let wait = locked_seconds disabled store ip now in
    if ltb 0 wait
    then (store, locked wait)
    else if is_wrong sha256_hex admin_token header
    then (record_failure disabled store ip now, unauthorized)
    else (clear_failures store ip, next)
