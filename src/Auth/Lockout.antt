-- ===== src/Auth/Lockout.antt =====
-- backend/middleware/authLockout.js: the lockout of a client after repeated credential failures.
-- `attempts` is the module's Map; times are milliseconds, and `disabled` is the
-- VORLIQ_DISABLE_RATE_LIMITS flag. The key of a client is the text that `clientKey` returns.
pub mod Laws
pub mod Runs
mod Tests
use vorliq.Common.{
  ℕ, ◌+◌, ◌-◌, ◌*◌, String, Bool, true, false, not, ◌&&◌, ◌||◌, Option, none, some, ltb, leb, ◌==◌,
  if◌then◌else◌, ceil_div, max, str_eq,
}
use vorliq.Common.Dict
use vorliq.Common.Dict.{Dict}

-- The codes that signedAuthorization.js gives to its errors.
pub data Code : Type 0 where
  signed_authorization_required malformed expired action_mismatch domain_mismatch : Code
  wallet_invalid public_key_invalid wallet_mismatch actor_mismatch override_rejected : Code
  body_hash_mismatch message_mismatch signature_invalid replayed : Code

abbrev pub failure_limit : ℕ
failure_limit = 5

abbrev pub window_ms : ℕ
window_ms = 600000

abbrev pub lock_ms : ℕ
lock_ms = 600000

-- CREDENTIAL_FAILURE_CODES
abbrev pub is_credential_failure : Code → Bool
is_credential_failure signature_invalid = true
is_credential_failure wallet_mismatch = true
is_credential_failure public_key_invalid = true
is_credential_failure actor_mismatch = true
is_credential_failure wallet_invalid = true
is_credential_failure _ = false

pub record Entry : Type 0 where
  pub count : ℕ
  pub first_at : ℕ
  pub locked_until : ℕ

abbrev pub Attempts : Type 0
Attempts = Dict Entry

-- `req.ip || (req.connection && req.connection.remoteAddress) || "unknown"`; an absent field is "".
pub client_key : String → String → String
client_key ip remote =
    if not (str_eq ip "") then ip else if not (str_eq remote "") then remote else "unknown"

unfoldable pub remaining_of : Option Entry → ℕ → ℕ
remaining_of none now = 0
remaining_of (some e) now =
    if e.locked_until == 0
    then 0
    else if ltb now e.locked_until
    then ceil_div (e.locked_until - now) 1000
    else 0

unfoldable pub locked_seconds_remaining : Bool → Attempts → String → ℕ → ℕ
unfolding remaining_of
locked_seconds_remaining disabled attempts key now =
    if disabled then 0 else remaining_of (Dict.get attempts key) now

abbrev fresh_entry : ℕ → Entry
fresh_entry now = record { count = 0; first_at = now; locked_until = 0 }

-- `windowExpired`: the window has fully elapsed and no lock is active.
window_expired : Entry → ℕ → Bool
window_expired e now =
    ltb (e.first_at + window_ms) now && (e.locked_until == 0 || leb e.locked_until now)

-- The entry that a failure starts from.
current_entry : Option Entry → ℕ → Entry
unfolding window_expired
current_entry none now = fresh_entry now
current_entry (some e) now = if window_expired e now then fresh_entry now else e

bumped_entry : Entry → ℕ → Entry
bumped_entry e now = record {
  count = e.count + 1;
  first_at = e.first_at;
  locked_until = if leb failure_limit (e.count + 1) then now + lock_ms else e.locked_until;
}

unfoldable pub next_entry : Option Entry → ℕ → Entry
unfolding current_entry bumped_entry
next_entry found now = bumped_entry (current_entry found now) now

lock_seconds : Entry → ℕ → ℕ
lock_seconds e now = if ltb now e.locked_until then ceil_div (e.locked_until - now) 1000 else 0

unfoldable pub record_failure : Bool → Attempts → String → Code → ℕ → Attempts × ℕ
unfolding next_entry lock_seconds
record_failure disabled attempts key code now =
    if disabled || not (is_credential_failure code)
    then (attempts, 0)
    else (let entry = next_entry (Dict.get attempts key) now in
        (Dict.put attempts key entry, lock_seconds entry now))

unfoldable pub clear_failures : Attempts → String → Attempts
clear_failures attempts key = Dict.remove attempts key

-- The number of minutes that `lockoutMessage` writes.
pub lockout_minutes : ℕ → ℕ
lockout_minutes seconds = max 1 (ceil_div seconds 60)
