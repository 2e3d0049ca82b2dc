-- ===== src/Auth/Lockout/Laws.antt =====
-- What one failure, one success and the passing of time do to a client's lock.
use vorliq.Common.{
  ℕ, ◌+◌, ◌≤◌, ◌<◌, String, Bool, true, false, ◌≡◌, some, arith, str_eq, eq_refl, ◌↔◌,
}
use vorliq.Common.Dict
use vorliq.Common.Dict.{get-put}
use vorliq.Auth.Lockout.{
  Attempts, Entry, Code, is_credential_failure, lock_ms, remaining_of, next_entry, record_failure,
}

pub remaining-pos : (e : Entry) (now : ℕ) → (0 < remaining_of (some e) now) ↔ (now < e.locked_until)
unfolding remaining_of
remaining-pos e now = (λ h. ground arith, λ h. ground arith)

-- The entry of the client after a credential failure.
pub get-record_failure_self :
    (attempts : Attempts) (key : String) (code : Code) (now : ℕ)
    → is_credential_failure code ≡ true
    → Dict.get (record_failure false attempts key code now).0 key
      ≡ some (next_entry (Dict.get attempts key) now)
unfolding record_failure
get-record_failure_self attempts key code now h = rw (h, get-put, eq_refl)

-- A failure of one client, of whatever kind, leaves every other client's entry as it was.
pub get-record_failure_ne :
    (disabled : Bool) (attempts : Attempts) (key other : String) (code : Code) (now : ℕ)
    → str_eq key other ≡ false
    → Dict.get (record_failure disabled attempts key code now).0 other ≡ Dict.get attempts other
unfolding record_failure
get-record_failure_ne disabled attempts key other code now h =
    ground (arith, get-put attempts key other (next_entry (Dict.get attempts key) now))

-- A running lock is not shortened by another failure.
pub next_entry-lock-le :
    (e : Entry) (now : ℕ)
    → now < e.locked_until
    → e.first_at ≤ now
    → e.locked_until ≤ now + lock_ms
    → e.locked_until ≤ (next_entry (some e) now).locked_until
unfolding next_entry
next_entry-lock-le e now h t b = ground arith
