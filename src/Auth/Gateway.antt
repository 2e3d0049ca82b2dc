-- ===== src/Auth/Gateway.antt =====
-- `requireSignedAuthorityWrite` of backend/middleware/signedAuthorization.js: the lockout around
-- the verification of a signed write. A request reads the clock once, in milliseconds.
pub mod Laws
pub mod Strikes
mod Sample
mod Tests
use vorliq.Common.{
  ℕ, ◌/◌, ◌<◌, String, Bool, true, false, not, ◌||◌, Option, none, some, str_eq, ltb, if◌then◌else◌,
  ◌==◌,
}
use vorliq.Json.Defs.{Fields}
use vorliq.Auth.Lockout.{Attempts, Code, locked_seconds_remaining, record_failure, clear_failures}
use vorliq.Auth.Signed.Crypto.{Runtime}
use vorliq.Auth.Signed.Routes.{RouteConfig, route_config, status_of}
use vorliq.Auth.Signed.Envelope.{Result, ok, fail, Authorized}
use vorliq.Auth.Signed.Verify.{Nonces, verify_signed_authorization}

pub record Gateway : Type 0 where
  pub attempts : Attempts
  pub nonces : Nonces

-- `next()` with `req.signedAuthorization`, if it was set; an error response; or the 429 response
-- WALLET_AUTH_LOCKED with the seconds left.
pub data Reply : Type 0 where
  next : Option Authorized → Reply
  error : ℕ → Code → Reply
  locked : ℕ → Reply

pub record Request : Type 0 where
  pub method : String
  pub path : String
  pub client : String
  pub body : Fields
  pub now : ℕ

abbrev pub seconds : ℕ → ℕ
seconds ms = ms / 1000

-- `req.method === "POST" && AUTHORITY_ROUTES.has(req.path)`
pub is_authority_write : Request → Bool
is_authority_write r = elim (route_config r.path) [ none ↦ false | some _ ↦ str_eq r.method "POST" ]

-- The `catch` of the handler.
pub refuse : Bool → Gateway → Request → Nonces → Code → Gateway × Reply
refuse disabled g r nonces code =
    let (attempts, wait) = record_failure disabled g.attempts r.client code r.now in
    (
      record { attempts = attempts; nonces = nonces },
      (if ltb 0 wait then locked wait else error (status_of code) code),
    )

pub answer : Bool → Gateway → Request → Nonces × Result (Option Authorized) → Gateway × Reply
unfolding refuse
answer disabled g r (nonces, ok a) =
    (record { attempts = clear_failures g.attempts r.client; nonces = nonces }, next a)
answer disabled g r (nonces, fail code) = refuse disabled g r nonces code

pub require_signed_authority_write : Runtime → Bool → Gateway → Request → Gateway × Reply
unfolding answer is_authority_write
require_signed_authority_write run disabled g r =
    let wait = locked_seconds_remaining disabled g.attempts r.client r.now in
    if not (is_authority_write r)
    then (g, next none)
    else if ltb 0 wait
    then (g, locked wait)
    else answer disabled g r
        (verify_signed_authorization run g.nonces r.body r.path (seconds r.now))
