-- ===== src/Auth/Signed/Verify.antt =====
-- `verifySignedAuthorization`: the checks in the order of the source, each with the code of the
-- error that it throws, and the record of used nonces that the last step keeps.
use Prim.Native.String.{◌++◌}
use vorliq.Common.{
  ℕ, String, not, ◌&&◌, ◌||◌, Option, none, some, List, [], ◌∷◌, str_eq, ltb, if◌then◌else◌, any,
}
use vorliq.Common.Dict
use vorliq.Common.Dict.{Dict}
use vorliq.Common.Int.{ℤ, pos, leb_ℤ, ◌+ℤ◌}
use vorliq.Common.Text.{trim, size, codes, lower_codes, codes_eq}
use vorliq.Json.Defs.{str, obj, num, Fields, end, field, lookup, without_authorization}
use vorliq.Json.Canonical.{canonical_json}
use vorliq.Auth.Lockout.{
  malformed, expired, action_mismatch, domain_mismatch, wallet_invalid, public_key_invalid,
  wallet_mismatch, actor_mismatch, override_rejected, body_hash_mismatch, message_mismatch,
  signature_invalid, replayed,
}
use vorliq.Auth.Signed.Envelope.{
  Result, ok, fail, ◌>>=◌, ◌>>◌, require, or_fail, Authorized, required_fields, is_absent,
  authorization_object, value_at, nonce_pattern, hash_pattern, signature_pattern, is_text,
  is_role_like, has_override, in_window,
}
use vorliq.Auth.Signed.Crypto.{Runtime, address_from_public_key}
use vorliq.Auth.Signed.Routes.{
  RouteConfig, route_config, authorization_domain, max_age_seconds, future_skew_seconds,
}

module _ (run : Runtime) where
  open run use {to_text, to_integer, quote, integer_text, sha256_hex, verify}

  actor_values : Fields → List String → List String
  actor_values payload [] = []
  actor_values payload (name ∷ names) = elim (lookup name payload) [
    | none ↦ actor_values payload names
    | some v ↦ trim (to_text v) ∷ actor_values payload names
  ]

  same_values : List String → Result String
  same_values [] = fail actor_mismatch
  same_values (v ∷ vs) = if any (λ w. not (str_eq w v)) (v ∷ vs) then fail actor_mismatch else ok v

  -- `actorFromPayload`
  unfoldable pub actor_from_payload : Fields → List String → Result String
  unfolding actor_values same_values
  actor_from_payload payload names = same_values (actor_values payload names)

  -- `bodyHash`
  unfoldable pub body_hash : Fields → Result String
  body_hash payload = do
    text ← or_fail (canonical_json quote (obj payload)) malformed
    ok (sha256_hex text)

  -- `authorizationMessage`
  unfoldable pub authorization_message : Authorized → Result String
  authorization_message a =
      or_fail
        (canonical_json quote (
          obj (
            field "action" (str a.action) (
              field "body_hash" (str a.body_hash) (
                field "domain" (str authorization_domain) (
                  field "nonce" (str a.nonce) (
                    field "timestamp" (num (integer_text a.timestamp))
                      (field "wallet" (str a.wallet) end))))))))
        malformed

  unfoldable pub text_at : Fields → String → String
  unfolding value_at
  text_at auth name = trim (to_text (value_at auth name))

  -- The sizes and patterns of the envelope; the result is the timestamp.
  unfoldable pub check_shape : Fields → Result ℤ
  unfolding text_at is_absent nonce_pattern hash_pattern
  check_shape auth = do
    require (not (any (λ name. is_absent (lookup name auth)) required_fields)) malformed
    require
        (not (
          ltb 96 (size (text_at auth "wallet"))
          || ltb 2000 (size (to_text (value_at auth "public_key")))
          || ltb 512 (size (text_at auth "signature"))
          || ltb 2000 (size (to_text (value_at auth "message")))))
        malformed
    timestamp ← or_fail (to_integer (value_at auth "timestamp")) malformed
    require
        (nonce_pattern (text_at auth "nonce")
          && hash_pattern (lower_codes (text_at auth "body_hash")))
        malformed
    ok timestamp

  -- The clock window, the route's action, the domain, and that key, wallet and actor agree.
  unfoldable pub check_identity : RouteConfig → Fields → Fields → ℤ → ℕ → Result (Unit {0})
  unfolding text_at is_text is_role_like in_window
  check_identity config payload auth timestamp now = do
    require (in_window timestamp now) expired
    require (str_eq (text_at auth "action") config.action) action_mismatch
    require (is_text (value_at auth "domain") authorization_domain) domain_mismatch
    require (not (is_role_like (text_at auth "wallet"))) wallet_invalid
    address ←
        or_fail (address_from_public_key run (to_text (value_at auth "public_key")))
          public_key_invalid
    require (str_eq address (text_at auth "wallet")) wallet_mismatch
    actor ← actor_from_payload payload config.actor_fields
    require (str_eq actor (text_at auth "wallet")) actor_mismatch

  -- The payload's hash, the signed message and its signature.
  unfoldable pub check_signature : Fields → Fields → ℤ → Result Authorized
  unfolding text_at is_text has_override signature_pattern
  check_signature payload auth timestamp = do
    require (not (has_override payload)) override_rejected
    hash ← body_hash payload
    require (codes_eq (codes hash) (lower_codes (text_at auth "body_hash"))) body_hash_mismatch
    let authorized : Authorized = record {
      action = text_at auth "action";
      wallet = text_at auth "wallet";
      nonce = text_at auth "nonce";
      timestamp = timestamp;
      body_hash = hash;
    }
    message ← authorization_message authorized
    require (is_text (value_at auth "message") message) message_mismatch
    require
        (signature_pattern (codes (text_at auth "signature"))
          && verify message (to_text (value_at auth "public_key")) (text_at auth "signature"))
        signature_invalid
    ok authorized

  -- The function up to the nonces, for a route of the table.
  unfoldable pub check_authorization : RouteConfig → Fields → ℕ → Result Authorized
  check_authorization config body now = do
    auth ← authorization_object (lookup "authorization" body)
    timestamp ← check_shape auth
    check_identity config (without_authorization body) auth timestamp now
    check_signature (without_authorization body) auth timestamp

-- `usedNonces`: the time, in seconds, at which each nonce may be forgotten.
abbrev pub Nonces : Type 0
Nonces = Dict ℤ

-- `pruneNonces`
unfoldable pub prune_nonces : ℕ → Nonces → Nonces
prune_nonces now =
    Dict.revise (λ key expires_at. if leb_ℤ expires_at (pos now) then none else some expires_at)

-- `${wallet}:${nonce}`
unfoldable pub nonce_key : Authorized → String
nonce_key a = a.wallet ++ (":" ++ a.nonce)

unfoldable pub expiry : Authorized → ℤ
expiry a = a.timestamp +ℤ pos max_age_seconds +ℤ pos future_skew_seconds

unfoldable pub spend : Nonces → Authorized → Nonces × Result (Option Authorized)
unfolding nonce_key expiry
spend nonces a = elim (Dict.get nonces (nonce_key a)) [
  | none ↦ (Dict.put nonces (nonce_key a) (expiry a), ok (some a))
  | some _ ↦ (nonces, fail replayed)
]

unfoldable pub spend_checked : Nonces → ℕ → Result Authorized → Nonces × Result (Option Authorized)
unfolding spend
spend_checked nonces now (fail code) = (nonces, fail code)
spend_checked nonces now (ok a) = spend (prune_nonces now nonces) a

-- `none` in a success is the `null` of a route outside the table.
unfoldable pub verify_signed_authorization :
    Runtime → Nonces → Fields → String → ℕ → Nonces × Result (Option Authorized)
unfolding spend_checked
verify_signed_authorization run nonces body path now = elim (route_config path) [
  | none ↦ (nonces, ok none)
  | some config ↦ spend_checked nonces now (check_authorization run config body now)
]
