-- ===== src/Client/Authority.antt =====
-- frontend/src/helpers/signedAuthority.js: the request that carries a signed authorization. The
-- canonical text is the gateway's, whose `canonicalJson` has the same clauses. An action is a text
-- that names no member of Object.prototype.
use Prim.Native.String.{◌++◌ as join}
use vorliq.Common.{
  ℕ, ◌/◌, String, Bool, false, not, ◌||◌, Option, none, some, List, [], ◌∷◌, str_eq, if◌then◌else◌,
}
use vorliq.Common.Text.{one_of}
use vorliq.Common.Int.{ℤ, pos}
use vorliq.Json.Defs.{Json, str, num, obj, Fields, end, field}
use vorliq.Json.Canonical.{canonical_json}
use vorliq.Validation.Check.{set_field}
use vorliq.Client.Browser.{
  Browser, hex_text, Outcome, done, thrown, ◌>>=◌, or_throw, require, unsupported_action,
  password_missing, body_not_object, forbidden_field, invalid_number,
}
use vorliq.Client.Wallet.{LocalWallet, load_wallet}
use vorliq.Client.Signer.{sha256_hex, sign_message}

abbrev pub authorization_domain : String
authorization_domain = "vorliq.authority.v1"

pub record ActionConfig : Type 0 where
  pub path : String
  pub actor_field : String

abbrev entry : String → String → String → String × ActionConfig
entry action path actor_field = (action, record { path = path; actor_field = actor_field })

-- AUTHORITY_ACTIONS
unfoldable pub authority_actions : List (String × ActionConfig)
authority_actions =
    entry "governance.propose" "/governance/propose" "proposer_address"
    ∷ entry "governance.vote" "/governance/vote" "voter_address"
    ∷ entry "governance.cancel" "/governance/cancel" "proposer_address"
    ∷ entry "treasury.propose" "/treasury/propose" "proposer_address"
    ∷ entry "treasury.vote" "/treasury/vote" "voter_address"
    ∷ entry "treasury.cancel" "/treasury/cancel" "proposer_address"
    ∷ entry "lending.request" "/lending/request" "requester_address"
    ∷ entry "lending.vote" "/lending/vote" "voter_address"
    ∷ entry "lending.repay" "/lending/repay" "repayer_address"
    ∷ entry "forum.post" "/forum/post" "author_address"
    ∷ entry "forum.reply" "/forum/reply" "author_address"
    ∷ entry "forum.feature" "/forum/feature" "voter_address"
    ∷ entry "profile.update" "/profiles/profile" "wallet_address"
    ∷ entry "profile.avatar" "/profiles/avatar" "wallet_address"
    ∷ entry "registry.verify_operator" "/registry/verify-operator" "operator_wallet_address"
    ∷ entry "exchange.offer" "/exchange/offer" "creator_address"
    ∷ entry "exchange.accept" "/exchange/accept" "acceptor_address"
    ∷ entry "exchange.complete" "/exchange/complete" "caller_address"
    ∷ entry "exchange.confirm_complete" "/exchange/confirm-complete" "caller_address"
    ∷ entry "exchange.record_vlq_tx" "/exchange/record-vlq-tx" "caller_address"
    ∷ entry "exchange.dispute" "/exchange/dispute" "caller_address"
    ∷ entry "exchange.cancel" "/exchange/cancel" "caller_address"
    ∷ entry "notifications.preferences" "/notifications/preferences" "wallet_address"
    ∷ []

unfoldable pub find_action : String → List (String × ActionConfig) → Option ActionConfig
find_action action [] = none
find_action action ((a, config) ∷ rest) =
    let later = find_action action rest in if str_eq a action then some config else later

unfoldable pub action_config : String → Option ActionConfig
unfolding find_action authority_actions
action_config action = find_action action authority_actions

abbrev pub forbidden_body_fields : List String
forbidden_body_fields =
    "authorization" ∷ "private_key" ∷ "privateKey" ∷ "wallet_password" ∷ "walletPassword"
    ∷ "password" ∷ []

-- `Object.keys(body).some((field) => FORBIDDEN_BODY_FIELDS.has(field))`
unfoldable pub has_forbidden : Fields → Bool
has_forbidden end = false
has_forbidden (field k v fs) = one_of forbidden_body_fields k || has_forbidden fs

-- `createAuthorityNonce`
unfoldable pub create_authority_nonce : Browser → String
unfolding hex_text
create_authority_nonce browser = elim browser.random_uuid [
  | none ↦ join "authority-" (hex_text (browser.random_bytes 24))
  | some uuid ↦ join "authority-" uuid
]

unfoldable pub authority_body_hash : Browser → Fields → Outcome String
unfolding sha256_hex
authority_body_hash browser body = do
  text ← or_throw (canonical_json browser.quote (obj body)) invalid_number
  done (sha256_hex browser text)

-- What the envelope says.
pub record Signed : Type 0 where
  pub action : String
  pub body_hash : String
  pub nonce : String
  pub timestamp : ℤ
  pub wallet : String

unfoldable pub authority_message : Browser → Signed → Outcome String
authority_message browser s =
    or_throw
      (canonical_json browser.quote (
        obj (
          field "action" (str s.action) (
            field "body_hash" (str s.body_hash) (
              field "domain" (str authorization_domain) (
                field "nonce" (str s.nonce) (
                  field "timestamp" (num (browser.integer_text s.timestamp))
                    (field "wallet" (str s.wallet) end))))))))
      invalid_number

unfoldable pub envelope : Browser → Signed → String → String → String → Fields
envelope browser s public_key signature message = field "wallet" (str s.wallet) (
    field "public_key" (str public_key) (
      field "signature" (str signature) (
        field "message" (str message) (
          field "timestamp" (num (browser.integer_text s.timestamp)) (
            field "nonce" (str s.nonce) (
              field "action" (str s.action) (
                field "body_hash" (str s.body_hash)
                  (field "domain" (str authorization_domain) end))))))))

pub record SignedRequest : Type 0 where
  pub path : String
  pub body : Fields

-- `{ ...body, [config.actorField]: localWallet.address }`
unfoldable pub payload_of : ActionConfig → Fields → LocalWallet → Fields
payload_of config body wallet = set_field config.actor_field (str wallet.address) body

unfoldable pub signed_of : Browser → String → String → LocalWallet → ℕ → Signed
unfolding create_authority_nonce
signed_of browser action hash wallet now_ms = record {
  action = action;
  body_hash = hash;
  nonce = create_authority_nonce browser;
  timestamp = pos (now_ms / 1000);
  wallet = wallet.address;
}

-- From `const payload` on, at a time in milliseconds.
unfoldable pub sign_request :
    Browser → ActionConfig → String → Fields → LocalWallet → ℕ → Outcome SignedRequest
unfolding payload_of signed_of authority_body_hash authority_message envelope
sign_request browser config action body wallet now_ms = do
  hash ← authority_body_hash browser (payload_of config body wallet)
  message ← authority_message browser (signed_of browser action hash wallet now_ms)
  signature ← sign_message browser wallet.private_key message
  done (record {
    path = config.path;
    body =
        set_field "authorization"
          (obj (
            envelope browser (signed_of browser action hash wallet now_ms) wallet.public_key
              signature message))
          (payload_of config body wallet);
  })

-- `!body || typeof body !== "object" || Array.isArray(body)` throws.
abbrev body_fields : Option Json → Outcome Fields
body_fields (some (obj fs)) = done fs
body_fields v = thrown body_not_object

-- The checks before the wallet is loaded.
unfoldable pub check_request : String → Option Json → String → Outcome (ActionConfig × Fields)
unfolding action_config has_forbidden
check_request action body password = do
  config ← or_throw (action_config action) unsupported_action
  ready ← require (not (str_eq password "")) password_missing
  fields ← body_fields body
  clean ← require (not (has_forbidden fields)) forbidden_field
  done (config, fields)

-- `createSignedAuthorityRequest` with what localStorage holds for the wallet.
unfoldable pub create_signed_authority_request :
    Browser → Option String → String → Option Json → String → ℕ → Outcome SignedRequest
unfolding check_request sign_request
create_signed_authority_request browser stored action body password now_ms = do
  checked ← check_request action body password
  wallet ← load_wallet browser stored password
  sign_request browser checked.0 action checked.1 wallet now_ms
