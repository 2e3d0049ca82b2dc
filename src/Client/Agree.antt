-- ===== src/Client/Agree.antt =====
-- What the page computes and what the gateway computes of the same payload.
use vorliq.Common.{ℕ, String, false, ◌≡◌, refl, Option, some, List, [], ◌∷◌, str_eq, ap, ◌∙◌}
use vorliq.Json.Defs.{obj, Fields}
use vorliq.Json.Canonical.{Row, canonical_json, canonical_rows, object_text}
use vorliq.Validation.Check.{set_field}
use vorliq.Auth.Signed.Crypto.{Runtime}
use vorliq.Auth.Signed.Envelope.{ok, Authorized}
use vorliq.Auth.Signed.Verify.{body_hash, authorization_message}
use vorliq.Client.Browser.{Browser, done, hex_text}
use vorliq.Client.Wallet.{LocalWallet, load_wallet}
use vorliq.Client.Signer.{sha256_hex, extract_private_scalar, sign_message}
use vorliq.Client.Authority.{
  authorization_domain, ActionConfig, action_config, Signed, envelope, authority_message,
  authority_body_hash, payload_of, signed_of, sign_request, has_forbidden, check_request,
  create_signed_authority_request,
}
use vorliq.Client.Sealed.{IsSamePlatform}

-- The page signs what the gateway checks.
pub message-agrees :
    (run : Runtime) (browser : Browser) (same : IsSamePlatform run browser) (s : Signed)
    (a : Authorized)
    → a.action ≡ s.action
    → a.wallet ≡ s.wallet
    → a.nonce ≡ s.nonce
    → a.timestamp ≡ s.timestamp
    → a.body_hash ≡ s.body_hash
    → (message : String) × (authority_message browser s ≡ done message)
      × (authorization_message run a ≡ ok message)
unfolding authority_message authorization_message canonical_json
message-agrees run browser same s a action wallet nonce timestamp hash = (
  _,
  refl,
  ap ok (
      ap
        (λ (x : (String → String) × (String × (String × (String × (String × String))))).
          object_text x.0 (
            ("action", x.0 x.1.0)
            ∷ ("body_hash", x.0 x.1.1.0)
            ∷ ("domain", x.0 authorization_domain)
            ∷ ("nonce", x.0 x.1.1.1.0)
            ∷ ("timestamp", x.1.1.1.1.0)
            ∷ ("wallet", x.0 x.1.1.1.1.1)
            ∷ []))
        (cc (same.quoted, action, wallet, nonce, hash, timestamp, same.printed s.timestamp))),
)

pub client_hash :
    (browser : Browser) (payload : Fields) {rows : List Row}
    → canonical_rows browser.quote payload ≡ some rows
    → authority_body_hash browser payload
      ≡ done (sha256_hex browser (object_text browser.quote rows))
unfolding authority_body_hash canonical_json
client_hash browser payload h = rw h refl

server_hash :
    (run : Runtime) (payload : Fields) {rows : List Row}
    → canonical_rows run.quote payload ≡ some rows
    → body_hash run payload ≡ ok (run.sha256_hex (object_text run.quote rows))
unfolding body_hash canonical_json
server_hash run payload h = rw h refl

-- The two hashes of a payload.
pub hash-agrees :
    (run : Runtime) (browser : Browser) (same : IsSamePlatform run browser) (payload : Fields)
    {rows : List Row}
    → canonical_rows browser.quote payload ≡ some rows
    → body_hash run payload ≡ ok (sha256_hex browser (object_text browser.quote rows))
unfolding sha256_hex
hash-agrees run browser same payload {rows} h =
    server_hash run payload (ap (λ q. canonical_rows q payload) same.quoted ∙ h)
    ∙ ap ok (
        same.hashed (object_text run.quote rows)
        ∙ ap (λ q. hex_text (browser.sha256 (browser.utf8 (object_text q rows)))) same.quoted)

pub sign_message-readable :
    (browser : Browser) (pem message : String) {scalar : String}
    → extract_private_scalar browser pem ≡ done scalar
    → sign_message browser pem message
      ≡ done (browser.sign_digest scalar (sha256_hex browser message))
unfolding sign_message
sign_message-readable browser pem message h = rw h refl

pub create-done :
    (browser : Browser) (stored : Option String) (action password : String) (body : Fields)
    (wallet : LocalWallet) (now_ms : ℕ) {c : ActionConfig} {hash message signature : String}
    → action_config action ≡ some c
    → str_eq password "" ≡ false
    → has_forbidden body ≡ false
    → load_wallet browser stored password ≡ done wallet
    → authority_body_hash browser (payload_of c body wallet) ≡ done hash
    → authority_message browser (signed_of browser action hash wallet now_ms) ≡ done message
    → sign_message browser wallet.private_key message ≡ done signature
    → create_signed_authority_request browser stored action (some (obj body)) password now_ms
      ≡ done (record {
        path = c.path;
        body =
            set_field "authorization"
              (obj (
                envelope browser
                  (signed_of browser action hash wallet now_ms)
                  wallet.public_key
                  signature
                  message))
              (payload_of c body wallet);
      })
unfolding create_signed_authority_request check_request sign_request
create-done browser stored action password body wallet now_ms found given clean loaded hashed said
      signed =
    rw (found, given, clean, loaded, hashed, said, signed) refl
