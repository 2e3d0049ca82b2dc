-- ===== src/Client/Sealed.antt =====
-- The page's request at the gateway: the hypotheses on the two platforms and on the wallet.
use vorliq.Common.{
  ℕ, ◌<◌, String, true, false, ◌≡◌, refl, some, List, ltb, arith, ap, ◌∙◌, All, length,
}
use vorliq.Common.Int.{ℤ}
use vorliq.Common.Text.{size, codes, lower_codes, trim}
use vorliq.Common.Trim.{trim_id}
use vorliq.Json.Defs.{Json, str, num, Fields, lookup}
use vorliq.Auth.Signed.Crypto.{Runtime, address_from_public_key}
use vorliq.Auth.Signed.Envelope.{
  is_absent, value_at, nonce_pattern, hash_pattern, signature_pattern, is_role_like,
}
use vorliq.Auth.Signed.Verify.{text_at}
use vorliq.Auth.Signed.Complete.{IsShaped}
use vorliq.Client.Browser.{Browser, done, hex_text}
use vorliq.Client.Wallet.{LocalWallet}
use vorliq.Client.Signer.{sha256_hex, extract_private_scalar}
use vorliq.Client.Authority.{authorization_domain, Signed, envelope}
use vorliq.Client.Hex.{
  IsSolid, IsHex-IsSolid, IsHex-lower, hex_text-IsHex, hash_pattern-hex, nonce_pattern-IsSolid,
  signature_pattern-IsSolid,
}

module _ (run : Runtime) (browser : Browser) where
  open run use {to_text, to_integer, verify}

  -- Node and the browser agree on the texts of JSON and on sha-256, and read back what they print.
  pub record IsSamePlatform : Type 0 where
    pub text : (s : String) → to_text (str s) ≡ s
    pub stamp : (t : ℤ) → to_integer (num (browser.integer_text t)) ≡ some t
    pub quoted : run.quote ≡ browser.quote
    pub printed : (t : ℤ) → run.integer_text t ≡ browser.integer_text t
    pub hashed : (s : String) → run.sha256_hex s ≡ hex_text (browser.sha256 (browser.utf8 s))
    pub digest_bytes : (bytes : List ℕ) → All (λ byte. byte < 256) (browser.sha256 bytes)
    pub digest_size : (bytes : List ℕ) → length (browser.sha256 bytes) ≡ 32

  -- A wallet whose address is the one of its public key, of a size that the gateway takes, and
  -- whose private key makes signatures that the public key verifies.
  pub record IsWallet (wallet : LocalWallet) : Type 0 where
    pub address : address_from_public_key run wallet.public_key ≡ some wallet.address
    pub solid : IsSolid wallet.address
    pub ordinary : is_role_like wallet.address ≡ false
    pub short : ltb 96 (size wallet.address) ≡ false
    pub key_size : ltb 2000 (size wallet.public_key) ≡ false
    pub scalar : String
    pub readable : extract_private_scalar browser wallet.private_key ≡ done scalar
    pub signs :
        (message : String)
        → verify message wallet.public_key (browser.sign_digest scalar (sha256_hex browser message))
          ≡ true
    pub pattern :
        (digest : String) → signature_pattern (codes (browser.sign_digest scalar digest)) ≡ true
    pub signature_size :
        (digest : String) → ltb 512 (size (browser.sign_digest scalar digest)) ≡ false

  module _ (same : IsSamePlatform) where
    pub sha256_hex-IsHex :
        (s : String)
        → (hash_pattern (lower_codes (sha256_hex browser s)) ≡ true)
          × IsSolid (sha256_hex browser s)
          × (lower_codes (sha256_hex browser s) ≡ codes (sha256_hex browser s))
    unfolding sha256_hex lower_codes
    sha256_hex-IsHex s =
        let bytes = browser.sha256 (browser.utf8 s) in
        let below = same.digest_bytes (browser.utf8 s) in
        let (hex, _) = hex_text-IsHex bytes below in
        let lower = IsHex-lower (codes (hex_text bytes)) hex in
        (
          rw lower (hash_pattern-hex bytes below (same.digest_size (browser.utf8 s))),
          IsHex-IsSolid (hex_text bytes) hex,
          lower,
        )

    pub value_at-eq :
        (auth : Fields) (name : String) {v : Json}
        → lookup name auth ≡ some v
        → value_at auth name ≡ v
    unfolding value_at
    value_at-eq auth name e = ground arith

    text_at-eq :
        (auth : Fields) (name s : String)
        → lookup name auth ≡ some (str s)
        → IsSolid s
        → text_at run auth name ≡ s
    unfolding text_at
    text_at-eq auth name s e solid =
        ap (λ v. trim (to_text v)) (value_at-eq auth name e)
        ∙ ap trim (same.text s)
        ∙ trim_id s solid

    text-value_at :
        (auth : Fields) (name s : String)
        → lookup name auth ≡ some (str s)
        → to_text (value_at auth name) ≡ s
    text-value_at auth name s e = ap to_text (value_at-eq auth name e) ∙ same.text s

    -- What the texts of the envelope satisfy.
    pub record IsSealed (s : Signed) (key sig text : String) : Type 0 where
      pub wallet : IsSolid s.wallet
      pub short : ltb 96 (size s.wallet) ≡ false
      pub key_size : ltb 2000 (size key) ≡ false
      pub signature : signature_pattern (codes sig) ≡ true
      pub signature_size : ltb 512 (size sig) ≡ false
      pub message_size : ltb 2000 (size text) ≡ false
      pub nonce : nonce_pattern s.nonce ≡ true
      pub action : IsSolid s.action
      pub hash : hash_pattern (lower_codes s.body_hash) ≡ true
      pub hash_solid : IsSolid s.body_hash

    module _ (s : Signed) (pk sig message : String) (h : IsSealed s pk sig message) where
      abbrev pub auth : Fields
      auth = envelope browser s pk sig message

      pub at_wallet : text_at run auth "wallet" ≡ s.wallet
      at_wallet = text_at-eq auth "wallet" s.wallet (unfold lookup envelope in refl) h.wallet

      pub at_signature : text_at run auth "signature" ≡ sig
      at_signature =
          text_at-eq auth "signature" sig (unfold lookup envelope in refl)
            (signature_pattern-IsSolid sig h.signature)

      pub at_nonce : text_at run auth "nonce" ≡ s.nonce
      at_nonce =
          text_at-eq auth "nonce" s.nonce (unfold lookup envelope in refl)
            (nonce_pattern-IsSolid s.nonce h.nonce)

      pub at_action : text_at run auth "action" ≡ s.action
      at_action = text_at-eq auth "action" s.action (unfold lookup envelope in refl) h.action

      pub at_hash : text_at run auth "body_hash" ≡ s.body_hash
      at_hash =
          text_at-eq auth "body_hash" s.body_hash (unfold lookup envelope in refl) h.hash_solid

      pub at_key : to_text (value_at auth "public_key") ≡ pk
      at_key = text-value_at auth "public_key" pk (unfold lookup envelope in refl)

      pub at_message : value_at auth "message" ≡ str message
      at_message = value_at-eq auth "message" (unfold lookup envelope in refl)

      pub at_domain : value_at auth "domain" ≡ str authorization_domain
      at_domain = value_at-eq auth "domain" (unfold lookup envelope in refl)

      at_stamp : value_at auth "timestamp" ≡ num (browser.integer_text s.timestamp)
      at_stamp = value_at-eq auth "timestamp" (unfold lookup envelope in refl)

      pub shaped : IsShaped run auth s.timestamp
      shaped = record {
        complete = unfold lookup envelope is_absent in refl;
        wallet_size = rw at_wallet h.short;
        key_size = rw at_key h.key_size;
        signature_size = rw at_signature h.signature_size;
        message_size = rw (at_message, same.text message) h.message_size;
        stamp = ap to_integer at_stamp ∙ same.stamp s.timestamp;
        nonce = rw at_nonce h.nonce;
        hash = rw at_hash h.hash;
      }
