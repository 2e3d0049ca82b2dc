-- ===== src/Auth/Signed/Complete.antt =====
-- From the facts that the checks read to the results that they give.
use vorliq.Common.{
  ℕ, String, true, false, ◌≡◌, refl, some, none, [], ◌∷◌, str_eq, any, ltb, arith, eq_refl,
}
use vorliq.Common.Int.{ℤ}
use vorliq.Common.Dict
use vorliq.Common.Text.{size, trim, codes, lower_codes, codes_eq}
use vorliq.Json.Defs.{Json, obj, Fields, lookup, without_authorization}
use vorliq.Auth.Signed.Crypto.{Runtime, address_from_public_key}
use vorliq.Auth.Signed.Routes.{RouteConfig, authorization_domain}
use vorliq.Auth.Signed.Envelope.{
  ok, Authorized, required_fields, is_absent, authorization_object, value_at, nonce_pattern,
  hash_pattern, signature_pattern, is_text, is_role_like, has_override, in_window,
}
use vorliq.Auth.Signed.Verify.{
  actor_from_payload, body_hash, authorization_message, text_at, check_shape, check_identity,
  check_signature, check_authorization, Nonces, nonce_key, expiry, spend,
}

module _ (run : Runtime) where
  open run use {to_text, to_integer, verify}

  authorization_object-obj : (fs : Fields) → authorization_object (some (obj fs)) ≡ ok fs
  unfolding authorization_object
  authorization_object-obj fs = refl

  -- The actor where the payload has one of the two names.
  pub actor_from_payload-one :
      (payload : Fields) (name alias : String) (v : Json)
      → lookup name payload ≡ some v
      → lookup alias payload ≡ none
      → actor_from_payload run payload (name ∷ alias ∷ []) ≡ ok (trim (to_text v))
  unfolding actor_from_payload
  actor_from_payload-one payload name alias v found missing =
      ground (arith, eq_refl (trim (to_text v)))

  -- What the three groups of checks ask of an envelope.
  pub record IsShaped (auth : Fields) (timestamp : ℤ) : Type 0 where
    pub complete : any (λ name. is_absent (lookup name auth)) required_fields ≡ false
    pub wallet_size : ltb 96 (size (text_at run auth "wallet")) ≡ false
    pub key_size : ltb 2000 (size (to_text (value_at auth "public_key"))) ≡ false
    pub signature_size : ltb 512 (size (text_at run auth "signature")) ≡ false
    pub message_size : ltb 2000 (size (to_text (value_at auth "message"))) ≡ false
    pub stamp : to_integer (value_at auth "timestamp") ≡ some timestamp
    pub nonce : nonce_pattern (text_at run auth "nonce") ≡ true
    pub hash : hash_pattern (lower_codes (text_at run auth "body_hash")) ≡ true

  check_shape-ok :
      (auth : Fields) (timestamp : ℤ)
      → IsShaped auth timestamp
      → check_shape run auth ≡ ok timestamp
  unfolding check_shape
  check_shape-ok auth timestamp h =
      rw
        (
          h.complete, h.wallet_size, h.key_size, h.signature_size, h.message_size, h.stamp, h.nonce,
          h.hash,
        )
        refl

  pub record IsBoundTo (config : RouteConfig) (payload auth : Fields) (timestamp : ℤ) (now : ℕ)
      : Type 0 where
    pub fresh : in_window timestamp now ≡ true
    pub action : str_eq (text_at run auth "action") config.action ≡ true
    pub domain : is_text (value_at auth "domain") authorization_domain ≡ true
    pub ordinary : is_role_like (text_at run auth "wallet") ≡ false
    pub address : String
    pub key : address_from_public_key run (to_text (value_at auth "public_key")) ≡ some address
    pub wallet : str_eq address (text_at run auth "wallet") ≡ true
    pub actor : String
    pub named : actor_from_payload run payload config.actor_fields ≡ ok actor
    pub same : str_eq actor (text_at run auth "wallet") ≡ true

  check_identity-ok :
      (config : RouteConfig) (payload auth : Fields) (timestamp : ℤ) (now : ℕ)
      → IsBoundTo config payload auth timestamp now
      → check_identity run config payload auth timestamp now ≡ ok tt
  unfolding check_identity
  check_identity-ok config payload auth timestamp now h =
      rw (h.fresh, h.action, h.domain, h.ordinary, h.key, h.wallet, h.named, h.same) refl

  abbrev pub made_of : Fields → ℤ → String → Authorized
  made_of auth timestamp hash = record {
    action = text_at run auth "action";
    wallet = text_at run auth "wallet";
    nonce = text_at run auth "nonce";
    timestamp = timestamp;
    body_hash = hash;
  }

  pub record IsSignedFor (payload auth : Fields) (timestamp : ℤ) (hash : String) : Type 0 where
    pub plain : has_override payload ≡ false
    pub hashed : body_hash run payload ≡ ok hash
    pub claimed : codes_eq (codes hash) (lower_codes (text_at run auth "body_hash")) ≡ true
    pub message : String
    pub canonical : authorization_message run (made_of auth timestamp hash) ≡ ok message
    pub shown : is_text (value_at auth "message") message ≡ true
    pub pattern : signature_pattern (codes (text_at run auth "signature")) ≡ true
    pub signed :
        verify message (to_text (value_at auth "public_key")) (text_at run auth "signature") ≡ true

  check_signature-ok :
      (payload auth : Fields) (timestamp : ℤ) (hash : String)
      → IsSignedFor payload auth timestamp hash
      → check_signature run payload auth timestamp ≡ ok (made_of auth timestamp hash)
  unfolding check_signature
  check_signature-ok payload auth timestamp hash h =
      rw (h.plain, h.hashed, h.claimed, h.canonical, h.shown, h.pattern, h.signed) refl

  pub check_authorization-ok :
      (config : RouteConfig) (body auth : Fields) (now : ℕ) (timestamp : ℤ) (hash : String)
      → lookup "authorization" body ≡ some (obj auth)
      → IsShaped auth timestamp
      → IsBoundTo config (without_authorization body) auth timestamp now
      → IsSignedFor (without_authorization body) auth timestamp hash
      → check_authorization run config body now ≡ ok (made_of auth timestamp hash)
  unfolding check_authorization
  check_authorization-ok config body auth now timestamp hash found shaped bound signed =
      rw
        (
          found,
          authorization_object-obj auth,
          check_shape-ok auth timestamp shaped,
          check_identity-ok config _ auth timestamp now bound,
        )
        (check_signature-ok _ auth timestamp hash signed)

-- An unused nonce is spent.
pub spend-free :
    (nonces : Nonces) (a : Authorized)
    → Dict.get nonces (nonce_key a) ≡ none
    → spend nonces a ≡ (Dict.put nonces (nonce_key a) (expiry a), ok (some a))
unfolding spend
spend-free nonces a free = ground arith
