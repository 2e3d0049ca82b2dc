-- ===== src/Auth/Signed/Sound.antt =====
-- What an accepted authorization has proved.
use vorliq.Common.{
  ℕ, String, true, false, ◌≡◌, refl, Option, none, some, arith, ap, sym, ◌∙◌, eq_iff, ◌⊎◌, inl, inr,
  Option-cases,
}
use vorliq.Common.Int.{ℤ}
use vorliq.Json.Defs.{Json, obj, Fields, lookup, without_authorization}
use vorliq.Auth.Lockout.{Code}
use vorliq.Auth.Signed.Crypto.{Runtime, address_from_public_key}
use vorliq.Auth.Signed.Routes.{RouteConfig, route_config, authorization_domain}
use vorliq.Auth.Signed.Envelope.{
  Result, ok, fail, Authorized, authorization_object, value_at, is_text, has_override, in_window,
}
use vorliq.Auth.Signed.Verify.{
  actor_from_payload, body_hash, authorization_message, text_at, check_shape, check_identity,
  check_signature, check_authorization, Nonces, prune_nonces, nonce_key, spend,
  verify_signed_authorization,
}
use vorliq.Common.Dict

pub Result-cases :
    {A : Type 0} (m : Result A) → ((c : Code) × (m ≡ fail c)) ⊎ ((a : A) × (m ≡ ok a))
Result-cases (ok a) = inr (a, refl)
Result-cases (fail c) = inl (c, refl)

module _ (run : Runtime) where
  open run use {to_text, verify}

  -- The key, the wallet and the actor agree, and the envelope is fresh and for this route.
  pub record IsBound (config : RouteConfig) (payload auth : Fields) (timestamp : ℤ) (now : ℕ)
      : Type 0 where
    pub fresh : in_window timestamp now ≡ true
    pub action : text_at run auth "action" ≡ config.action
    pub domain : is_text (value_at auth "domain") authorization_domain ≡ true
    pub key :
        address_from_public_key run (to_text (value_at auth "public_key"))
        ≡ some (text_at run auth "wallet")
    pub actor : actor_from_payload run payload config.actor_fields ≡ ok (text_at run auth "wallet")

  check_identity_sound :
      (config : RouteConfig) (payload auth : Fields) (timestamp : ℤ) (now : ℕ)
      → check_identity run config payload auth timestamp now ≡ ok tt
      → IsBound config payload auth timestamp now
  unfolding check_identity
  check_identity_sound config payload auth timestamp now h =
      let wallet = text_at run auth "wallet" in
      record {
        fresh = ground arith;
        action = ground (arith, eq_iff (text_at run auth "action") config.action);
        domain = ground arith;
        key =
            elim (Option-cases
              (address_from_public_key run (to_text (value_at auth "public_key")))) [
                | inl missing ↦ ground arith
                | inr (address, found) ↦ ground (arith, eq_iff address wallet)
              ];
        actor = elim (Result-cases (actor_from_payload run payload config.actor_fields)) [
          | inl (code, failed) ↦ ground arith
          | inr (actor, found) ↦ ground (arith, eq_iff actor wallet)
        ];
      }

  -- What `check_signature` accepts: no override field, the hash that the client claims, and a
  -- signature of the canonical message under the key.
  pub record IsSigned (payload auth : Fields) (a : Authorized) : Type 0 where
    pub plain : has_override payload ≡ false
    pub wallet : a.wallet ≡ text_at run auth "wallet"
    pub action : a.action ≡ text_at run auth "action"
    pub hashed : body_hash run payload ≡ ok a.body_hash
    pub message : String
    pub canonical : authorization_message run a ≡ ok message
    pub shown : is_text (value_at auth "message") message ≡ true
    pub signed :
        verify message (to_text (value_at auth "public_key")) (text_at run auth "signature") ≡ true

  check_signature_sound :
      (payload auth : Fields) (timestamp : ℤ) (a : Authorized)
      → check_signature run payload auth timestamp ≡ ok a
      → IsSigned payload auth a × (a.timestamp ≡ timestamp) × (a.nonce ≡ text_at run auth "nonce")
  unfolding check_signature
  check_signature_sound payload auth timestamp a h = elim (Result-cases (body_hash run payload)) [
    | inl (code, failed) ↦ ground arith
    | inr (hash, hashed) ↦
        let made : Authorized = record {
          action = text_at run auth "action";
          wallet = text_at run auth "wallet";
          nonce = text_at run auth "nonce";
          timestamp = timestamp;
          body_hash = hash;
        } in
        elim (Result-cases (authorization_message run made)) [
          | inl (code, failed) ↦ ground arith
          | inr (message, canonical) ↦
              let e : made ≡ a = ground arith in
              (
                record {
                  plain = ground arith;
                  wallet = ap (λ (b : Authorized). b.wallet) (sym e);
                  action = ap (λ (b : Authorized). b.action) (sym e);
                  hashed = hashed ∙ ap ok (ap (λ (b : Authorized). b.body_hash) e);
                  message = message;
                  canonical = ap (authorization_message run) (sym e) ∙ canonical;
                  shown = ground arith;
                  signed = ground arith;
                },
                ap (λ (b : Authorized). b.timestamp) (sym e),
                ap (λ (b : Authorized). b.nonce) (sym e),
              )
        ]
  ]

  -- What stands behind an accepted authorization `a` of a request.
  pub record IsGenuine (nonces : Nonces) (body : Fields) (path : String) (now : ℕ) (a : Authorized)
      : Type 0 where
    pub config : RouteConfig
    pub listed : route_config path ≡ some config
    pub auth : Fields
    pub enveloped : lookup "authorization" body ≡ some (obj auth)
    pub action : a.action ≡ config.action
    pub fresh : in_window a.timestamp now ≡ true
    pub key : address_from_public_key run (to_text (value_at auth "public_key")) ≡ some a.wallet
    pub actor :
        actor_from_payload run (without_authorization body) config.actor_fields ≡ ok a.wallet
    pub plain : has_override (without_authorization body) ≡ false
    pub hashed : body_hash run (without_authorization body) ≡ ok a.body_hash
    pub message : String
    pub canonical : authorization_message run a ≡ ok message
    pub signed :
        verify message (to_text (value_at auth "public_key")) (text_at run auth "signature") ≡ true
    pub unused : Dict.get (prune_nonces now nonces) (nonce_key a) ≡ none

  -- The checks of an accepted authorization, one by one.
  record IsChecked (config : RouteConfig) (body : Fields) (now : ℕ) (a : Authorized) : Type 0 where
    auth : Fields
    enveloped : lookup "authorization" body ≡ some (obj auth)
    bound : IsBound config (without_authorization body) auth a.timestamp now
    signed : IsSigned (without_authorization body) auth a

  authorization_object-eq-ok :
      (o : Option Json) {auth : Fields} → authorization_object o ≡ ok auth → o ≡ some (obj auth)
  unfolding authorization_object
  authorization_object-eq-ok o h = ground arith

  check_authorization_sound :
      (config : RouteConfig) (body : Fields) (now : ℕ) (a : Authorized)
      → check_authorization run config body now ≡ ok a
      → IsChecked config body now a
  check_authorization_sound config body now a h =
      let payload = without_authorization body in
      elim (Result-cases (authorization_object (lookup "authorization" body))) [
        | inl (code, failed) ↦ absurd (unfold check_authorization in ground arith)
        | inr (auth, found) ↦ elim (Result-cases (check_shape run auth)) [
          | inl (code, failed) ↦ absurd (unfold check_authorization in ground arith)
          | inr (timestamp, shaped) ↦
              let bound : check_identity run config payload auth timestamp now ≡ ok tt =
                unfold check_authorization in ground arith in
              let made : check_signature run payload auth timestamp ≡ ok a =
                unfold check_authorization in ground arith in
              let (signed, same, _) = check_signature_sound payload auth timestamp a made in
              record {
                auth = auth;
                enveloped = authorization_object-eq-ok _ found;
                bound = rw same (check_identity_sound config payload auth timestamp now bound);
                signed = signed;
              }
        ]
      ]

  spend-eq-ok :
      (nonces : Nonces) (a b : Authorized)
      → (spend nonces a).1 ≡ ok (some b)
      → (a ≡ b) × (Dict.get nonces (nonce_key b) ≡ none)
  unfolding spend
  spend-eq-ok nonces a b h = elim (Option-cases (Dict.get nonces (nonce_key a))) [
    | inl free ↦ let e : a ≡ b = ground arith in (e, rw (← e) free)
    | inr (t, used) ↦ absurd (ground arith)
  ]

  -- An authorization is accepted only for a route of the table, for that route's action, within
  -- the clock window, with a key whose address is the wallet, by the actor that the payload names,
  -- over the hash of a payload that sets no override field, with a signature of the canonical
  -- message under that key, and with a nonce that the wallet has not used since it was last pruned.
  pub verify_sound :
      (nonces : Nonces) (body : Fields) (path : String) (now : ℕ) (a : Authorized)
      → (verify_signed_authorization run nonces body path now).1 ≡ ok (some a)
      → IsGenuine nonces body path now a
  unfolding verify_signed_authorization
  verify_sound nonces body path now a h = elim (Option-cases (route_config path)) [
    | inl unlisted ↦ absurd (ground arith)
    | inr (config, listed) ↦ elim (Result-cases (check_authorization run config body now)) [
      | inl (code, failed) ↦ absurd (ground arith)
      | inr (b, checked) ↦
          let (same, unused) = spend-eq-ok (prune_nonces now nonces) b a (ground arith) in
          let c = check_authorization_sound config body now a (checked ∙ ap ok same) in
          record {
            config = config;
            listed = listed;
            auth = c.auth;
            enveloped = c.enveloped;
            action = c.signed.action ∙ c.bound.action;
            fresh = c.bound.fresh;
            key = c.bound.key ∙ ap some (sym c.signed.wallet);
            actor = c.bound.actor ∙ ap ok (sym c.signed.wallet);
            plain = c.signed.plain;
            hashed = c.signed.hashed;
            message = c.signed.message;
            canonical = c.signed.canonical;
            signed = c.signed.signed;
            unused = unused;
          }
    ]
  ]
