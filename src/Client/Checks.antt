-- ===== src/Client/Checks.antt =====
-- The gateway's checks on the envelope of a page.
use vorliq.Common.{
  ℕ, String, true, false, ◌≡◌, refl, none, [], ◌∷◌, str_eq, arith, ap, sym, ◌∙◌, eq_refl, eq_iff,
  some,
}
use vorliq.Common.Text.{codes, lower_codes, trim}
use vorliq.Common.Trim.{codes_eq_refl, trim_id}
use vorliq.Json.Defs.{str, Fields, lookup, obj, without_authorization}
use vorliq.Validation.FieldLaws.{lookup-set_field}
use vorliq.Auth.Signed.Crypto.{Runtime}
use vorliq.Auth.Signed.Envelope.{ok, is_text, has_override, in_window, Authorized}
use vorliq.Auth.Signed.Verify.{
  actor_from_payload, body_hash, Nonces, prune_nonces, nonce_key, verify_signed_authorization,
}
use vorliq.Auth.Signed.Complete.{
  IsBoundTo, IsSignedFor, made_of, actor_from_payload-one, check_authorization-ok, spend-free,
}
use vorliq.Client.Browser.{Browser, done}
use vorliq.Client.Wallet.{LocalWallet}
use vorliq.Client.Authority.{
  authorization_domain, ActionConfig, Signed, envelope, authority_message, payload_of,
}
use vorliq.Client.Table.{IsListed, api_path}
use vorliq.Client.Agree.{message-agrees}
use vorliq.Client.Sealed.{
  IsSamePlatform, IsWallet, IsSealed, at_wallet, at_signature, at_nonce, at_action, at_hash, at_key,
  at_message, at_domain, shaped,
}
use vorliq.Common.Dict
use vorliq.Validation.Check.{set_field}
use vorliq.Auth.Signed.Replay.{verify-checked}
use vorliq.Client.Payload.{without_authorization-set_field}

done-eq : {A : Type 0} {x y : A} → done x ≡ done y → x ≡ y
done-eq e = cc

distinct : (a b : String) → str_eq b a ≡ false → str_eq a b ≡ false
distinct a b h = ground (arith, eq_iff a b, eq_iff b a)

module _ (run : Runtime) (browser : Browser) (same : IsSamePlatform run browser) where
  -- The actor that the payload names, under either name.
  actor-named :
      (action : String) (c : ActionConfig) (body : Fields) (wallet : LocalWallet)
      (listed : IsListed action c)
      → IsWallet run browser wallet
      → lookup listed.alias body ≡ none
      → actor_from_payload run (payload_of c body wallet) (c.actor_field ∷ listed.alias ∷ [])
        ≡ ok wallet.address
  unfolding payload_of
  actor-named action c body wallet listed w free =
      let here = lookup-set_field c.actor_field c.actor_field (str wallet.address) body in
      let there = lookup-set_field c.actor_field listed.alias (str wallet.address) body in
      actor_from_payload-one run _ c.actor_field listed.alias (str wallet.address)
        (here ∙ (rw (eq_refl c.actor_field) refl))
        (there ∙ (rw (distinct c.actor_field listed.alias listed.other) free))
      ∙ ap ok (ap trim (same.text wallet.address) ∙ trim_id wallet.address w.solid)

  module _ (s : Signed) (wallet : LocalWallet) (sig message : String)
      (h : IsSealed run browser same s wallet.public_key sig message) where
    abbrev pub envelope_of : Fields
    envelope_of = envelope browser s wallet.public_key sig message

    pub bound :
        (c : ActionConfig) (body : Fields) (now : ℕ) (listed : IsListed s.action c)
        → IsWallet run browser wallet
        → s.wallet ≡ wallet.address
        → lookup listed.alias body ≡ none
        → in_window s.timestamp now ≡ true
        → IsBoundTo run
            (record { action = s.action; actor_fields = c.actor_field ∷ listed.alias ∷ [] })
            (payload_of c body wallet)
            envelope_of
            s.timestamp
            now
    bound c body now listed w named free fresh =
        let at = at_wallet run browser same s wallet.public_key sig message h in
        record {
          fresh = fresh;
          action =
              rw (at_action run browser same s wallet.public_key sig message h) (eq_refl s.action);
          domain =
              rw (at_domain run browser same s wallet.public_key sig message h)
                (unfold is_text in eq_refl authorization_domain);
          ordinary = rw (at, named) w.ordinary;
          address = wallet.address;
          key = rw (at_key run browser same s wallet.public_key sig message h) w.address;
          wallet = rw (at, named) (eq_refl wallet.address);
          actor = wallet.address;
          named = actor-named s.action c body wallet listed w free;
          same = rw (at, named) (eq_refl wallet.address);
        }

    pub signed_for :
        (payload : Fields)
        → has_override payload ≡ false
        → body_hash run payload ≡ ok s.body_hash
        → lower_codes s.body_hash ≡ codes s.body_hash
        → (authority_message browser s ≡ done message)
        → run.verify message wallet.public_key sig ≡ true
        → IsSignedFor run payload envelope_of s.timestamp s.body_hash
    signed_for payload plain hashed lower said verified =
        let (text, made, canonical) =
          message-agrees run browser same s (made_of run envelope_of s.timestamp s.body_hash)
            (at_action run browser same s wallet.public_key sig message h)
            (at_wallet run browser same s wallet.public_key sig message h)
            (at_nonce run browser same s wallet.public_key sig message h) refl refl in
        let e : text ≡ message = done-eq (sym made ∙ said) in
        record {
          plain = plain;
          hashed = hashed;
          claimed =
              rw (at_hash run browser same s wallet.public_key sig message h, lower)
                (codes_eq_refl (codes s.body_hash));
          message = message;
          canonical = canonical ∙ ap ok e;
          shown =
              rw (at_message run browser same s wallet.public_key sig message h)
                (unfold is_text in eq_refl message);
          pattern =
              rw (at_signature run browser same s wallet.public_key sig message h) h.signature;
          signed =
              rw
                (
                  at_key run browser same s wallet.public_key sig message h,
                  at_signature run browser same s wallet.public_key sig message h,
                )
                verified;
        }

-- The authorization that the request carries.
abbrev pub carried : Signed → Authorized
carried s = record {
  action = s.action;
  wallet = s.wallet;
  nonce = s.nonce;
  timestamp = s.timestamp;
  body_hash = s.body_hash;
}

made_of-carried :
    (run : Runtime) (browser : Browser) (same : IsSamePlatform run browser) (s : Signed)
    (key sig message : String)
    → IsSealed run browser same s key sig message
    → made_of run (envelope browser s key sig message) s.timestamp s.body_hash ≡ carried s
made_of-carried run browser same s key sig message h = cc (
  at_action run browser same s key sig message h,
  at_wallet run browser same s key sig message h,
  at_nonce run browser same s key sig message h,
)

pub sealed_accepted :
    (run : Runtime) (browser : Browser) (same : IsSamePlatform run browser) (s : Signed)
    (c : ActionConfig) (body : Fields) (wallet : LocalWallet) (now : ℕ) (nonces : Nonces)
    (sig message : String) (listed : IsListed s.action c)
    (h : IsSealed run browser same s wallet.public_key sig message)
    → IsBoundTo run
        (record { action = s.action; actor_fields = c.actor_field ∷ listed.alias ∷ [] })
        (payload_of c body wallet)
        (envelope browser s wallet.public_key sig message)
        s.timestamp
        now
    → IsSignedFor run
        (payload_of c body wallet)
        (envelope browser s wallet.public_key sig message)
        s.timestamp
        s.body_hash
    → lookup "authorization" (payload_of c body wallet) ≡ none
    → Dict.get (prune_nonces now nonces) (nonce_key (carried s)) ≡ none
    → (verify_signed_authorization run nonces
        (set_field "authorization"
          (obj (envelope browser s wallet.public_key sig message))
          (payload_of c body wallet))
        (api_path c.path)
        now).1
      ≡ ok (some (carried s))
sealed_accepted run browser same s c body wallet now nonces sig message listed h tied signed clean
      free =
    let auth = envelope browser s wallet.public_key sig message in
    let sent = set_field "authorization" (obj auth) (payload_of c body wallet) in
    let bare : without_authorization sent ≡ payload_of c body wallet =
      without_authorization-set_field (obj auth) (payload_of c body wallet) clean in
    let found : lookup "authorization" sent ≡ some (obj auth) =
      lookup-set_field "authorization" "authorization" (obj auth) (payload_of c body wallet) in
    let checked =
      check_authorization-ok run _ sent auth now s.timestamp s.body_hash found
        (shaped run browser same s wallet.public_key sig message h) (rw bare tied)
        (rw bare signed) in
    let same_auth = made_of-carried run browser same s wallet.public_key sig message h in
    ap (λ x. x.1)
      (verify-checked run nonces sent (api_path c.path) now listed.route (checked ∙ ap ok same_auth)
        ∙ spend-free (prune_nonces now nonces) (carried s) free)
