-- ===== src/Client/Accepted.antt =====
-- A request that the page has built, at the gateway.
use Prim.Native.String.{◌++◌ as join}
use vorliq.Common.{
  ℕ, ◌/◌, String, true, false, ◌≡◌, ◌⊎◌, inl, inr, refl, Option, some, none, List, str_eq, ltb,
  arith, ◌∙◌, All, eq_iff, Option-cases,
}
use vorliq.Common.Int.{pos}
use vorliq.Common.Dict
use vorliq.Common.Text.{size}
use vorliq.Json.Defs.{str, obj, Fields, lookup}
use vorliq.Json.Canonical.{Row, canonical_json, canonical_rows, object_text}
use vorliq.Validation.FieldLaws.{lookup-set_field}
use vorliq.Auth.Signed.Crypto.{Runtime}
use vorliq.Auth.Signed.Routes.{RouteConfig, route_config}
use vorliq.Auth.Signed.Envelope.{ok, Authorized, nonce_pattern, has_override, in_window}
use vorliq.Auth.Signed.Verify.{Nonces, prune_nonces, nonce_key, verify_signed_authorization}
use vorliq.Client.Browser.{Browser, done}
use vorliq.Client.Wallet.{LocalWallet, load_wallet}
use vorliq.Client.Signer.{sha256_hex}
use vorliq.Client.Authority.{
  ActionConfig, action_config, SignedRequest, authority_message, authority_body_hash, payload_of,
  signed_of, create_authority_nonce, has_forbidden, create_signed_authority_request,
}
use vorliq.Client.Table.{IsListed, api_path, action_config-IsListed}
use vorliq.Client.Payload.{has_override-set_field, lookup-has_forbidden, canonical_rows-set_field}
use vorliq.Client.Agree.{
  message-agrees, client_hash, hash-agrees, sign_message-readable, create-done,
}
use vorliq.Client.Sealed.{IsSamePlatform, IsWallet, IsSealed, sha256_hex-IsHex}
use vorliq.Client.Checks.{bound, signed_for, carried, sealed_accepted}

canonical_json-rows :
    (quote : String → String) (fs : Fields) {text : String}
    → canonical_json quote (obj fs) ≡ some text
    → (rows : List Row) × (canonical_rows quote fs ≡ some rows)
unfolding canonical_json
canonical_json-rows quote fs h = elim (Option-cases (canonical_rows quote fs)) [
  | inl missing ↦ absurd (ground arith)
  | inr found ↦ found
]

-- The names of the actor that a route reads, but for the one that the page sets, are not set.
abbrev pub HasOneActor : ActionConfig → Fields → Type 0
HasOneActor c body =
    (config : RouteConfig)
    → route_config (api_path c.path) ≡ some config
    → All (λ name. (name ≡ c.actor_field) ⊎ (lookup name body ≡ none)) config.actor_fields

alias_free :
    (action : String) (c : ActionConfig) (body : Fields) (listed : IsListed action c)
    → HasOneActor c body
    → lookup listed.alias body ≡ none
alias_free action c body listed h = elim (h _ listed.route).1.0 [
  | inl same ↦ absurd (ground (arith, eq_iff listed.alias c.actor_field, listed.other))
  | inr free ↦ free
]

payload-clean :
    (c : ActionConfig) (body : Fields) (wallet : LocalWallet) {action : String}
    → IsListed action c
    → has_forbidden body ≡ false
    → lookup "authorization" (payload_of c body wallet) ≡ none
unfolding payload_of
payload-clean c body wallet listed clean =
    lookup-set_field c.actor_field "authorization" (str wallet.address) body
    ∙ (rw listed.not_authorization (lookup-has_forbidden body clean))

payload-plain :
    (c : ActionConfig) (body : Fields) (wallet : LocalWallet) {action : String}
    → IsListed action c
    → has_override body ≡ false
    → has_override (payload_of c body wallet) ≡ false
unfolding payload_of
payload-plain c body wallet listed plain =
    has_override-set_field c.actor_field (str wallet.address) body
    ∙ (rw (listed.no_override, plain) refl)

payload-rows :
    (browser : Browser) (c : ActionConfig) (body : Fields) (wallet : LocalWallet) {rows : List Row}
    → canonical_rows browser.quote body ≡ some rows
    → (more : List Row) × (canonical_rows browser.quote (payload_of c body wallet) ≡ some more)
unfolding payload_of
payload-rows browser c body wallet h =
    canonical_rows-set_field browser.quote c.actor_field wallet.address body h

-- A request for an action of the table, with a password, a wallet that loads and is sound, a body
-- without local-only fields, override fields, another name of the actor and numbers without a
-- text, at a time within the clock window and with a nonce of the gateway's pattern that the
-- wallet has not in use, is built, and the gateway accepts it at its path for the wallet and the
-- action, where the canonical message has at most 2,000 units.
pub request_accepted :
    (run : Runtime) (browser : Browser) (same : IsSamePlatform run browser) (stored : Option String)
    (action password : String) (body : Fields) (wallet : LocalWallet) (now_ms now : ℕ)
    (nonces : Nonces) {c : ActionConfig} {text : String}
    → action_config action ≡ some c
    → str_eq password "" ≡ false
    → load_wallet browser stored password ≡ done wallet
    → IsWallet run browser wallet
    → has_forbidden body ≡ false
    → has_override body ≡ false
    → HasOneActor c body
    → canonical_json browser.quote (obj body) ≡ some text
    → nonce_pattern (create_authority_nonce browser) ≡ true
    → in_window (pos (now_ms / 1000)) now ≡ true
    → Dict.get
        (prune_nonces now nonces)
        (join wallet.address (join ":" (create_authority_nonce browser)))
      ≡ none
    → ((hash message : String)
        → authority_body_hash browser (payload_of c body wallet) ≡ done hash
        → authority_message browser (signed_of browser action hash wallet now_ms) ≡ done message
        → ltb 2000 (size message) ≡ false)
    → (r : SignedRequest) × (a : Authorized) × (create_signed_authority_request browser stored
          action
          (some (obj body))
          password
          now_ms
        ≡ done r)
      × ((verify_signed_authorization run nonces r.body (api_path r.path) now).1 ≡ ok (some a))
      × (a.wallet ≡ wallet.address)
      × (a.action ≡ action)
unfolding signed_of nonce_key
request_accepted run browser same stored action password body wallet now_ms now nonces {c} {text}
      found given loaded w clean plain one printed pattern fresh free short =
    let listed = action_config-IsListed action found in
    let (rows, has) = canonical_json-rows browser.quote body printed in
    let (more, made) = payload-rows browser c body wallet has in
    let hash = sha256_hex browser (object_text browser.quote more) in
    let s = signed_of browser action hash wallet now_ms in
    let (hex, solid, lower) = sha256_hex-IsHex run browser same (object_text browser.quote more) in
    let hashed = client_hash browser (payload_of c body wallet) made in
    let (message, said, _) =
      message-agrees run browser same s (carried s) refl refl refl refl refl in
    let sig = browser.sign_digest w.scalar (sha256_hex browser message) in
    let h : IsSealed run browser same s wallet.public_key sig message = record {
      wallet = w.solid;
      short = w.short;
      key_size = w.key_size;
      signature = w.pattern (sha256_hex browser message);
      signature_size = w.signature_size (sha256_hex browser message);
      message_size = short hash message hashed said;
      nonce = pattern;
      action = listed.solid;
      hash = hex;
      hash_solid = solid;
    } in
    (
      _,
      carried s,
      create-done browser stored action password body wallet now_ms found given clean loaded hashed
          said (sign_message-readable browser wallet.private_key message w.readable),
      sealed_accepted run browser same s c body wallet now nonces sig message listed h
          (bound run browser same s wallet sig message h c body now listed w refl
            (alias_free action c body listed one) fresh)
          (signed_for run browser same s wallet sig message h (payload_of c body wallet)
            (payload-plain c body wallet listed plain)
            (hash-agrees run browser same (payload_of c body wallet) made) lower said
            (w.signs message))
          (payload-clean c body wallet listed clean) free,
      refl,
      refl,
    )
