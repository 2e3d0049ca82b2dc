-- ===== src/Auth/Signed/Replay.antt =====
-- An accepted authorization cannot be used again, whatever other requests come in between.
use vorliq.Common.{
  ℕ, ◌≤◌, String, true, ◌≡◌, Option, none, some, List, [], ◌∷◌, arith, eq_iff, All, inl, inr,
  Option-cases, ap, sym, ◌∙◌,
}
use vorliq.Common.Dict
use vorliq.Common.Dict.{get-put, get-revise}
use vorliq.Common.Int.{ℤ, pos, ◌<ℤ◌, ◌+ℤ◌, +ℤ_parts}
use vorliq.Json.Defs.{Fields}
use vorliq.Auth.Signed.Crypto.{Runtime}
use vorliq.Auth.Signed.Envelope.{ok, fail, Authorized, in_window}
use vorliq.Auth.Lockout.{Code}
use vorliq.Auth.Signed.Routes.{RouteConfig, route_config}
use vorliq.Auth.Signed.Verify.{
  check_authorization, Nonces, prune_nonces, nonce_key, expiry, spend, verify_signed_authorization,
}
use vorliq.Auth.Signed.Sound.{Result-cases, verify_sound}

-- A nonce that has not expired survives the pruning.
get-prune_nonces :
    (now : ℕ) (nonces : Nonces) (k : String) (e : ℤ)
    → Dict.get nonces k ≡ some e
    → pos now <ℤ e
    → Dict.get (prune_nonces now nonces) k ≡ some e
unfolding prune_nonces
get-prune_nonces now nonces k e found live = rw (get-revise, found) (ground arith)

get-spend :
    (nonces : Nonces) (b : Authorized) (k : String) (e : ℤ)
    → Dict.get nonces k ≡ some e
    → Dict.get (spend nonces b).0 k ≡ some e
unfolding spend
get-spend nonces b k e found = elim (Option-cases (Dict.get nonces (nonce_key b))) [
  | inl free ↦ ground (arith, get-put nonces (nonce_key b) k (expiry b), eq_iff (nonce_key b) k)
  | inr (t, used) ↦ ground arith
]

module _ (run : Runtime) (nonces : Nonces) (body : Fields) (path : String) (now : ℕ) where
  verify-unlisted :
      route_config path ≡ none
      → verify_signed_authorization run nonces body path now ≡ (nonces, ok none)
  unfolding verify_signed_authorization
  verify-unlisted unlisted = ground arith

  pub verify-failed :
      {config : RouteConfig} {code : Code}
      → route_config path ≡ some config
      → check_authorization run config body now ≡ fail code
      → verify_signed_authorization run nonces body path now ≡ (nonces, fail code)
  unfolding verify_signed_authorization
  verify-failed listed failed = ground arith

  pub verify-checked :
      {config : RouteConfig} {b : Authorized}
      → route_config path ≡ some config
      → check_authorization run config body now ≡ ok b
      → verify_signed_authorization run nonces body path now ≡ spend (prune_nonces now nonces) b
  unfolding verify_signed_authorization
  verify-checked listed checked = ground arith

-- No request at a time before its expiry makes the gateway forget a nonce.
get-verify :
    (run : Runtime) (nonces : Nonces) (body : Fields) (path : String) (now : ℕ) (k : String) (e : ℤ)
    → Dict.get nonces k ≡ some e
    → pos now <ℤ e
    → Dict.get (verify_signed_authorization run nonces body path now).0 k ≡ some e
get-verify run nonces body path now k e found live = elim (Option-cases (route_config path)) [
  | inl unlisted ↦ rw (verify-unlisted run nonces body path now unlisted) found
  | inr (config, listed) ↦ elim (Result-cases (check_authorization run config body now)) [
    | inl (code, failed) ↦ rw (verify-failed run nonces body path now listed failed) found
    | inr (b, checked) ↦
        rw (verify-checked run nonces body path now listed checked)
          (get-spend (prune_nonces now nonces) b k e (get-prune_nonces now nonces k e found live))
  ]
]

spend-records :
    (nonces : Nonces) (a b : Authorized)
    → (spend nonces b).1 ≡ ok (some a)
    → Dict.get (spend nonces b).0 (nonce_key a) ≡ some (expiry a)
unfolding spend
spend-records nonces a b h = elim (Option-cases (Dict.get nonces (nonce_key b))) [
  | inl free ↦
      let e : b ≡ a = ground arith in
      rw (← e) (
        ground (
          arith,
          get-put nonces (nonce_key b) (nonce_key b) (expiry b),
          eq_iff (nonce_key b) (nonce_key b),
        ))
  | inr (t, used) ↦ absurd (ground arith)
]

none_not_some : {a : Authorized} → ¬ (ok none ≡ ok (some a))
none_not_some e = cc

pub fail_not_ok : {c : Code} {a : Option Authorized} → ¬ (fail c ≡ ok a)
fail_not_ok e = cc

verify-records :
    (run : Runtime) (nonces : Nonces) (body : Fields) (path : String) (now : ℕ) (a : Authorized)
    → (verify_signed_authorization run nonces body path now).1 ≡ ok (some a)
    → Dict.get (verify_signed_authorization run nonces body path now).0 (nonce_key a)
      ≡ some (expiry a)
verify-records run nonces body path now a h = elim (Option-cases (route_config path)) [
  | inl unlisted ↦
      absurd (none_not_some (rw (verify-unlisted run nonces body path now unlisted) at h))
  | inr (config, listed) ↦ elim (Result-cases (check_authorization run config body now)) [
    | inl (code, failed) ↦
        absurd (fail_not_ok (rw (verify-failed run nonces body path now listed failed) at h))
    | inr (b, checked) ↦
        let e = verify-checked run nonces body path now listed checked in
        rw e (spend-records (prune_nonces now nonces) a b (rw e at h))
  ]
]

pub record Request : Type 0 where
  pub body : Fields
  pub path : String
  pub now : ℕ

-- The nonces after a list of requests.
pub after_requests : Runtime → Nonces → List Request → Nonces
after_requests run nonces [] = nonces
after_requests run nonces (r ∷ rs) =
    after_requests run (verify_signed_authorization run nonces r.body r.path r.now).0 rs

get-after_requests :
    (run : Runtime) (rs : List Request) (nonces : Nonces) (k : String) (e : ℤ) (last : ℕ)
    → Dict.get nonces k ≡ some e
    → pos last <ℤ e
    → All (λ r. r.now ≤ last) rs
    → Dict.get (after_requests run nonces rs) k ≡ some e
unfolding after_requests
get-after_requests run [] nonces k e last found live early = found
get-after_requests run (r ∷ rs) nonces k e last found live (here, early) =
    get-after_requests run rs (verify_signed_authorization run nonces r.body r.path r.now).0 k e
      last (get-verify run nonces r.body r.path r.now k e found (omega arith)) live early

-- While its timestamp is accepted, an authorization's nonce is kept.
live_of_fresh : (a : Authorized) (now : ℕ) → in_window a.timestamp now ≡ true → pos now <ℤ expiry a
unfolding in_window expiry
live_of_fresh a now h =
    ground (arith, +ℤ_parts a.timestamp (pos 300), +ℤ_parts (a.timestamp +ℤ pos 300) (pos 30))

-- Once `a` has been accepted, no request that carries its wallet, nonce and timestamp is accepted
-- at a time `last`, if the requests between the two, in any number and on any route, are none of
-- them later than `last`.
pub no_replay :
    (run : Runtime) (nonces : Nonces) (body : Fields) (path : String) (now : ℕ) (a : Authorized)
    (rs : List Request) (again : Fields) (other : String) (last : ℕ) (b : Authorized)
    → (verify_signed_authorization run nonces body path now).1 ≡ ok (some a)
    → All (λ r. r.now ≤ last) rs
    → b.wallet ≡ a.wallet
    → b.nonce ≡ a.nonce
    → b.timestamp ≡ a.timestamp
    → ¬ (
        (verify_signed_authorization run
          (after_requests run (verify_signed_authorization run nonces body path now).0 rs)
          again
          other
          last).1
        ≡ ok (some b))
no_replay run nonces body path now a rs again other last b first early wallet nonce stamp second =
    let one = (verify_signed_authorization run nonces body path now).0 in
    let genuine = verify_sound run (after_requests run one rs) again other last b second in
    let live : pos last <ℤ expiry a =
      live_of_fresh a last (ap (λ t. in_window t last) (sym stamp) ∙ genuine.fresh) in
    let kept =
      get-prune_nonces last (after_requests run one rs) (nonce_key a) (expiry a)
        (get-after_requests run rs one (nonce_key a) (expiry a) last
          (verify-records run nonces body path now a first) live early)
        live in
    let key : nonce_key b ≡ nonce_key a = unfold nonce_key in cc in
    cc (kept, genuine.unused, ap (Dict.get (prune_nonces last (after_requests run one rs))) key)
