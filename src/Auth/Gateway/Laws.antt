-- ===== src/Auth/Gateway/Laws.antt =====
-- What the gateway lets through, and what it does with a client that is locked.
use vorliq.Common.{
  ℕ, ◌<◌, String, Bool, true, ◌≡◌, Option, none, some, arith, eq_refl, inl, inr, Option-cases, ap,
  ltb, Bool-cases, ◌∙◌,
}
use vorliq.Common.Dict
use vorliq.Common.Dict.{get-remove}
use vorliq.Auth.Lockout.{Attempts, locked_seconds_remaining, clear_failures}
use vorliq.Json.Defs.{Fields}
use vorliq.Auth.Signed.Crypto.{Runtime}
use vorliq.Auth.Signed.Routes.{RouteConfig, route_config}
use vorliq.Auth.Signed.Envelope.{Result, ok, Authorized}
use vorliq.Auth.Signed.Verify.{
  check_authorization, Nonces, prune_nonces, nonce_key, spend, verify_signed_authorization,
}
use vorliq.Auth.Signed.Replay.{verify-failed, verify-checked, fail_not_ok}
use vorliq.Auth.Signed.Sound.{IsGenuine, verify_sound, Result-cases}
use vorliq.Auth.Gateway.{
  Gateway, Reply, next, locked, Request, seconds, is_authority_write, answer,
  require_signed_authority_write,
}

locked_not_next : {p : Reply} {n : ℕ} {x : Option Authorized} → p ≡ locked n → ¬ (p ≡ next x)
locked_not_next e h = cc

get-clear_failures :
    (attempts : Attempts) (key : String) → Dict.get (clear_failures attempts key) key ≡ none
unfolding clear_failures
get-clear_failures attempts key = rw (get-remove, eq_refl)

spend-ok :
    (nonces : Nonces) (b : Authorized) {x : Option Authorized}
    → (spend nonces b).1 ≡ ok x
    → (a : Authorized) × (x ≡ some a)
unfolding spend
spend-ok nonces b h = elim (Option-cases (Dict.get nonces (nonce_key b))) [
  | inl free ↦ (b, ground arith)
  | inr (t, used) ↦ absurd (ground arith)
]

-- A listed route is never answered with `null`.
verify-ok_listed :
    (run : Runtime) (nonces : Nonces) (body : Fields) (path : String) (now : ℕ)
    {config : RouteConfig} {x : Option Authorized}
    → route_config path ≡ some config
    → (verify_signed_authorization run nonces body path now).1 ≡ ok x
    → (a : Authorized) × (x ≡ some a)
verify-ok_listed run nonces body path now {config} listed h =
    elim (Result-cases (check_authorization run config body now)) [
      | inl (code, failed) ↦
          absurd (fail_not_ok (rw (verify-failed run nonces body path now listed failed) at h))
      | inr (b, checked) ↦
          spend-ok (prune_nonces now nonces) b
            (rw (verify-checked run nonces body path now listed checked) at h)
    ]

module _ (run : Runtime) (disabled : Bool) (g : Gateway) (r : Request) where
  -- A locked client's authority write is answered with the seconds left: neither the nonces nor
  -- the failures change, so no signature of it is tried.
  pub locked_refused :
      is_authority_write r ≡ true
      → 0 < locked_seconds_remaining disabled g.attempts r.client r.now
      → require_signed_authority_write run disabled g r
        ≡ (g, locked (locked_seconds_remaining disabled g.attempts r.client r.now))
  unfolding require_signed_authority_write
  locked_refused write wait = ground arith

  abbrev pub verified : Nonces × Result (Option Authorized)
  verified = verify_signed_authorization run g.nonces r.body r.path (seconds r.now)

  pub unlocked_answer :
      is_authority_write r ≡ true
      → locked_seconds_remaining disabled g.attempts r.client r.now ≡ 0
      → require_signed_authority_write run disabled g r ≡ answer disabled g r verified
  unfolding require_signed_authority_write
  unlocked_answer write free = ground arith

  verified-some :
      {config : RouteConfig} {x : Option Authorized}
      → route_config r.path ≡ some config
      → verified.1 ≡ ok x
      → (a : Authorized) × (x ≡ some a)
  verified-some {config} {x} listed h =
      verify-ok_listed run g.nonces r.body r.path (seconds r.now) listed h

  is_authority_write-listed :
      is_authority_write r ≡ true → (config : RouteConfig) × (route_config r.path ≡ some config)
  unfolding is_authority_write
  is_authority_write-listed write = elim (Option-cases (route_config r.path)) [
    | inl unlisted ↦ absurd (ground arith)
    | inr found ↦ found
  ]

  answer-next :
      {x : Option Authorized}
      → (answer disabled g r verified).1 ≡ next x
      → (verified.1 ≡ ok x)
        × ((answer disabled g r verified).0.attempts ≡ clear_failures g.attempts r.client)
  unfolding answer
  answer-next h = elim (Result-cases verified.1) [
    | inl (code, failed) ↦ absurd (ground arith)
    | inr (x, accepted) ↦ (ground arith, ground arith)
  ]

  -- An authority write reaches its handler only with an authorization that `verify_sound`
  -- describes, from a client that was not locked, and the client's failures are forgotten.
  pub passed-IsGenuine :
      {x : Option Authorized}
      → is_authority_write r ≡ true
      → (require_signed_authority_write run disabled g r).1 ≡ next x
      → (a : Authorized) × (x ≡ some a)
        × IsGenuine run g.nonces r.body r.path (seconds r.now) a
        × (locked_seconds_remaining disabled g.attempts r.client r.now ≡ 0)
        × (Dict.get (require_signed_authority_write run disabled g r).0.attempts r.client ≡ none)
  passed-IsGenuine {x} write h = elim (Bool-cases (ltb 0 wait)) [
    | inl blocked ↦ absurd (
        locked_not_next (ap (λ (p : Gateway × Reply). p.1) (locked_refused write (ground arith))) h)
    | inr unblocked ↦
        let free : wait ≡ 0 = ground arith in
        let e = unlocked_answer write free in
        let (accepted, cleared) = answer-next (rw e at h) in
        let (config, listed) = is_authority_write-listed write in
        let (a, found) = verified-some listed accepted in
        (
          a,
          found,
          verify_sound run g.nonces r.body r.path (seconds r.now) a (accepted ∙ ap ok found),
          free,
          rw (e, cleared) (get-clear_failures g.attempts r.client),
        )
  ]
    where
      wait : ℕ
      wait = locked_seconds_remaining disabled g.attempts r.client r.now
