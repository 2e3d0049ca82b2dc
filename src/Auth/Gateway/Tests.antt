-- ===== src/Auth/Gateway/Tests.antt =====
-- The gateway on requests of a sample runtime: one accepted vote, its replay, and forged writes.
use vorliq.Common.{ℕ, ◌+◌, ◌<◌, some, none, List, [], ◌∷◌, true, false, ◌≡◌, refl, arith}
use vorliq.Common.Dict
use vorliq.Common.Dict.{get-empty}
use vorliq.Common.Int.{pos, ◌+ℤ◌}
use vorliq.Json.Defs.{Fields, lookup, without_authorization}
use vorliq.Json.Canonical.{canonical_json, object_text}
use vorliq.Common.Text.{trim, size, lower_codes, codes_eq, units_le}
use vorliq.Auth.Base58.{base58_encode}
use vorliq.Auth.Signed.Routes.{route_config}
use vorliq.Auth.Lockout.{
  signature_invalid, locked_seconds_remaining, record_failure, clear_failures,
}
use vorliq.Auth.Signed.Crypto.{address_from_public_key, base58_text}
use vorliq.Auth.Signed.Envelope.{ok, Authorized, authorization_object, value_at, is_text, in_window}
use vorliq.Auth.Signed.Verify.{
  authorization_message, verify_signed_authorization, check_authorization, check_shape,
  check_identity, check_signature, prune_nonces, nonce_key, body_hash, actor_from_payload, text_at,
  spend_checked,
}
use vorliq.Auth.Signed.Sound.{IsGenuine, verify_sound}
use vorliq.Auth.Signed.Replay.{no_replay, after_requests}
use vorliq.Auth.Gateway.{next, locked, Request, require_signed_authority_write, is_authority_write}
use vorliq.Auth.Gateway.Laws.{passed-IsGenuine}
use vorliq.Auth.Gateway.Strikes.{after_all, AllForged, five_strikes}
use vorliq.Auth.Gateway.Sample.{
  sample_runtime, sample_request, sample_body, empty_gateway, sample_wallet, sample_nonce,
  sample_hash,
}

abbrev accepted : Authorized
accepted = record {
  action = "governance.vote";
  wallet = sample_wallet;
  nonce = sample_nonce;
  timestamp = pos 1000;
  body_hash = sample_hash;
}

abbrev vote : Fields
vote = sample_body "ab"

gateway : Unit {0}
unfolding require_signed_authority_write verify_signed_authorization route_config
    check_authorization authorization_object check_shape check_identity check_signature lookup
    without_authorization Dict.get Dict.empty Dict.put Dict.revise Dict.remove prune_nonces
    nonce_key trim size lower_codes codes_eq canonical_json object_text body_hash
    authorization_message address_from_public_key base58_encode base58_text actor_from_payload
    text_at value_at is_text in_window units_le record_failure clear_failures
    locked_seconds_remaining spend_checked ◌+ℤ◌
gateway = tt

vote-accepted :
    (verify_signed_authorization sample_runtime Dict.empty vote "/api/governance/vote" 1000).1
    ≡ ok (some accepted)
unfolding gateway
vote-accepted = refl

verify_sound_example : IsGenuine sample_runtime Dict.empty vote "/api/governance/vote" 1000 accepted
verify_sound_example =
    verify_sound sample_runtime Dict.empty vote "/api/governance/vote" 1000 accepted vote-accepted

-- The same vote a second later.
no_replay_example : ¬ (
    (verify_signed_authorization sample_runtime
      (after_requests sample_runtime
        (verify_signed_authorization sample_runtime Dict.empty vote "/api/governance/vote" 1000).0
        [])
      vote
      "/api/governance/vote"
      1001).1
    ≡ ok (some accepted))
no_replay_example =
    no_replay sample_runtime Dict.empty vote "/api/governance/vote" 1000 accepted [] vote
      "/api/governance/vote" 1001 accepted vote-accepted tt refl refl refl

abbrev good : Request
good = sample_request "ab" 1000000

good_passes :
    (require_signed_authority_write sample_runtime false empty_gateway good).1
    ≡ next (some accepted)
unfolding gateway
good_passes = refl

passed-IsGenuine_example :
    (a : Authorized) × (some accepted ≡ some a)
    × IsGenuine sample_runtime empty_gateway.nonces good.body good.path 1000 a
    × (locked_seconds_remaining false empty_gateway.attempts "ip" 1000000 ≡ 0)
    × (Dict.get
          (require_signed_authority_write sample_runtime false empty_gateway good).0.attempts
          "ip"
        ≡ none)
unfolding gateway
passed-IsGenuine_example = passed-IsGenuine sample_runtime false empty_gateway good refl good_passes

abbrev forged : ℕ → Request
forged n = sample_request "cd" (1000000 + n)

abbrev four : List Request
four = forged 10 ∷ forged 20 ∷ forged 30 ∷ forged 40 ∷ []

all_forged : AllForged sample_runtime "ip" empty_gateway (forged 0 ∷ four)
unfolding gateway
all_forged = (
  record {
    sender = refl;
    write = refl;
    code = signature_invalid;
    failed = refl;
    credential = refl;
  },
  (
    record {
      sender = refl;
      write = refl;
      code = signature_invalid;
      failed = refl;
      credential = refl;
    },
    (
      record {
        sender = refl;
        write = refl;
        code = signature_invalid;
        failed = refl;
        credential = refl;
      },
      (
        record {
          sender = refl;
          write = refl;
          code = signature_invalid;
          failed = refl;
          credential = refl;
        },
        (
          record {
            sender = refl;
            write = refl;
            code = signature_invalid;
            failed = refl;
            credential = refl;
          },
          tt,
        ),
      ),
    ),
  ),
)

is_write : is_authority_write (sample_request "ab" 1001000) ≡ true
unfolding gateway
is_write = refl

five_strikes_example :
    (require_signed_authority_write sample_runtime false
        (after_all sample_runtime "ip" empty_gateway (forged 0 ∷ four))
        (sample_request "ab" 1001000)
      ≡ (
        after_all sample_runtime "ip" empty_gateway (forged 0 ∷ four),
        locked (
            locked_seconds_remaining false
              (after_all sample_runtime "ip" empty_gateway (forged 0 ∷ four)).attempts
              "ip"
              1001000),
      ))
    × (0
        < locked_seconds_remaining false
            (after_all sample_runtime "ip" empty_gateway (forged 0 ∷ four)).attempts
            "ip"
            1001000)
five_strikes_example =
    five_strikes sample_runtime "ip" empty_gateway (forged 0) four (sample_request "ab" 1001000)
      (get-empty "ip") all_forged refl (omega arith) refl is_write (omega arith)
