-- ===== src/Client/Messages.antt =====
-- frontend/src/helpers/signedAuthority.js: what a page says of a failed request. The patterns of
-- the known messages are words, which are looked for without regard to the case of ASCII letters.
use vorliq.Common.{
  ℕ, String, Bool, ◌≡◌, refl, ◌||◌, Option, none, some, List, [], ◌∷◌, any, str_eq, if◌then◌else◌,
}
use vorliq.Common.Text.{codes, lower_codes, one_of, holds_word}
use vorliq.Auth.Lockout.{
  Code, signed_authorization_required, malformed, expired, action_mismatch, domain_mismatch,
  wallet_invalid, public_key_invalid, wallet_mismatch, actor_mismatch, override_rejected,
  body_hash_mismatch, message_mismatch, signature_invalid, replayed,
}

-- The codes that the gateway's answers name.
abbrev pub code_text : Code → String
code_text signed_authorization_required = "SIGNED_AUTHORIZATION_REQUIRED"
code_text malformed = "AUTHORIZATION_MALFORMED"
code_text expired = "AUTHORIZATION_EXPIRED"
code_text action_mismatch = "AUTHORIZATION_ACTION_MISMATCH"
code_text domain_mismatch = "AUTHORIZATION_DOMAIN_MISMATCH"
code_text wallet_invalid = "AUTHORIZATION_WALLET_INVALID"
code_text public_key_invalid = "AUTHORIZATION_PUBLIC_KEY_INVALID"
code_text wallet_mismatch = "AUTHORIZATION_WALLET_MISMATCH"
code_text actor_mismatch = "AUTHORIZATION_ACTOR_MISMATCH"
code_text override_rejected = "AUTHORIZATION_OVERRIDE_REJECTED"
code_text body_hash_mismatch = "AUTHORIZATION_BODY_HASH_MISMATCH"
code_text message_mismatch = "AUTHORIZATION_MESSAGE_MISMATCH"
code_text signature_invalid = "AUTHORIZATION_SIGNATURE_INVALID"
code_text replayed = "AUTHORIZATION_REPLAYED"

abbrev pub authorization_error_codes : List String
authorization_error_codes =
    "SIGNED_AUTHORIZATION_REQUIRED" ∷ "AUTHORIZATION_MALFORMED" ∷ "AUTHORIZATION_EXPIRED"
    ∷ "AUTHORIZATION_ACTION_MISMATCH" ∷ "AUTHORIZATION_DOMAIN_MISMATCH"
    ∷ "AUTHORIZATION_WALLET_INVALID" ∷ "AUTHORIZATION_WALLET_MISMATCH"
    ∷ "AUTHORIZATION_ACTOR_MISMATCH" ∷ "AUTHORIZATION_OVERRIDE_REJECTED"
    ∷ "AUTHORIZATION_BODY_HASH_MISMATCH" ∷ "AUTHORIZATION_MESSAGE_MISMATCH"
    ∷ "AUTHORIZATION_SIGNATURE_INVALID" ∷ "AUTHORIZATION_REPLAYED"
    ∷ "AUTHORIZATION_PUBLIC_KEY_INVALID" ∷ []

-- The texts that an error has: its own message, and those of the answer's data.
pub record PageError : Type 0 where
  pub message : Option String
  pub error_code : Option String
  pub code : Option String
  pub error_message : Option String
  pub data_message : Option String

-- What is said; `friendly` is the text of the known message at that place in the list.
pub data Notice : Type 0 where
  sign_again : Notice
  rejected : Notice
  own : String → Notice
  friendly : ℕ → Notice
  fallback : Notice

-- KNOWN_ELIGIBILITY_MESSAGES: the alternatives of each pattern.
abbrev pub known_eligibility_messages : List (List String)
known_eligibility_messages =
    ("only vlq holders can create governance proposals" ∷ [])
    ∷ ("proposer cannot have more than three active proposals" ∷ [])
    ∷ ("requester already has an active loan lifecycle" ∷ [])
    ∷ ("loan amount cannot be greater than" ∷ [])
    ∷ ("loan amount must be greater than zero" ∷ [])
    ∷ ("only vlq holders with a positive balance can vote" ∷ [])
    ∷ ("voter has already voted" ∷ "requester has already voted" ∷ "proposer has already voted"
        ∷ "repayer has already voted" ∷ "already voted on this" ∷ [])
    ∷ []

unfoldable first_known : ℕ → List (List String) → List ℕ → Notice
unfolding holds_word
first_known n [] upstream = fallback
first_known n (words ∷ rest) upstream =
    let later = first_known (ℕ.suc n) rest upstream in
    if any (λ word. holds_word (codes word) upstream) words then friendly n else later

-- `a || b` of texts that may be undefined
abbrev or_second : Option String → Option String → Option String
or_second none other = other
or_second (some s) other = if str_eq s "" then other else some s

abbrev given_text : Option String → String
given_text none = ""
given_text (some s) = s

abbrev pub upstream_message : PageError → String
upstream_message e = given_text (or_second e.error_message e.data_message)

abbrev is_wallet_message : String → Bool
is_wallet_message s =
    str_eq s "Incorrect password or corrupted saved wallet."
    || str_eq s "No saved Vorliq wallet found."

unfoldable known_or_fallback : PageError → Notice
unfolding first_known
known_or_fallback e = first_known 0 known_eligibility_messages (lower_codes (upstream_message e))

unfoldable of_message : PageError → Option String → Notice
unfolding known_or_fallback
of_message e none = known_or_fallback e
of_message e (some s) = if is_wallet_message s then own s else known_or_fallback e

unfoldable of_code : PageError → Option String → Notice
unfolding of_message
of_code e none = of_message e e.message
of_code e (some code) =
    if one_of authorization_error_codes code
    then if str_eq code "AUTHORIZATION_EXPIRED" || str_eq code "AUTHORIZATION_REPLAYED"
      then sign_again
      else rejected
    else of_message e e.message

unfoldable pub authority_error_message : PageError → Notice
unfolding of_code
authority_error_message e = of_code e (or_second e.error_code e.code)

abbrev pub notice_of : Code → Notice
notice_of expired = sign_again
notice_of replayed = sign_again
notice_of code = rejected

of_gateway_code :
    (code : Code) (e : PageError) (other : Option String)
    → of_code e (or_second (some (code_text code)) other) ≡ notice_of code
unfolding of_code
of_gateway_code expired e other = refl
of_gateway_code replayed e other = refl
of_gateway_code _ e other = refl

-- For every error of the gateway, whatever else the answer holds, the page says to sign again
-- where the authorization was expired or replayed, and that it was rejected otherwise.
pub gateway_noticed :
    (code : Code) (e : PageError)
    → e.error_code ≡ some (code_text code)
    → authority_error_message e ≡ notice_of code
unfolding authority_error_message
gateway_noticed code e h = rw h (of_gateway_code code e e.code)
