-- ===== src/Auth/Signed/Envelope.antt =====
-- The envelope of a signed authorization: errors as values, the fields that are read from it, and
-- the patterns and tables that they are tested against.
use vorliq.Common.{
  ℕ, ◌+◌, String, Bool, true, false, not, ◌&&◌, ◌||◌, Option, none, some, List, [], ◌∷◌, str_eq,
  leb, ◌==◌, any, length,
}
use vorliq.Common.Int.{ℤ, pos, ltb_ℤ, ◌+ℤ◌}
use vorliq.Common.Text.{
  codes, lower_codes, codes_eq, all_codes, is_digit, is_upper, is_lower, one_of,
}
use vorliq.Json.Defs.{Json, null, str, obj, Fields, end, field, lookup}
use vorliq.Auth.Lockout.{Code, signed_authorization_required}
use vorliq.Auth.Signed.Routes.{
  max_age_seconds, future_skew_seconds, role_like_identities, override_fields,
}

-- A value, or the code of the error that was thrown.
pub data Result (A : Type 0) : Type 0 where
  ok : A → Result A
  fail : Code → Result A

infixl 5 ◌>>=◌ ◌>>◌
abbrev pub ◌>>=◌ : {A B : Type 0} → Result A → (A → Result B) → Result B
fail code >>= next = fail code
ok value >>= next = next value

abbrev pub ◌>>◌ : {B : Type 0} → Result (Unit {0}) → Result B → Result B
checked >> rest = checked >>= λ done. rest

-- `if (!test) throw authorizationError(code, …)`
abbrev pub require : Bool → Code → Result (Unit {0})
require true code = ok tt
require false code = fail code

abbrev pub or_fail : {A : Type 0} → Option A → Code → Result A
or_fail none code = fail code
or_fail (some a) code = ok a

-- What the function returns.
pub record Authorized : Type 0 where
  pub action : String
  pub wallet : String
  pub nonce : String
  pub timestamp : ℤ
  pub body_hash : String

abbrev pub required_fields : List String
required_fields =
    "wallet" ∷ "public_key" ∷ "signature" ∷ "message" ∷ "timestamp" ∷ "nonce" ∷ "action"
    ∷ "body_hash" ∷ "domain" ∷ []

-- `authorization[field] === undefined || authorization[field] === null`
unfoldable pub is_absent : Option Json → Bool
is_absent none = true
is_absent (some null) = true
is_absent (some v) = false

unfoldable pub authorization_object : Option Json → Result Fields
authorization_object (some (obj fs)) = ok fs
authorization_object _ = fail signed_authorization_required

-- Reading a field that `required` found.
unfoldable pub value_at : Fields → String → Json
value_at fs name = elim (lookup name fs) [ none ↦ null | some v ↦ v ]

-- /^[A-Za-z0-9._:-]{16,128}$/
unfoldable pub is_nonce_code : ℕ → Bool
is_nonce_code c =
    is_upper c || is_lower c || is_digit c || c == b'.' || c == b'_' || c == b':' || c == b'-'

unfoldable pub nonce_pattern : String → Bool
unfolding is_nonce_code all_codes
nonce_pattern s =
    all_codes is_nonce_code (codes s) && leb 16 (length (codes s)) && leb (length (codes s)) 128

-- /^[a-f0-9]{64}$/ of a text's lower-case form
unfoldable pub hash_pattern : List ℕ → Bool
unfolding all_codes
hash_pattern cs = all_codes (λ c. leb b'a' c && leb c b'f' || is_digit c) cs && length cs == 64

-- /^[a-fA-F0-9]+$/
unfoldable pub signature_pattern : List ℕ → Bool
unfolding all_codes
signature_pattern [] = false
signature_pattern (c ∷ cs) =
    all_codes (λ c. leb b'a' c && leb c b'f' || leb b'A' c && leb c b'F' || is_digit c) (c ∷ cs)

unfoldable pub is_text : Json → String → Bool
is_text (str s) t = str_eq s t
is_text v t = false

-- `ROLE_LIKE_IDENTITIES.has(wallet.toLowerCase())`
unfoldable pub is_role_like : String → Bool
is_role_like wallet = any (λ name. codes_eq (codes name) (lower_codes wallet)) role_like_identities

-- `Object.keys(payload).some((field) => OVERRIDE_FIELDS.has(field))`
unfoldable pub has_override : Fields → Bool
has_override end = false
has_override (field k v fs) = one_of override_fields k || has_override fs

-- The timestamp lies in the allowed clock window.
unfoldable pub in_window : ℤ → ℕ → Bool
in_window timestamp now = not (
    ltb_ℤ (timestamp +ℤ pos max_age_seconds) (pos now)
    || ltb_ℤ (pos (now + future_skew_seconds)) timestamp)
