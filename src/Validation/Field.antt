-- ===== src/Validation/Field.antt =====
-- The checks of one field: `text`, `requireText`, `requireNumber`, `requireEnum` and those built on them.
-- The names of a field are the one under which its value is passed on, and the others.
use package.text.Mathlib.Text.{starts_with}
use vorliq.Common.{
  ℕ, String, Bool, true, false, not, ◌&&◌, ◌||◌, Option, none, some, List, [], ◌∷◌, str_eq, ltb,
  leb, ◌==◌, if◌then◌else◌,
}
use vorliq.Common.Text.{trim, without_nul, size, codes, lower_codes, codes_eq, is_digit, one_of}
use vorliq.Json.Defs.{Json, str}
use vorliq.Address.{validate_address, is_reserved_address}
use vorliq.Validation.Check.{
  Env, Url, missing, too_long, not_number, not_above_zero, too_large, not_in_list, bad_address,
  not_hex, bad_url, bad_scheme, private_url, refused, passed, rejected, Check, ◌>>=◌, ◌>>◌,
  reject_if, set_field, get, is_given,
}

abbrev pub system_addresses : List String
system_addresses = "SYSTEM" ∷ "VORLIQ_TREASURY" ∷ "LENDING_POOL" ∷ []

unfoldable pub text : Option Json → String
text (some (str s)) = trim (without_nul s)
text v = ""

-- The value is passed on under the first name.
abbrev pub accept_text : String → String → ℕ → String → Check String
accept_text name label max value body =
    if str_eq value ""
    then rejected (missing label)
    else if ltb max (size value)
    then rejected (too_long label max)
    else passed value (set_field name (str value) body)

unfoldable pub require_text : String → List String → String → ℕ → Check String
require_text name others label max body =
    accept_text name label max (text (get body (name ∷ others))) body

-- The word of a list that is the lower-case form of a text.
unfoldable pub find_word : List String → String → Option String
find_word [] value = none
find_word (word ∷ words) value =
    let rest = find_word words value in
    if codes_eq (codes word) (lower_codes value) then some word else rest

abbrev pub accept_word : String → String → Option String → Check String
accept_word name label none body = rejected (not_in_list label)
accept_word name label (some word) body = passed word (set_field name (str word) body)

unfoldable pub require_enum : String → List String → String → List String → Check String
require_enum name others label allowed = do
  value ← require_text name others label 80
  accept_word name label (find_word allowed value)

unfoldable pub validate_wallet : String → List String → String → Check String
validate_wallet name others label = require_text name others label 160

unfoldable pub validate_public_wallet : Bool → String → List String → String → Check String
validate_public_wallet allow_reserved name others label = do
  value ← require_text name others label 96
  let v = validate_address allow_reserved true value
  reject_if (not v.valid) (bad_address label v.errors)
  λ body. passed v.address (set_field name (str v.address) body)

-- `SYSTEM_ADDRESSES.has(value) || isReservedAddress(value)`
unfoldable pub is_system_controlled : String → Bool
is_system_controlled value = one_of system_addresses value || is_reserved_address value

-- /^[0-9a-fA-F]+$/, of a text that is not empty
unfoldable pub all_hex : List ℕ → Bool
all_hex [] = true
all_hex (c ∷ cs) =
    (is_digit c || leb b'a' c && leb c b'f' || leb b'A' c && leb c b'F') && all_hex cs

unfoldable pub validate_signature : String → List String → String → Check String
validate_signature name others label = do
  value ← require_text name others label 512
  reject_if (not (all_hex (codes value))) (not_hex label)
  λ body. passed value body

-- `rejectClientSuppliedFields`
unfoldable pub reject_supplied : List String → String → Check (Unit {0})
reject_supplied names message body = reject_if (is_given (get body names)) (refused message) body

-- /^172\.(1[6-9]|2\d|3[0-1])\./
unfoldable pub is_172_private : List ℕ → Bool
is_172_private (a ∷ b ∷ c ∷ d ∷ e ∷ f ∷ g ∷ rest) =
    a == b'1'
    && b == b'7'
    && c == b'2'
    && d == b'.'
    && g == b'.'
    && (e == b'1' && leb b'6' f && leb f b'9'
        || e == b'2' && is_digit f
        || e == b'3' && (f == b'0' || f == b'1'))
is_172_private cs = false

unfoldable pub ends_with_codes : List ℕ → List ℕ → Bool
ends_with_codes [] cs = codes_eq [] cs
ends_with_codes (x ∷ xs) cs = codes_eq (x ∷ xs) cs || ends_with_codes xs cs

module _ (env : Env) where
  open env use {Number, to_number, number_json, of_nat, less, parse_url, is_ip, is_production}

  abbrev pub accept_number : String → String → ℕ → Option Number → Check Number
  accept_number name label max none body = rejected (not_number label)
  accept_number name label max (some n) body =
      if not (less (of_nat 0) n)
      then rejected (not_above_zero label)
      else if less (of_nat max) n
      then rejected (too_large label)
      else passed n (set_field name (number_json n) body)

  -- The smallest allowed number is 0 in every call.
  unfoldable pub require_number : String → List String → String → ℕ → Check Number
  require_number name others label max body =
      accept_number name label max (to_number (get body (name ∷ others))) body

  unfoldable pub is_private_host : String → Bool
  is_private_host host =
      str_eq host "localhost"
      || str_eq host "::1"
      || starts_with host "127."
      || starts_with host "10."
      || starts_with host "192.168."
      || is_172_private (codes host)
      || starts_with host "169.254."
      || starts_with host "fc"
      || starts_with host "fd"
      || not (is_ip host) && ends_with_codes (codes host) (codes ".local")

  -- .replace(/\/$/, "")
  unfoldable pub drop_last_slash : String → String
  drop_last_slash String.[] = String.[]
  drop_last_slash (String.◌∷◌ c s) =
      let rest = drop_last_slash s in
      if str_eq (String.◌∷◌ c s) "/" then String.[] else String.◌∷◌ c rest

  abbrev pub accept_url : String → String → Option Url → Check String
  accept_url name label none body = rejected (bad_url label)
  accept_url name label (some u) body =
      if not (one_of ("http:" ∷ "https:" ∷ []) u.protocol)
      then rejected (bad_scheme label)
      else if is_private_host u.hostname && is_production
      then rejected (private_url label)
      else passed (drop_last_slash u.href) (set_field name (str (drop_last_slash u.href)) body)

  unfoldable pub validate_public_url : String → List String → String → Check String
  validate_public_url name others label = do
    value ← require_text name others label 240
    accept_url name label (parse_url value)
