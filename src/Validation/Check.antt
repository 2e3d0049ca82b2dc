-- ===== src/Validation/Check.antt =====
-- A check reads and rewrites the body of the request, or ends with the answer that rejects it. The code
-- sends that answer and each caller returns once it is sent.
use vorliq.Common.{
  ℕ, String, Bool, true, false, Option, none, some, List, [], ◌∷◌, str_eq, if◌then◌else◌,
}
use vorliq.Json.Defs.{Json, null, Fields, end, field, lookup}
use vorliq.Address.{Complaint}

-- A URL as `new URL` takes it apart: `hostname` is its lower-case form, `href` what toString gives.
pub record Url : Type 0 where
  pub protocol : String
  pub hostname : String
  pub href : String

-- What the checks use of the JavaScript runtime and of Node, and the setting of NODE_ENV.
pub record Env : Type 1 where
  -- The numbers: `to_number` is none where Number(value) is not finite.
  pub Number : Type 0
  pub to_number : Option Json → Option Number
  pub number_json : Number → Json
  pub of_nat : ℕ → Number
  pub less : Number → Number → Bool
  pub is_integer : Number → Bool
  -- JSON.stringify of a text, new URL (none where it throws), net.isIP(host) !== 0
  pub quote : String → String
  pub parse_url : String → Option Url
  pub is_ip : String → Bool
  pub is_production : Bool

-- The messages of the rejections, by their label.
pub data Problem : Type 0 where
  missing : String → Problem
  too_long : String → ℕ → Problem
  not_number : String → Problem
  not_above_zero : String → Problem
  too_large : String → Problem
  not_in_list : String → Problem
  bad_address : String → List Complaint → Problem
  not_hex : String → Problem
  bad_url : String → Problem
  bad_scheme : String → Problem
  private_url : String → Problem
  refused : String → Problem

-- The result of a check, with the body that it leaves. A rejected request is answered with status 400.
pub data Checked (A : Type 0) : Type 0 where
  passed : A → Fields → Checked A
  rejected : Problem → Checked A

abbrev pub Check : Type 0 → Type 0
Check A = Fields → Checked A

abbrev pub and_then : {A B : Type 0} → Checked A → (A → Check B) → Checked B
and_then (passed a body) next = next a body
and_then (rejected p) next = rejected p

infixl 5 ◌>>=◌ ◌>>◌
abbrev pub ◌>>=◌ : {A B : Type 0} → Check A → (A → Check B) → Check B
◌>>=◌ check next body = and_then (check body) next

abbrev pub ◌>>◌ : {A B : Type 0} → Check A → Check B → Check B
check >> rest = check >>= λ done. rest

abbrev pub done : Check (Unit {0})
done body = passed tt body

-- if (test) return reject(…)
abbrev pub reject_if : Bool → Problem → Check (Unit {0})
reject_if true p body = rejected p
reject_if false p body = passed tt body

-- body[name] = value
unfoldable pub set_field : String → Json → Fields → Fields
set_field name value end = field name value end
set_field name value (field k v rest) =
    if str_eq k name then field k value rest else field k v (set_field name value rest)

-- The value, where it is neither undefined nor null.
abbrev pub given : Option Json → Option Json
given none = none
given (some null) = none
given (some v) = some v

abbrev pub or_else : Option Json → Option Json → Option Json
or_else none other = other
or_else (some v) other = some v

unfoldable pub get : Fields → List String → Option Json
get body [] = none
get body (name ∷ names) = let rest = get body names in or_else (given (lookup name body)) rest

-- Whether a field is there, as `get(…) !== undefined` tests it.
abbrev pub is_given : Option Json → Bool
is_given none = false
is_given (some v) = true
