-- ===== src/Address.antt =====
-- backend/address.js: which texts are addresses of wallets.
pub mod Laws
use vorliq.Common.{
  ℕ, String, Bool, true, false, not, ◌&&◌, ◌||◌, List, [], ◌∷◌, ◌++◌, str_eq, ltb, leb, ◌==◌,
  if◌then◌else◌,
}
use vorliq.Common.Text.{trim, without_nul, size, codes, is_digit, is_upper, is_lower, one_of}

abbrev pub reserved_addresses : List String
reserved_addresses = "SYSTEM" ∷ "VORLIQ_TREASURY" ∷ "LENDING_POOL" ∷ []

abbrev pub min_length : ℕ
min_length = 16

abbrev pub max_length : ℕ
max_length = 96

-- /^[1-9A-HJ-NP-Za-km-z]+$/
unfoldable pub is_base58_code : ℕ → Bool
is_base58_code c =
    is_digit c && not (c == b'0')
    || is_upper c && not (c == b'I') && not (c == b'O')
    || is_lower c && not (c == b'l')

unfoldable pub all_base58 : List ℕ → Bool
all_base58 [] = true
all_base58 (c ∷ cs) = is_base58_code c && all_base58 cs

unfoldable pub base58_pattern : String → Bool
base58_pattern s = not (str_eq s "") && all_base58 (codes s)

unfoldable pub normalize_address : String → String
normalize_address address = trim (without_nul address)

unfoldable pub is_reserved_address : String → Bool
is_reserved_address address = one_of reserved_addresses (normalize_address address)

-- The messages, less the label that they begin with.
pub data Complaint : Type 0 where
  required : Complaint
  reserved_system_address : Complaint
  not_base58 : Complaint
  bad_length : Complaint

pub record Verdict : Type 0 where
  pub address : String
  pub valid : Bool
  pub looks_valid : Bool
  pub errors : List Complaint
  pub warnings : List Complaint

abbrev pub note_if : Bool → Complaint → List Complaint
note_if true c = c ∷ []
note_if false c = []

abbrev pub is_none : List Complaint → Bool
is_none [] = true
is_none (c ∷ cs) = false

abbrev pub verdict : String → List Complaint → List Complaint → Verdict
verdict address errors warnings = record {
  address = address;
  valid = is_none errors;
  looks_valid = is_none errors && is_none warnings;
  errors = errors;
  warnings = warnings;
}

unfoldable pub is_bad_length : String → Bool
is_bad_length s = ltb (size s) min_length || ltb max_length (size s)

-- `validateAddress` with its options `allowReserved` and `strictLength`
unfoldable pub validate_address : Bool → Bool → String → Verdict
validate_address allow_reserved strict address =
    let normalized = normalize_address address in
    let reserved = is_reserved_address normalized in
    if str_eq normalized ""
    then verdict normalized (required ∷ []) []
    else verdict normalized
        (note_if (reserved && not allow_reserved) reserved_system_address
          ++ (note_if (not reserved && not (base58_pattern normalized)) not_base58
              ++ note_if (not reserved && is_bad_length normalized && strict) bad_length))
        (note_if (not reserved && is_bad_length normalized && not strict) bad_length)
