-- ===== src/Pagination.antt =====
-- backend/pagination.js: the limit and offset of a request, and the page of a list that they give.
-- `Number.parseInt(text, 10)` is a parameter; it gives no number where JavaScript gives NaN.
pub mod Walk
mod Tests
use vorliq.Common.{
  ℕ, zero, suc, ◌+◌, String, Bool, true, false, Option, none, some, List, ltb, if◌then◌else◌,
  length, take, drop, min,
}
use vorliq.Common.Int.{ℤ, pos, negsuc}

abbrev pub default_limit : ℕ
default_limit = 50

abbrev pub max_limit : ℕ
max_limit = 200

-- The fields of a query, absent or a text.
pub record Query : Type 0 where
  pub limit : Option String
  pub offset : Option String

-- `limit must be a positive integer` and `offset must be zero or greater` are errors of status 400.
pub data Parsed : Type 0 where
  parsed : ℕ → ℕ → Parsed
  bad_limit : Parsed
  bad_offset : Parsed

pub record Page {ℓ} (A : Type ℓ) : Type ℓ where
  pub items : List A
  pub total : ℕ
  pub limit : ℕ
  pub offset : ℕ
  pub has_more : Bool

-- `Number.parseInt(raw ?? otherwise, 10)`
abbrev pub read_number : (String → Option ℤ) → Option String → ℕ → Option ℤ
read_number parse_int none otherwise = some (pos otherwise)
read_number parse_int (some raw) otherwise = parse_int raw

abbrev pub check_offset : ℕ → Option ℤ → Parsed
check_offset limit (some (pos offset)) = parsed (min limit max_limit) offset
check_offset limit (some (negsuc n)) = bad_offset
check_offset limit none = bad_offset

abbrev pub check_limit : Option ℤ → Option ℤ → Parsed
check_limit (some (pos zero)) offset = bad_limit
check_limit (some (pos (suc n))) offset = check_offset (suc n) offset
check_limit (some (negsuc n)) offset = bad_limit
check_limit none offset = bad_limit

unfoldable pub parse_pagination : (String → Option ℤ) → Query → ℕ → Parsed
parse_pagination parse_int query otherwise =
    check_limit (read_number parse_int query.limit otherwise) (read_number parse_int query.offset 0)

-- `items.slice(offset, offset + limit)` and what goes with it.
abbrev pub page_at {ℓ} : {A : Type ℓ} → List A → ℕ → ℕ → Page A
page_at items limit offset = record {
  items = take limit (drop offset items);
  total = length items;
  limit = limit;
  offset = offset;
  has_more = ltb (offset + limit) (length items);
}

-- A page, or none where an error is thrown.
abbrev pub page_of {ℓ} : {A : Type ℓ} → List A → Parsed → Option (Page A)
page_of items (parsed limit offset) = some (page_at items limit offset)
page_of items bad_limit = none
page_of items bad_offset = none

unfoldable pub apply_pagination {ℓ} :
    {A : Type ℓ} → (String → Option ℤ) → List A → Query → ℕ → Option (Page A)
apply_pagination parse_int items query otherwise =
    page_of items (parse_pagination parse_int query otherwise)
