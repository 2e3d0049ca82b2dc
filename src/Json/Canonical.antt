-- ===== src/Json/Canonical.antt =====
-- `canonicalJson` of backend/middleware/signedAuthorization.js: a text in which the keys of each
-- object stand in the order of their UTF-16 units, as `Object.keys(value).sort()` puts them.
-- `none` is the error that the function throws on a number that is not finite.
mod Order
pub mod Reorder
use Prim.Native.String.{◌++◌}
use vorliq.Common.{String, Bool, true, false, Option, none, some, List, [], ◌∷◌, if◌then◌else◌}
use vorliq.Common.Text.{units, units_le}
use vorliq.Json.Defs.{
  Json, null, bool, num, infinite, str, arr, obj, Items, nil, cons, Fields, end, field,
}

infixl 5 ◌>>=◌
abbrev pub ◌>>=◌ {ℓ κ} : {A : Type ℓ} {B : Type κ} → Option A → (A → Option B) → Option B
none >>= f = none
some a >>= f = f a

-- A key with the canonical text of its value.
abbrev pub Row : Type 0
Row = String × String

abbrev pub row_le : Row → Row → Bool
row_le r s = units_le (units r.0) (units s.0)

pub insert_row : Row → List Row → List Row
insert_row r [] = r ∷ []
insert_row r (s ∷ rows) = if row_le r s then r ∷ s ∷ rows else s ∷ insert_row r rows

unfoldable pub sort_rows : List Row → List Row
unfolding insert_row
sort_rows [] = []
sort_rows (r ∷ rows) = insert_row r (sort_rows rows)

-- Array.prototype.join
unfoldable pub join_with : String → List String → String
join_with sep [] = ""
join_with sep (s ∷ []) = s
join_with sep (s ∷ t ∷ rest) = s ++ (sep ++ join_with sep (t ∷ rest))

abbrev pub bool_text : Bool → String
bool_text true = "true"
bool_text false = "false"

module _ (quote : String → String) where
  unfoldable pub row_texts : List Row → List String
  row_texts [] = []
  row_texts ((k, v) ∷ rows) = (quote k ++ (":" ++ v)) ∷ row_texts rows

  unfoldable pub object_text : List Row → String
  unfolding sort_rows join_with row_texts
  object_text rows = "{" ++ (join_with "," (row_texts (sort_rows rows)) ++ "}")

  unfoldable mutual
    pub canonical_json : Json → Option String
    canonical_json null = some "null"
    canonical_json (bool b) = some (bool_text b)
    canonical_json (num text) = some text
    canonical_json infinite = none
    canonical_json (str s) = some (quote s)
    canonical_json (arr xs) =
        canonical_items xs >>= λ texts. some ("[" ++ (join_with "," texts ++ "]"))
    canonical_json (obj fs) = canonical_rows fs >>= λ rows. some (object_text rows)

    pub canonical_items : Items → Option (List String)
    canonical_items nil = some []
    canonical_items (cons x xs) =
        canonical_json x >>= λ text. canonical_items xs >>= λ texts. some (text ∷ texts)

    pub canonical_rows : Fields → Option (List Row)
    canonical_rows end = some []
    canonical_rows (field k v fs) =
        canonical_json v >>= λ text. canonical_rows fs >>= λ rows. some ((k, text) ∷ rows)
