-- ===== src/Json/Tests.antt =====
-- Canonical texts of small values.
use Prim.Native.String.{◌++◌}
use vorliq.Common.{String, some, ◌≡◌, ◌≢◌, refl, List, [], ◌∷◌, ℕ, arith, ap}
use vorliq.Common.Text.{units, units_le}
use vorliq.Json.Defs.{Json, num, str, arr, obj, nil, cons, end, field}
use vorliq.Json.Canonical.{canonical_json, object_text}
use vorliq.Json.Canonical.Reorder.{SameValue, same_obj, swap, canonical_json_order}

abbrev sample_quote : String → String
sample_quote s = "'" ++ (s ++ "'")

abbrev b_first : Json
b_first = obj (field "b" (num "1") (field "a" (arr (cons (str "x") nil)) end))

abbrev a_first : Json
a_first = obj (field "a" (arr (cons (str "x") nil)) (field "b" (num "1") end))

sorted_keys : canonical_json sample_quote b_first ≡ some "{'a':['x'],'b':1}"
unfolding canonical_json object_text units units_le
sorted_keys = refl

head_of : List ℕ → ℕ
head_of [] = 0
head_of (x ∷ xs) = x

b≢a : units "b" ≢ units "a"
unfolding units head_of
b≢a e = absurd (omega (arith, ap head_of e))

reordered : SameValue b_first a_first
reordered = same_obj (swap "b" "a" (num "1") (arr (cons (str "x") nil)) end b≢a)

canonical_json_order_example :
    canonical_json sample_quote b_first ≡ canonical_json sample_quote a_first
canonical_json_order_example = canonical_json_order sample_quote b_first a_first reordered
