-- ===== src/Json/Truth.antt =====
-- Which values count as true, and `||` on them.
use vorliq.Common.{Bool, true, false, not, Option, none, some, str_eq, if◌then◌else◌}
use vorliq.Json.Defs.{Json, null, bool, num, infinite, str, arr, obj}

-- A number that does not count as true is printed as 0.
abbrev pub is_truthy : Option Json → Bool
is_truthy none = false
is_truthy (some null) = false
is_truthy (some (bool b)) = b
is_truthy (some (num n)) = not (str_eq n "0")
is_truthy (some infinite) = true
is_truthy (some (str s)) = not (str_eq s "")
is_truthy (some (arr vs)) = true
is_truthy (some (obj fs)) = true

abbrev pub either : Option Json → Option Json → Option Json
either v other = if is_truthy v then v else other
