-- ===== src/Common/Text.antt =====
-- The text operations of JavaScript that the code uses, on texts of Unicode scalar values. A
-- length counts UTF-16 units, as `.length` does. `to_lower` changes the ASCII letters only.
use Prim.Native.Nat.{ℕ, suc, ◌+◌, ◌-◌, ◌/◌, ◌%◌}
use Prim.Native.Char.{Char, code}
use Prim.Native.String.{String}
use mathlib.Core.Path.{◌≡◌, refl}
use mathlib.Core.Bool.{Bool, true, false, ◌&&◌, ◌||◌}
use mathlib.Core.List.{List, [], ◌∷◌, ◌++◌, map}
use native.Mathlib.Omega.{arith}
use text.Mathlib.Text.{◌==◌ as str_eq}
use vorliq.Common.Tests.{if◌then◌else◌, ltb, leb, ◌==◌}
use vorliq.Common.Lists.{any}

-- The characters that `trim` removes.
unfoldable pub is_space : ℕ → Bool
is_space c =
    leb 9 c && leb c 13
    || c == 32
    || c == 160
    || c == 0x1680
    || leb 0x2000 c && leb c 0x200a
    || c == 0x2028
    || c == 0x2029
    || c == 0x202f
    || c == 0x205f
    || c == 0x3000
    || c == 0xfeff

unfoldable pub trim_start : String → String
unfolding is_space
trim_start String.[] = String.[]
trim_start (String.◌∷◌ c s) =
    let rest = trim_start s in if is_space (code c) then rest else String.◌∷◌ c s

unfoldable pub drop_last_space : Char → String → String
unfolding is_space
drop_last_space c String.[] = if is_space (code c) then String.[] else String.◌∷◌ c String.[]
drop_last_space c (String.◌∷◌ d s) = String.◌∷◌ c (String.◌∷◌ d s)

unfoldable pub trim_end : String → String
unfolding drop_last_space
trim_end String.[] = String.[]
trim_end (String.◌∷◌ c s) = drop_last_space c (trim_end s)

unfoldable pub trim : String → String
unfolding trim_start trim_end
trim s = trim_end (trim_start s)

-- s.replace(/\u0000/g, "")
unfoldable pub without_nul : String → String
without_nul String.[] = String.[]
without_nul (String.◌∷◌ c s) =
    let rest = without_nul s in if code c == 0 then rest else String.◌∷◌ c rest

-- The code points of a text.
abbrev pub codes : String → List ℕ
codes String.[] = []
codes (String.◌∷◌ c s) = code c ∷ codes s

-- The UTF-16 units of a text.
abbrev pub units_of : ℕ → List ℕ
units_of c =
    if ltb c 0x10000
    then c ∷ []
    else (0xd800 + (c - 0x10000) / 0x400) ∷ (0xdc00 + (c - 0x10000) % 0x400) ∷ []

unfoldable pub units : String → List ℕ
units String.[] = []
units (String.◌∷◌ c s) = units_of (code c) ++ units s

abbrev pub count_units : List ℕ → ℕ
count_units [] = 0
count_units (c ∷ cs) = suc (count_units cs)

-- s.length
unfoldable pub size : String → ℕ
unfolding units
size s = count_units (units s)

unfoldable pub lower_code : ℕ → ℕ
lower_code c = if leb b'A' c && leb c b'Z' then c + 32 else c

abbrev pub is_digit : ℕ → Bool
is_digit c = leb b'0' c && leb c b'9'

abbrev pub is_upper : ℕ → Bool
is_upper c = leb b'A' c && leb c b'Z'

abbrev pub is_lower : ℕ → Bool
is_lower c = leb b'a' c && leb c b'z'

-- Every code passes a test, as a pattern of one class of characters asks.
unfoldable pub all_codes : (ℕ → Bool) → List ℕ → Bool
all_codes p [] = true
all_codes p (c ∷ cs) = p c && all_codes p cs

unfoldable pub is_prefix : List ℕ → List ℕ → Bool
is_prefix [] ys = true
is_prefix (x ∷ xs) [] = false
is_prefix (x ∷ xs) (y ∷ ys) = x == y && is_prefix xs ys

-- A word stands somewhere in a text, both as codes.
unfoldable pub holds_word : List ℕ → List ℕ → Bool
unfolding is_prefix
holds_word word [] = is_prefix word []
holds_word word (c ∷ cs) = is_prefix word (c ∷ cs) || holds_word word cs

-- The texts of a list that equal s.
abbrev pub one_of : List String → String → Bool
one_of xs s = any (λ x. str_eq x s) xs

-- Comparison of lists of units, as `<=` on texts and `sort()` make it.
unfoldable pub units_le : List ℕ → List ℕ → Bool
units_le [] ys = true
units_le (x ∷ xs) [] = false
units_le (x ∷ xs) (y ∷ ys) = let rest = units_le xs ys in if x == y then rest else ltb x y

-- The code points of s.toLowerCase().
unfoldable pub lower_codes : String → List ℕ
unfolding lower_code
lower_codes s = map lower_code (codes s)

unfoldable pub codes_eq : List ℕ → List ℕ → Bool
codes_eq [] [] = true
codes_eq (x ∷ xs) (y ∷ ys) = x == y && codes_eq xs ys
codes_eq _ _ = false

pub codes_eq_sound : (xs ys : List ℕ) → codes_eq xs ys ≡ true → xs ≡ ys
unfolding codes_eq
codes_eq_sound [] [] h = refl
codes_eq_sound (x ∷ xs) (y ∷ ys) h = ground (arith, codes_eq_sound xs ys)
codes_eq_sound _ _ h = cc
