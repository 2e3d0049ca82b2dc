-- ===== src/Pagination/Tests.antt =====
-- Runs of pagination, with numbers written in strokes.
use vorliq.Common.{ℕ, zero, suc, String, true, ◌≡◌, refl, ap, Option, some, List, [], ◌∷◌, arith}
use vorliq.Common.Int.{ℤ, pos}
use vorliq.Pagination.{apply_pagination, parse_pagination}
use vorliq.Pagination.Walk.{walk, walk_all}

strokes : ℕ → String
strokes zero = String.[]
strokes (suc n) = String.◌∷◌ "I" (strokes n)

count : String → ℕ
count String.[] = 0
count (String.◌∷◌ c s) = suc (count s)

abbrev read_strokes : String → Option ℤ
read_strokes s = some (pos (count s))

count-strokes : (n : ℕ) → count (strokes n) ≡ n
unfolding count strokes
count-strokes zero = refl
count-strokes (suc n) = ap suc (count-strokes n)

abbrev digits : List ℕ
digits = 3 ∷ 1 ∷ 4 ∷ 1 ∷ 5 ∷ []

walk_all_example : walk strokes read_strokes 7 digits (some "II") 50 0 ≡ digits
walk_all_example =
    walk_all strokes read_strokes (λ n. ap (λ k. some (pos k)) (count-strokes n)) digits (some "II")
      50 1 7 (unfold count in refl) (omega arith)

second_page :
    apply_pagination read_strokes digits (record { limit = some "II"; offset = some "II" }) 50
    ≡ some (record { items = 4 ∷ 1 ∷ []; total = 5; limit = 2; offset = 2; has_more = true })
unfolding apply_pagination parse_pagination count
second_page = refl
