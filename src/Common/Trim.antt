-- ===== src/Common/Trim.antt =====
-- Texts by their codes: concatenation, classes of characters, and texts that `trim` leaves alone.
use Prim.Native.Nat.{ℕ, zero, suc, ◌<◌}
use Prim.Native.Char.{Char, code}
use Prim.Native.String.{String, ◌++◌ as join}
use Prim.Native.String.append
use mathlib.Core.Path.{◌≡◌, refl, ap, ◌∙◌}
use mathlib.Core.Bool.{Bool, true, false, not, ◌&&◌}
use mathlib.Core.List.{List, [], ◌∷◌, ◌++◌}
use native.Mathlib.Omega.{arith}
use mathlib.Core.Logic.{inl, inr}
use vorliq.Common.Tests.{ltb, Bool-cases}
use vorliq.Common.Text.{
  codes, is_space, drop_last_space, trim, trim_start, trim_end, all_codes, codes_eq,
}

pub codes-join : (s t : String) → codes (join s t) ≡ codes s ++ codes t
codes-join String.[] t = ap codes (append.nil t)
codes-join (String.◌∷◌ c s) t =
    ap codes (append.cons c s t) ∙ ap (λ cs. code c ∷ cs) (codes-join s t)

pub all_codes-append :
    (p : ℕ → Bool) (xs ys : List ℕ) → all_codes p (xs ++ ys) ≡ (all_codes p xs && all_codes p ys)
unfolding all_codes
all_codes-append p [] ys = refl
all_codes-append p (x ∷ xs) ys = ground (arith, all_codes-append p xs ys)

pub all_codes_mono :
    {p q : ℕ → Bool}
    → ((c : ℕ) → p c ≡ true → q c ≡ true)
    → (xs : List ℕ) → all_codes p xs ≡ true
    → all_codes q xs ≡ true
unfolding all_codes
all_codes_mono imp [] h = refl
all_codes_mono imp (x ∷ xs) h = ground (arith, imp x, all_codes_mono imp xs)

abbrev pub not_space : ℕ → Bool
not_space c = not (is_space c)

trim_start_id : (s : String) → all_codes not_space (codes s) ≡ true → trim_start s ≡ s
unfolding trim_start all_codes
trim_start_id String.[] h = refl
trim_start_id (String.◌∷◌ c s) h = ground arith

drop_last_space_id :
    (c : Char) (s : String) → is_space (code c) ≡ false → drop_last_space c s ≡ String.◌∷◌ c s
unfolding drop_last_space
drop_last_space_id c String.[] h = ground arith
drop_last_space_id c (String.◌∷◌ d s) h = refl

trim_end-cons : (c : Char) (s : String) → trim_end (String.◌∷◌ c s) ≡ drop_last_space c (trim_end s)
unfolding trim_end
trim_end-cons c s = refl

solid-cons :
    (c : ℕ) (cs : List ℕ)
    → all_codes not_space (c ∷ cs) ≡ true
    → (is_space c ≡ false) × (all_codes not_space cs ≡ true)
unfolding all_codes
solid-cons c cs h = ground arith

trim_end_id : (s : String) → all_codes not_space (codes s) ≡ true → trim_end s ≡ s
trim_end_id String.[] h = unfold trim_end in refl
trim_end_id (String.◌∷◌ c s) h =
    let (head, tail) = solid-cons (code c) (codes s) h in
    trim_end-cons c s ∙ ap (drop_last_space c) (trim_end_id s tail) ∙ drop_last_space_id c s head

pub trim_id : (s : String) → all_codes not_space (codes s) ≡ true → trim s ≡ s
unfolding trim
trim_id s h = ap trim_end (trim_start_id s h) ∙ trim_end_id s h

pub codes_eq_refl : (xs : List ℕ) → codes_eq xs xs ≡ true
unfolding codes_eq
codes_eq_refl [] = refl
codes_eq_refl (x ∷ xs) = ground (arith, codes_eq_refl xs)

-- A test that holds below a bound.
unfoldable pub all_below : ℕ → (ℕ → Bool) → Bool
all_below zero p = true
all_below (suc n) p = p n && all_below n p

pub all_below_lem : (n : ℕ) (p : ℕ → Bool) (d : ℕ) → all_below n p ≡ true → d < n → p d ≡ true
unfolding all_below
all_below_lem zero p d h lt = absurd (omega arith)
all_below_lem (suc n) p d h lt = elim (Bool-cases (ltb d n)) [
  | inl below ↦ all_below_lem n p d (ground arith) (ground arith)
  | inr last ↦ let e : d ≡ n = ground arith in rw e (ground arith)
]
