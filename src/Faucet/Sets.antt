-- ===== src/Faucet/Sets.antt =====
-- The size of a set of texts, by counting into a list that covers it.
use vorliq.Common.{
  suc, ◌≤◌, String, Bool, true, false, ◌≡◌, refl, List, [], ◌∷◌, str_eq, eq_iff, arith,
  if◌then◌else◌, any, length, All, inl, inr, Bool-cases, sym, ◌∙◌,
}
use vorliq.Faucet.{set_of}

abbrev pub has : List String → String → Bool
has ws w = any (str_eq w) ws

-- Every text of the first list is in the second.
abbrev pub Covers : List String → List String → Type 0
Covers ws xs = All (λ x. has ws x ≡ true) xs

drop_text : String → List String → List String
drop_text x [] = []
drop_text x (w ∷ ws) = let rest = drop_text x ws in if str_eq x w then rest else w ∷ rest

length-drop_text-le : (x : String) (ws : List String) → length (drop_text x ws) ≤ length ws
unfolding drop_text
length-drop_text-le x [] = omega arith
length-drop_text-le x (w ∷ ws) = ground (arith, length-drop_text-le x ws)

length-drop_text-lt :
    (x : String) (ws : List String) → has ws x ≡ true → suc (length (drop_text x ws)) ≤ length ws
unfolding drop_text
length-drop_text-lt x [] h = cc
length-drop_text-lt x (w ∷ ws) h =
    ground (arith, length-drop_text-lt x ws, length-drop_text-le x ws)

has-drop_text :
    (x y : String) (ws : List String)
    → has ws y ≡ true
    → str_eq x y ≡ false
    → has (drop_text x ws) y ≡ true
unfolding drop_text
has-drop_text x y [] h d = cc
has-drop_text x y (w ∷ ws) h d =
    ground (arith, has-drop_text x y ws, eq_iff x y, eq_iff x w, eq_iff y w)

pub has-set_of : (xs : List String) (x : String) → has (set_of xs) x ≡ has xs x
unfolding set_of
has-set_of [] x = refl
has-set_of (y ∷ xs) x = ground (arith, has-set_of xs x, has-set_of xs y, eq_iff x y)

Covers-drop_text :
    (x : String) (ws xs : List String)
    → Covers ws xs
    → has xs x ≡ false
    → Covers (drop_text x ws) xs
Covers-drop_text x ws [] c h = tt
Covers-drop_text x ws (y ∷ xs) (here, c) h =
    (has-drop_text x y ws here (ground arith), Covers-drop_text x ws xs c (ground arith))

-- A set that a list covers has no more elements than the list.
pub length-set_of-le : (xs ws : List String) → Covers ws xs → length (set_of xs) ≤ length ws
unfolding set_of
length-set_of-le [] ws c = omega arith
length-set_of-le (x ∷ xs) ws (here, c) = elim (Bool-cases (has (set_of xs) x)) [
  | inl old ↦ rw old (length-set_of-le xs ws c)
  | inr new ↦ rw new (
      omega (
        arith,
        length-set_of-le xs (drop_text x ws)
            (Covers-drop_text x ws xs c (sym (has-set_of xs x) ∙ new)),
        length-drop_text-lt x ws here,
      ))
]
