-- ===== src/Json/Canonical/Order.antt =====
-- The order of keys by their UTF-16 units is total, transitive and antisymmetric.
use vorliq.Common.{ℕ, true, false, ◌≡◌, refl, List, [], ◌∷◌, arith}
use vorliq.Common.Text.{units_le}

pub units_le_total : (xs ys : List ℕ) → units_le xs ys ≡ false → units_le ys xs ≡ true
unfolding units_le
units_le_total [] ys h = cc
units_le_total (x ∷ xs) [] h = refl
units_le_total (x ∷ xs) (y ∷ ys) h = ground (arith, units_le_total xs ys)

pub units_le_antisymm : (xs ys : List ℕ) → units_le xs ys ≡ true → units_le ys xs ≡ true → xs ≡ ys
unfolding units_le
units_le_antisymm [] [] h k = refl
units_le_antisymm [] (y ∷ ys) h k = cc
units_le_antisymm (x ∷ xs) [] h k = cc
units_le_antisymm (x ∷ xs) (y ∷ ys) h k = ground (arith, units_le_antisymm xs ys)

pub units_le_trans :
    (xs ys zs : List ℕ) → units_le xs ys ≡ true → units_le ys zs ≡ true → units_le xs zs ≡ true
unfolding units_le
units_le_trans [] ys zs h k = refl
units_le_trans (x ∷ xs) [] zs h k = cc
units_le_trans (x ∷ xs) (y ∷ ys) [] h k = cc
units_le_trans (x ∷ xs) (y ∷ ys) (z ∷ zs) h k = ground (arith, units_le_trans xs ys zs)
