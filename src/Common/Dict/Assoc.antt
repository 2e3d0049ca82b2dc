-- ===== src/Common/Dict/Assoc.antt =====
-- Association lists with text keys, in insertion order as a JavaScript Map keeps them.
use Prim.Native.String.{String}
use mathlib.Core.Path.{◌≡◌, refl}
use mathlib.Core.Logic.{inl, inr}
use mathlib.Core.Option.{Option, none, some}
use mathlib.Core.List.{List, [], ◌∷◌}
use native.Mathlib.Omega.{arith}
use text.Mathlib.Text.{◌==◌ as str_eq}
use text.Mathlib.TextEquality.{eq_iff}
use mathlib.Core.Bool.{Bool, false, ◌&&◌, ◌||◌}
use vorliq.Common.Lists.{any}
use vorliq.Common.Tests.{if◌then◌else◌, Option-cases, Bool-cases}

module _ {ℓ} {V : Type ℓ} where
  unfoldable pub lookup : List (String × V) → String → Option V
  lookup [] key = none
  lookup (entry ∷ rest) key = if str_eq entry.0 key then some entry.1 else lookup rest key

  -- An old key keeps its place, a new one goes to the end.
  unfoldable pub assign : List (String × V) → String → V → List (String × V)
  assign [] key value = (key, value) ∷ []
  assign (entry ∷ rest) key value =
      if str_eq entry.0 key then (entry.0, value) ∷ rest else entry ∷ assign rest key value

  keep_some : String → Option V → List (String × V) → List (String × V)
  keep_some key none rest = rest
  keep_some key (some value) rest = (key, value) ∷ rest

  -- One pass over the entries that rewrites each value or deletes its key.
  unfoldable pub update_all : (String → V → Option V) → List (String × V) → List (String × V)
  unfolding keep_some
  update_all f [] = []
  update_all f (entry ∷ rest) = keep_some entry.0 (f entry.0 entry.1) (update_all f rest)

  unfoldable pub erase_key : List (String × V) → String → List (String × V)
  erase_key [] key = []
  erase_key (entry ∷ rest) key =
      let others = erase_key rest key in if str_eq entry.0 key then others else entry ∷ others

  abbrev pub Distinct : List (String × V) → Type ℓ
  Distinct [] = Unit
  Distinct (entry ∷ rest) = (lookup rest entry.0 ≡ none) × Distinct rest

  pub lookup-assign :
      (entries : List (String × V)) (key other : String) (value : V)
      → lookup (assign entries key value) other
        ≡ (if str_eq key other then some value else lookup entries other)
  unfolding lookup assign
  lookup-assign [] key other value = refl
  lookup-assign (entry ∷ rest) key other value = ground (
    arith,
    lookup-assign rest key other value,
    eq_iff entry.0 key,
    eq_iff entry.0 other,
    eq_iff key other,
  )

  pub lookup-erase_key :
      (entries : List (String × V)) (key other : String)
      → lookup (erase_key entries key) other
        ≡ (if str_eq key other then none else lookup entries other)
  unfolding lookup erase_key
  lookup-erase_key [] key other = ground arith
  lookup-erase_key (entry ∷ rest) key other = ground (
    arith,
    lookup-erase_key rest key other,
    eq_iff entry.0 key,
    eq_iff entry.0 other,
    eq_iff key other,
  )

  lookup-update_all-none :
      (f : String → V → Option V) (entries : List (String × V)) (key : String)
      → lookup entries key ≡ none
      → lookup (update_all f entries) key ≡ none
  unfolding lookup update_all
  lookup-update_all-none f [] key h = refl
  lookup-update_all-none f (entry ∷ rest) key h = elim (Option-cases (f entry.0 entry.1)) [
    | inl dropped ↦ rw dropped (lookup-update_all-none f rest key (ground arith))
    | inr (value, kept) ↦ rw kept (ground (arith, lookup-update_all-none f rest key))
  ]

  pub lookup-update_all :
      (f : String → V → Option V) (entries : List (String × V)) (key : String)
      → Distinct entries
      → lookup (update_all f entries) key
        ≡ elim (lookup entries key) [ none ↦ none | some value ↦ f key value ]
  unfolding lookup update_all
  lookup-update_all f [] key h = refl
  lookup-update_all f (entry ∷ rest) key (fresh, h) = ground (
    arith,
    eq_iff entry.0 key,
    lookup-update_all f rest key h,
    lookup-update_all-none f rest entry.0 fresh,
  )

  pub assign-Distinct :
      (entries : List (String × V)) (key : String) (value : V)
      → Distinct entries
      → Distinct (assign entries key value)
  unfolding assign lookup
  assign-Distinct [] key value h = (refl, tt)
  assign-Distinct (entry ∷ rest) key value (fresh, h) = elim (Bool-cases (str_eq entry.0 key)) [
    | inl same ↦ rw same (fresh, h)
    | inr differs ↦ rw differs (
      ground (arith, lookup-assign rest key entry.0 value, eq_iff entry.0 key, eq_iff key entry.0),
      assign-Distinct rest key value h,
    )
  ]

  pub erase_key-Distinct :
      (entries : List (String × V)) (key : String)
      → Distinct entries
      → Distinct (erase_key entries key)
  unfolding erase_key
  erase_key-Distinct [] key h = tt
  erase_key-Distinct (entry ∷ rest) key (fresh, h) = elim (Bool-cases (str_eq entry.0 key)) [
    | inl same ↦ rw same (erase_key-Distinct rest key h)
    | inr differs ↦
        rw differs
          (ground (arith, lookup-erase_key rest key entry.0), erase_key-Distinct rest key h)
  ]

  pub update_all-Distinct :
      (f : String → V → Option V) (entries : List (String × V))
      → Distinct entries
      → Distinct (update_all f entries)
  unfolding update_all
  update_all-Distinct f [] h = tt
  update_all-Distinct f (entry ∷ rest) (fresh, h) = elim (Option-cases (f entry.0 entry.1)) [
    | inl dropped ↦ rw dropped (update_all-Distinct f rest h)
    | inr (value, kept) ↦
        rw kept (lookup-update_all-none f rest entry.0 fresh, update_all-Distinct f rest h)
  ]

or_false_right : (b : Bool) → (b || false) ≡ b
or_false_right b = ground arith

-- A test of the entries of one key.
pub any-lookup {ℓ} :
    {V : Type ℓ} (p : V → Bool) (entries : List (String × V)) (key : String)
    → Distinct entries
    → any (λ e. str_eq e.0 key && p e.1) entries
      ≡ elim (lookup entries key) [ none ↦ false | some v ↦ p v ]
unfolding lookup
any-lookup p [] key h = refl
any-lookup p (entry ∷ rest) key (new, h) = elim (Bool-cases (str_eq entry.0 key)) [
  | inl same ↦
      let e : entry.0 ≡ key = (eq_iff entry.0 key).0 same in
      let none_later : lookup rest key ≡ none = rw e at new in
      rw (same, any-lookup p rest key h, none_later) (or_false_right (p entry.1))
  | inr other ↦ rw other (any-lookup p rest key h)
]
