-- ===== src/Common/Dict.antt =====
-- A JavaScript object or Map with text keys. Its keys are distinct by construction; the other
-- modules read it through `get` and its laws, or iterate over its entries.
pub mod Assoc
use Assoc.{
  lookup, assign, erase_key, update_all, Distinct, lookup-assign, lookup-erase_key,
  lookup-update_all, any-lookup, assign-Distinct, erase_key-Distinct, update_all-Distinct,
}
use Prim.Native.String.{String}
use mathlib.Core.Path.{◌≡◌, refl}
use mathlib.Core.Option.{Option, none, some}
use mathlib.Core.List.{List, [], ◌∷◌}
use text.Mathlib.Text.{◌==◌ as str_eq}
use mathlib.Core.Bool.{Bool, false, ◌&&◌}
use vorliq.Common.Lists.{any}
use vorliq.Common.Tests.{if◌then◌else◌}

pub record Dict {ℓ} (V : Type ℓ) : Type ℓ where
  pub entries : List (String × V)
  distinct : Distinct entries

module _ {ℓ} {V : Type ℓ} where
  unfoldable pub empty : Dict V
  empty = record { entries = []; distinct = tt }

  -- object[key], map.get(key)
  unfoldable pub get : Dict V → String → Option V
  unfolding lookup
  get table key = lookup table.entries key

  -- object[key] = value, map.set(key, value)
  unfoldable pub put : Dict V → String → V → Dict V
  unfolding assign
  put table key value = record {
    entries = assign table.entries key value;
    distinct = assign-Distinct table.entries key value table.distinct;
  }

  -- delete object[key], map.delete(key)
  unfoldable pub remove : Dict V → String → Dict V
  unfolding erase_key
  remove table key = record {
    entries = erase_key table.entries key;
    distinct = erase_key-Distinct table.entries key table.distinct;
  }

  -- for (const [key, value] of Object.entries(object)) object[key] = … or delete object[key]
  unfoldable pub revise : (String → V → Option V) → Dict V → Dict V
  unfolding update_all
  revise f table = record {
    entries = update_all f table.entries;
    distinct = update_all-Distinct f table.entries table.distinct;
  }

  pub get-put :
      (table : Dict V) (key other : String) (value : V)
      → get (put table key value) other ≡ (if str_eq key other then some value else get table other)
  unfolding get put
  get-put table key other value = lookup-assign table.entries key other value

  pub get-remove :
      (table : Dict V) (key other : String)
      → get (remove table key) other ≡ (if str_eq key other then none else get table other)
  unfolding get remove
  get-remove table key other = lookup-erase_key table.entries key other

  pub get-revise :
      (f : String → V → Option V) (table : Dict V) (key : String)
      → get (revise f table) key ≡ elim (get table key) [ none ↦ none | some value ↦ f key value ]
  unfolding get revise
  get-revise f table key = lookup-update_all f table.entries key table.distinct

-- A test of the entries of one key is a test of the value that it has.
pub any-entries {ℓ} :
    {V : Type ℓ} (p : V → Bool) (table : Dict V) (key : String)
    → any (λ e. str_eq e.0 key && p e.1) table.entries
      ≡ elim (get table key) [ none ↦ false | some v ↦ p v ]
unfolding get
any-entries p table key = any-lookup p table.entries key table.distinct

pub get-empty {ℓ} : {V : Type ℓ} (key : String) → get (empty {V = V}) key ≡ none
unfolding get empty
get-empty key = refl
