-- ===== src/Json/Canonical/Reorder.antt =====
-- The canonical text does not depend on the order in which an object lists its fields.
use Prim.Native.String.{◌++◌}
use vorliq.Common.{
  String, Option-cases, inl, inr, ◌≡◌, ◌≢◌, refl, ap, ◌∙◌, Option, none, some, List, [], ◌∷◌, arith,
}
use vorliq.Common.Text.{units}
use vorliq.Json.Defs.{Json, arr, obj, Items, nil, cons, Fields, end, field}
use vorliq.Json.Canonical.{
  ◌>>=◌, Row, insert_row, sort_rows, object_text, canonical_json, canonical_items, canonical_rows,
  join_with, row_texts,
}
use vorliq.Json.Canonical.Order.{units_le_total, units_le_antisymm, units_le_trans}

-- Two values that differ in the order of fields, at any depth. Two fields change places only if
-- their keys differ, as the keys of a JavaScript object do.
mutual
  pub data SameValue : Json → Json → Type 0 where
    same : (v : Json) → SameValue v v
    same_arr : {xs ys : Items} → SameItems xs ys → SameValue (arr xs) (arr ys)
    same_obj : {fs gs : Fields} → SameFields fs gs → SameValue (obj fs) (obj gs)

  pub data SameItems : Items → Items → Type 0 where
    same_nil : SameItems nil nil
    same_cons :
        {v w : Json} {xs ys : Items}
        → SameValue v w
        → SameItems xs ys
        → SameItems (cons v xs) (cons w ys)

  pub data SameFields : Fields → Fields → Type 0 where
    same_end : SameFields end end
    same_field :
        (k : String) {v w : Json} {fs gs : Fields}
        → SameValue v w
        → SameFields fs gs
        → SameFields (field k v fs) (field k w gs)
    swap :
        (j k : String) (v w : Json) (fs : Fields)
        → units j ≢ units k
        → SameFields (field j v (field k w fs)) (field k w (field j v fs))
    chain : {fs gs hs : Fields} → SameFields fs gs → SameFields gs hs → SameFields fs hs

insert_row_comm :
    (r s : Row) (rows : List Row)
    → units r.0 ≢ units s.0
    → insert_row r (insert_row s rows) ≡ insert_row s (insert_row r rows)
unfolding insert_row
insert_row_comm r s [] d =
    ground
      (arith, units_le_total (units r.0) (units s.0), units_le_antisymm (units r.0) (units s.0))
insert_row_comm r s (x ∷ rows) d =
    let a = units r.0 in
    let b = units s.0 in
    let c = units x.0 in
    ground (
      arith,
      insert_row_comm r s rows d,
      units_le_total a b,
      units_le_antisymm a b,
      units_le_trans a b c,
      units_le_trans b a c,
      units_le_total a c,
      units_le_total b c,
      units_le_trans a c b,
      units_le_trans b c a,
    )

module _ (quote : String → String) where
  sorted_rows : Fields → Option (List Row)
  sorted_rows fs = canonical_rows quote fs >>= λ rows. some (sort_rows rows)

  sorted_text : List Row → String
  sorted_text rows = "{" ++ (join_with "," (row_texts quote rows) ++ "}")

  canonical_json-obj :
      (fs : Fields)
      → canonical_json quote (obj fs) ≡ (sorted_rows fs >>= λ rows. some (sorted_text rows))
  unfolding canonical_json sorted_rows object_text sorted_text
  canonical_json-obj fs = elim (Option-cases (canonical_rows quote fs)) [
    | inl failed ↦ rw failed
    | inr (rows, done) ↦ rw done
  ]

  sorted_rows-field :
      (k : String) (v : Json) (fs : Fields)
      → sorted_rows (field k v fs) ≡ (
          canonical_json quote v >>= λ text.
          sorted_rows fs >>= λ rows. some (insert_row (k, text) rows))
  unfolding canonical_json sorted_rows sort_rows
  sorted_rows-field k v fs = elim (Option-cases (canonical_json quote v)) [
    | inl failed ↦ rw failed
    | inr (text, done) ↦ rw done (elim (Option-cases (canonical_rows quote fs)) [
      | inl failed ↦ rw failed
      | inr (rows, listed) ↦ rw listed
    ])
  ]

  sorted_rows-swap :
      (j k : String) (v w : Json) (fs : Fields)
      → units j ≢ units k
      → sorted_rows (field j v (field k w fs)) ≡ sorted_rows (field k w (field j v fs))
  sorted_rows-swap j k v w fs d =
      rw
        (
          sorted_rows-field j v (field k w fs),
          sorted_rows-field k w fs,
          sorted_rows-field k w (field j v fs),
          sorted_rows-field j v fs,
        )
        (swap_binds (canonical_json quote v) (canonical_json quote w) (sorted_rows fs))
    where
      swap_binds :
          (x y : Option String) (rest : Option (List Row))
          → (x >>= λ a. (y >>= λ b. rest >>= λ rows. some (insert_row (k, b) rows)) >>= λ rows.
              some (insert_row (j, a) rows))
            ≡ (y >>= λ b. (x >>= λ a. rest >>= λ rows. some (insert_row (j, a) rows)) >>= λ rows.
                some (insert_row (k, b) rows))
      swap_binds none none rest = refl
      swap_binds none (some b) rest = refl
      swap_binds (some a) none rest = refl
      swap_binds (some a) (some b) none = refl
      swap_binds (some a) (some b) (some rows) = ap some (insert_row_comm (j, a) (k, b) rows d)

  canonical_json-of_rows :
      (fs gs : Fields)
      → sorted_rows fs ≡ sorted_rows gs
      → canonical_json quote (obj fs) ≡ canonical_json quote (obj gs)
  canonical_json-of_rows fs gs e = rw (canonical_json-obj fs, canonical_json-obj gs, e)

  mutual
    unfolding canonical_json canonical_items

    canonical_json-same :
        {v w : Json} → SameValue v w → canonical_json quote v ≡ canonical_json quote w
    canonical_json-same (same v) = refl
    canonical_json-same (same_arr xs) = rw (canonical_items-same xs)
    canonical_json-same (same_obj {fs} {gs} e) = canonical_json-of_rows fs gs (sorted_rows-same e)

    canonical_items-same :
        {xs ys : Items} → SameItems xs ys → canonical_items quote xs ≡ canonical_items quote ys
    canonical_items-same same_nil = refl
    canonical_items-same (same_cons e es) = rw (canonical_json-same e, canonical_items-same es)

    sorted_rows-same : {fs gs : Fields} → SameFields fs gs → sorted_rows fs ≡ sorted_rows gs
    sorted_rows-same same_end = refl
    sorted_rows-same (same_field k {v} {w} {fs} {gs} e es) = rw (
      sorted_rows-field k v fs,
      sorted_rows-field k w gs,
      canonical_json-same e,
      sorted_rows-same es,
    )
    sorted_rows-same (swap j k v w fs d) = sorted_rows-swap j k v w fs d
    sorted_rows-same (chain e f) = sorted_rows-same e ∙ sorted_rows-same f

  -- Two values that differ only in the order of their fields, at any depth, have the same
  -- canonical text, or are both refused.
  pub canonical_json_order :
      (v w : Json) → SameValue v w → canonical_json quote v ≡ canonical_json quote w
  canonical_json_order v w e = canonical_json-same e
