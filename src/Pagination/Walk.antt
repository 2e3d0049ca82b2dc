-- ===== src/Pagination/Walk.antt =====
-- A client that asks for page after page sees the whole list, each item once.
use vorliq.Common.{
  ℕ, zero, suc, ◌+◌, ◌≤◌, ◌<◌, String, ◌≡◌, refl, Option, none, some, List, [], ◌++◌, arith, ltb,
  if◌then◌else◌, length, take, drop, length-drop, append-take-drop, drop-drop, take-all, drop-all,
  min, ap, sym, ◌∙◌, Bool-cases, inl, inr,
}
use vorliq.Common.Int.{ℤ, pos}
use vorliq.Pagination.{Page, max_limit, read_number, parse_pagination, page_at, apply_pagination}

-- The items of a page, and of the next ones as long as the answer says that there is more.
abbrev pub follow {ℓ} : {A : Type ℓ} → (ℕ → List A) → Option (Page A) → List A
follow next none = []
follow next (some page) =
    let rest = next (page.offset + page.limit) in
    if page.has_more then page.items ++ rest else page.items

follow-drop {ℓ} :
    {A : Type ℓ} (next : ℕ → List A) (items : List A) (limit offset : ℕ)
    → (offset + limit < length items → next (offset + limit) ≡ drop (offset + limit) items)
    → follow next (some (page_at items limit offset)) ≡ drop offset items
follow-drop next items limit offset rest = elim (Bool-cases (ltb (offset + limit) (length items))) [
  | inl more ↦
      rw (more, rest (ground arith))
        (ap (λ r. take limit (drop offset items) ++ r) (sym (drop-drop offset limit items))
          ∙ append-take-drop limit (drop offset items))
  | inr last ↦ rw last (take-all limit (drop offset items) (rw length-drop (ground arith)))
]

module _ {ℓ} {A : Type ℓ} (print : ℕ → String) (parse_int : String → Option ℤ) where
  -- Asks for the page at `offset` and for those after it, at most `fuel` in all.
  pub walk : ℕ → List A → Option String → ℕ → ℕ → List A
  walk zero items limit otherwise offset = []
  walk (suc fuel) items limit otherwise offset = follow (walk fuel items limit otherwise) (
      apply_pagination parse_int items (record { limit = limit; offset = some (print offset) })
        otherwise)

  module _ (parse-print : (n : ℕ) → parse_int (print n) ≡ some (pos n)) where
    page-print :
        (items : List A) (limit : Option String) (otherwise n offset : ℕ)
        → read_number parse_int limit otherwise ≡ some (pos (suc n))
        → apply_pagination parse_int items
            (record { limit = limit; offset = some (print offset) })
            otherwise
          ≡ some (page_at items (min (suc n) max_limit) offset)
    unfolding apply_pagination parse_pagination
    page-print items limit otherwise n offset read = rw (read, parse-print) refl

    walk-drop :
        (fuel : ℕ) (items : List A) (limit : Option String) (otherwise n offset : ℕ)
        → read_number parse_int limit otherwise ≡ some (pos (suc n))
        → length items ≤ offset + fuel
        → walk fuel items limit otherwise offset ≡ drop offset items
    unfolding walk
    walk-drop zero items limit otherwise n offset read enough =
        sym (drop-all offset items (omega arith))
    walk-drop (suc fuel) items limit otherwise n offset read enough =
        ap (follow (walk fuel items limit otherwise))
          (page-print items limit otherwise n offset read)
        ∙ follow-drop (walk fuel items limit otherwise) items (min (suc n) max_limit) offset
            (λ more.
              walk-drop fuel items limit otherwise n (offset + min (suc n) max_limit) read
                (omega arith))

    -- A client that asks for a positive number of items at a time, and goes on at the end of each
    -- page as long as the answer says that there is more, has read the whole list, each item once
    -- and in order, when it stops, if it may ask for as many pages as there are items. The texts that
    -- the client writes for offsets must be read back as the same numbers.
    pub walk_all :
        (items : List A) (limit : Option String) (otherwise n fuel : ℕ)
        → read_number parse_int limit otherwise ≡ some (pos (suc n))
        → length items ≤ fuel
        → walk fuel items limit otherwise 0 ≡ items
    walk_all items limit otherwise n fuel read enough =
        walk-drop fuel items limit otherwise n 0 read (omega arith)
