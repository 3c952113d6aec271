-- ===== src/Pagination.antt =====
-- eyot-backend/app/core/pagination.py: `paginate_cursor` and `paginate_offset` over the rows of a
-- query, in the query's order.
pub mod Pages
mod Examples
use eyot_ai.Prelude.{
  ℕ, zero, suc, ◌+◌, String, Bool, true, Option, none, some, List, [], ◌∷◌, ◌++◌, ltb, length, take,
  drop, filter, if◌then◌else◌,
}

pub record OffsetPage {ℓ} (A : Type ℓ) : Type ℓ where
  pub items : List A
  pub offset : ℕ
  pub limit : ℕ
  pub total : ℕ

pub paginate_offset {ℓ} : {A : Type ℓ} → List A → ℕ → ℕ → OffsetPage A
paginate_offset rows offset limit = record {
  items = take limit (drop offset rows);
  offset = offset;
  limit = limit;
  total = length rows;
}

pub record CursorPage {ℓ} (A : Type ℓ) : Type ℓ where
  pub items : List A
  pub next_cursor : Option String

-- `items[-1]`: `none` is its IndexError
pub last {ℓ} : {A : Type ℓ} → List A → Option A
last [] = none
last (x ∷ []) = some x
last (x ∷ y ∷ xs) = last (y ∷ xs)

-- `key` reads the cursor field, `less` compares its values, `str` and `decoder` turn them into
-- cursors and back.
module _ {ℓ κ} {A : Type ℓ} {K : Type κ} (key : A → K) (less : K → K → Bool) (str : K → String)
    (decoder : String → K) where
  -- the added WHERE
  abbrev pub is_after : Option String → A → Bool
  is_after none r = true
  is_after (some cursor) r = less (decoder cursor) (key r)

  -- `none` is the exception on a page without a last item
  pub paginate_cursor : List A → ℕ → Option String → Option (CursorPage A)
  unfolding last
  paginate_cursor rows limit cursor =
      let all_items = take (limit + 1) (filter (is_after cursor) rows) in
      let items = take limit all_items in
      if ltb limit (length all_items)
      then elim (last items) [
        | none ↦ none
        | some item ↦ some (record { items = items; next_cursor = some (str (key item)) })
      ]
      else some (record { items = items; next_cursor = none })

  -- a client that follows `next_cursor` to the end, on fuel
  pub follow : ℕ → List A → ℕ → Option String → Option (List A)
  unfolding paginate_cursor
  follow zero rows limit cursor = none
  follow (suc fuel) rows limit cursor = elim (paginate_cursor rows limit cursor) [
    | none ↦ none
    | some page ↦ elim page.next_cursor [
      | none ↦ some page.items
      | some next ↦ elim (follow fuel rows limit (some next)) [
        | none ↦ none
        | some rest ↦ some (page.items ++ rest)
      ]
    ]
  ]
