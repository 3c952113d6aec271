-- ===== src/Pagination/Examples.antt =====
-- Pages of texts that are their own cursors: tests, and the theorem there.
use eyot_ai.Prelude.{
  suc, String, ◌≡◌, refl, Bool, true, false, not, none, some, List, [], ◌∷◌, arith, str_leb,
  str_leb_total, length,
}
use eyot_ai.Pagination.{last, paginate_cursor, paginate_offset, follow}
use eyot_ai.Pagination.Pages.{IsAscending, follow-all}

abbrev less : String → String → Bool
less a b = not (str_leb b a)

less_asym : (a b : String) → less a b ≡ true → less b a ≡ false
less_asym a b h = ground (arith, str_leb_total b a)

abbrev self : String → String
self s = s

abbrev rows : List String
rows = "a" ∷ "b" ∷ "c" ∷ "d" ∷ "e" ∷ []

three_pages : follow self less self self 3 rows 2 none ≡ some rows
unfolding follow paginate_cursor last
three_pages = refl

-- the second of two rows with the same value, behind a page that ends with the first, is not found
tied_row_skipped : follow self less self self 3 ("a" ∷ "a" ∷ []) 1 none ≡ some ("a" ∷ [])
unfolding follow paginate_cursor last
tied_row_skipped = refl

no_last_item : paginate_cursor self less self self rows 0 none ≡ none
unfolding paginate_cursor last
no_last_item = refl

second_slice : (paginate_offset rows 2 2).items ≡ "c" ∷ "d" ∷ []
unfolding paginate_offset
second_slice = refl

ascending : IsAscending self less rows
ascending = ground arith

follow-all_example : follow self less self self (suc (length rows)) rows 2 none ≡ some rows
follow-all_example = follow-all self less self self less_asym (λ k. refl) rows 1 (ascending)
