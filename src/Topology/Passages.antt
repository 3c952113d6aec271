-- ===== src/Topology/Passages.antt =====
-- core/passages.py: neighbours by active duplex passages.
pub mod Neighbors
use eyot_ai.Prelude.{
  ℕ, String, Bool, true, false, ◌&&◌, ◌||◌, not, Option, none, some, List, [], ◌∷◌, ◌++◌, ◌==◌,
  str_leb, if◌then◌else◌, is_none, find, filter, map, contains,
}

-- `Passage` of models/workspace.py
pub record Passage : Type 0 where
  pub id : String
  pub workspace_id : String
  pub from_membership_id : String
  pub to_membership_id : String
  pub is_active : Bool
  pub deleted_at : Option ℕ

unfoldable pub normalize_endpoints : String → String → String × String
normalize_endpoints a b = if str_leb a b then (a, b) else (b, a)

-- the row's workspace, `is_active` and `deleted_at IS NULL`
abbrev pub is_live : String → Passage → Bool
is_live ws p = (p.workspace_id == ws) && p.is_active && is_none p.deleted_at

abbrev pub joins : String → String → Passage → Bool
joins lo hi p =
    (p.from_membership_id == lo && p.to_membership_id == hi)
    || (p.from_membership_id == hi && p.to_membership_id == lo)

unfoldable pub find_active_passage_between :
    String → String → String → List Passage → Option Passage
unfolding normalize_endpoints
find_active_passage_between ws a b rows =
    let (lo, hi) = normalize_endpoints a b in find (λ p. is_live ws p && joins lo hi p) rows

-- the rows with the membership at an end
abbrev pub touches : String → String → Passage → Bool
touches ws m p = is_live ws p && (p.from_membership_id == m || p.to_membership_id == m)

-- the other end of a row
abbrev pub other : String → Passage → String
other m p = if p.from_membership_id == m then p.to_membership_id else p.from_membership_id

-- the loop of `neighbor_membership_ids`
unfoldable pub add_neighbors : List String → List String → List String
add_neighbors found [] = found
add_neighbors found (o ∷ others) =
    add_neighbors (if not (o == "") && not (contains found o) then found ++ o ∷ [] else found)
      others

unfoldable pub neighbor_membership_ids : String → String → List Passage → List String
unfolding add_neighbors
neighbor_membership_ids ws m rows = add_neighbors [] (map (other m) (filter (touches ws m) rows))
