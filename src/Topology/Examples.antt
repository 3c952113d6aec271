-- ===== src/Topology/Examples.antt =====
-- The theorems about passages at a concrete table.
use eyot_ai.Prelude.{
  String, ◌≡◌, ◌≢◌, ◌↔◌, refl, Bool, true, false, none, some, List, [], ◌∷◌, contains,
}
use eyot_ai.Topology.Passages.{
  Passage, normalize_endpoints, find_active_passage_between, neighbor_membership_ids, add_neighbors,
}
use eyot_ai.Topology.Passages.Neighbors.{
  IsDistinct, find_active_passage_between-Joined, neighbor_membership_ids-Joined,
}
use eyot_ai.Topology.Acyclic.{check_acyclic, search_from, scan, visit}
use eyot_ai.Topology.Acyclic.Reach.{Joined, Connected}
use eyot_ai.Topology.Acyclic.Correct.{check_acyclic_decides}

abbrev edge : String → String → Passage
edge a b = record {
  id = a;
  workspace_id = "w";
  from_membership_id = a;
  to_membership_id = b;
  is_active = true;
  deleted_at = none;
}

-- a - b - c, an inactive c - d, and d - e stored in reverse
abbrev table : List Passage
table =
    edge "a" "b" ∷ edge "b" "c" ∷ record (edge "c" "d") { is_active = false } ∷ edge "e" "d" ∷ []

closes_cycle : check_acyclic "w" "c" "a" table ≡ some false
unfolding check_acyclic search_from scan visit
closes_cycle = refl

stays_acyclic : check_acyclic "w" "a" "e" table ≡ some true
unfolding check_acyclic search_from scan visit
stays_acyclic = refl

found_reversed : find_active_passage_between "w" "d" "e" table ≡ some (edge "e" "d")
unfolding find_active_passage_between normalize_endpoints
found_reversed = refl

neighbors_of_b : neighbor_membership_ids "w" "b" table ≡ "a" ∷ "c" ∷ []
unfolding neighbor_membership_ids add_neighbors
neighbors_of_b = refl

check_acyclic_decides_example :
    (b : Bool) × (check_acyclic "w" "c" "a" table ≡ some b)
    × ((b ≡ true) ↔ (¬ Connected "w" table "a" "c"))
check_acyclic_decides_example = check_acyclic_decides "w" "c" "a" table

find_active_passage_between-Joined_example :
    (find_active_passage_between "w" "d" "e" table ≡ find_active_passage_between "w" "e" "d" table)
    × ((p : Passage)
        → find_active_passage_between "w" "d" "e" table ≡ some p
        → Joined "w" table "d" "e")
    × (find_active_passage_between "w" "d" "e" table ≡ none → ¬ Joined "w" table "d" "e")
find_active_passage_between-Joined_example = find_active_passage_between-Joined "w" "d" "e" table

abbrev node_c : String
node_c = "c"

neighbor_membership_ids-Joined_example :
    IsDistinct (neighbor_membership_ids "w" "b" table)
    × ((contains (neighbor_membership_ids "w" "b" table) node_c ≡ true)
        ↔ (Joined "w" table "b" node_c × (node_c ≢ "")))
neighbor_membership_ids-Joined_example = neighbor_membership_ids-Joined "w" "b" node_c table
