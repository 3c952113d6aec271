-- ===== src/Topology/Acyclic.antt =====
-- core/topology.py: `check_acyclic`, a breadth-first search on fuel. The rows do not change during
-- the search.
pub mod Reach
pub mod Invariant
pub mod Fuel
pub mod Correct
use eyot_ai.Prelude.{
  ℕ, zero, suc, ◌+◌, ◌*◌, String, Bool, true, false, Option, none, some, List, [], ◌∷◌, ◌++◌, ◌==◌,
  if◌then◌else◌, filter, map, contains, length,
}
use eyot_ai.Topology.Passages.{Passage, touches, other}

-- the neighbours that one query gives
abbrev pub links : String → List Passage → String → List String
links ws rows m = map (other m) (filter (touches ws m) rows)

pub record Search : Type 0 where
  pub visited : List String
  pub queue : List String

unfoldable pub visit : String → Search → Search
visit n s =
    if contains s.visited n
    then s
    else record { visited = n ∷ s.visited; queue = s.queue ++ n ∷ [] }

-- the `for` loop; `none` is its `return False`
unfoldable pub scan : String → List String → Search → Option Search
unfolding visit
scan from [] s = some s
scan from (n ∷ ns) s = let rest = scan from ns (visit n s) in if n == from then none else rest

-- the `while` loop; `none` means that the fuel ran out
unfoldable pub search_from : ℕ → String → List Passage → String → Search → Option Bool
unfolding scan
search_from zero ws rows from s = none
search_from (suc fuel) ws rows from s = elim s.queue [
  | [] ↦ some true
  | current ∷ queue ↦ elim (scan from (links ws rows current) (record s { queue = queue })) [
    | none ↦ some false
    | some s' ↦ search_from fuel ws rows from s'
  ]
]

-- Every passage has two ends, and each membership is queued once.
abbrev pub fuel_for : List Passage → ℕ
fuel_for rows = suc (suc (length rows + length rows))

unfoldable pub check_acyclic : String → String → String → List Passage → Option Bool
unfolding search_from
check_acyclic ws from to rows =
    if from == to
    then some false
    else search_from (fuel_for rows) ws rows from (record { visited = to ∷ []; queue = to ∷ [] })
