-- ===== src/Topology/Acyclic/Fuel.antt =====
-- The search ends within its fuel (core/topology.py).
use eyot_ai.Prelude.{
  ℕ, zero, suc, ◌+◌, ◌≤◌, ◌<◌, String, ◌≡◌, refl, Bool, true, false, not, Option, none, some, List,
  [], ◌∷◌, ◌==◌, eq_iff, eq_refl, arith, contains, Bool-cases, ◌∙◌, ◌⊎◌, length, length-append,
  count, inl, inr,
}
use eyot_ai.Topology.Passages.{Passage}
use eyot_ai.Topology.Acyclic.{links, Search, visit, scan, search_from}

-- both ends of every row
abbrev pub ends : List Passage → List String
ends [] = []
ends (p ∷ rows) = p.from_membership_id ∷ p.to_membership_id ∷ ends rows

pub length-ends : (rows : List Passage) → length (ends rows) ≡ length rows + length rows
length-ends [] = omega arith
length-ends (p ∷ rows) = omega (arith, length-ends rows)

links-ends :
    (ws : String) (rows : List Passage) (x y : String)
    → contains (links ws rows x) y ≡ true
    → contains (ends rows) y ≡ true
links-ends ws [] x y h = cc
links-ends ws (p ∷ rows) x y h = ground (arith, links-ends ws rows x y)

abbrev pub unvisited : List String → List String → ℕ
unvisited visited = count (λ n. not (contains visited n))

unvisited_le :
    (nodes visited : List String) (v : String)
    → unvisited (v ∷ visited) nodes ≤ unvisited visited nodes
unvisited_le [] visited v = omega arith
unvisited_le (n ∷ nodes) visited v = ground (arith, unvisited_le nodes visited v)

unvisited_lt :
    (nodes visited : List String) (v : String)
    → contains nodes v ≡ true
    → contains visited v ≡ false
    → unvisited (v ∷ visited) nodes < unvisited visited nodes
unvisited_lt [] visited v h k = cc
unvisited_lt (n ∷ nodes) visited v h k = elim (Bool-cases (n == v)) [
  | inl same ↦
      let e = (eq_iff n v).0 same in ground (arith, unvisited_le nodes visited v, eq_refl v, e)
  | inr differ ↦ ground (arith, unvisited_lt nodes visited v, eq_iff n v, eq_iff v n)
]

-- what is still to be done
abbrev pub measure : List String → Search → ℕ
measure nodes s = unvisited s.visited nodes + length s.queue

visit-measure :
    (nodes : List String) (n : String) (s : Search)
    → contains nodes n ≡ true
    → measure nodes (visit n s) ≤ measure nodes s
unfolding visit
visit-measure nodes n s h =
    ground (arith, unvisited_lt nodes s.visited n, length-append s.queue (n ∷ []))

scan-measure :
    (nodes : List String) (from : String) (ns : List String) (s s' : Search)
    → ((n : String) → contains ns n ≡ true → contains nodes n ≡ true)
    → scan from ns s ≡ some s'
    → measure nodes s' ≤ measure nodes s
unfolding scan
scan-measure nodes from [] s s' h e = ground arith
scan-measure nodes from (n ∷ ns) s s' h e = ground (
  arith,
  visit-measure nodes n s (h n (ground (arith, eq_refl n))),
  scan-measure nodes from ns (visit n s) s' (λ x k. h x (ground arith)),
)

-- One round, by what it meets.
module _ (fuel : ℕ) (ws : String) (rows : List Passage) (from : String) (s : Search) where
  pub search_done : s.queue ≡ [] → search_from (suc fuel) ws rows from s ≡ some true
  unfolding search_from
  search_done q = rw (q, search_from)

  module _ (current : String) (queue : List String) (q : s.queue ≡ current ∷ queue) where
    pub search_met :
        scan from (links ws rows current) (record s { queue = queue }) ≡ none
        → search_from (suc fuel) ws rows from s ≡ some false
    unfolding search_from
    search_met e = rw (q, search_from) (rw (e, search_from))

    pub search_next :
        (s' : Search)
        → scan from (links ws rows current) (record s { queue = queue }) ≡ some s'
        → search_from (suc fuel) ws rows from s ≡ search_from fuel ws rows from s'
    unfolding search_from
    search_next s' e = rw (q, search_from) (rw (e, search_from))

pub scan-cases : (r : Option Search) → (r ≡ none) ⊎ ((s : Search) × (r ≡ some s))
scan-cases none = inl refl
scan-cases (some s) = inr (s, refl)

pub queue-cases : (l : List String) → (l ≡ []) ⊎ ((x : String) × (xs : List String) × (l ≡ x ∷ xs))
queue-cases [] = inl refl
queue-cases (x ∷ xs) = inr (x, xs, refl)

-- With more fuel than there is to be done, the search gives an answer.
pub search_from_total :
    (fuel : ℕ) (ws : String) (rows : List Passage) (from : String) (s : Search)
    → measure (ends rows) s < fuel
    → (b : Bool) × (search_from fuel ws rows from s ≡ some b)
search_from_total zero ws rows from s h = absurd (omega arith)
search_from_total (suc fuel) ws rows from s h = elim (queue-cases s.queue) [
  | inl q ↦ (true, search_done fuel ws rows from s q)
  | inr (current, queue, q) ↦
      elim (scan-cases (scan from (links ws rows current) (record s { queue = queue }))) [
        | inl e ↦ (false, search_met fuel ws rows from s current queue q e)
        | inr (s', e) ↦
            let less =
              scan-measure (ends rows) from (links ws rows current) (record s { queue = queue }) s'
                (λ y k. links-ends ws rows current y k) e in
            let (b, r) = search_from_total fuel ws rows from s' (ground (arith, less)) in
            (b, search_next fuel ws rows from s current queue q s' e ∙ r)
      ]
]
