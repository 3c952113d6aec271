-- ===== src/Knowledge/Groups.antt =====
-- The groups of rows by key, and the winner of a group (core/knowledge.py).
use eyot_ai.Prelude.{
  String, ◌≡◌, ◌≢◌, ◌⊎◌, inl, inr, refl, sym, ap, ◌∙◌, Bool, true, false, ◌||◌, some, List, [], ◌∷◌,
  ◌++◌, ◌==◌, eq_iff, arith, append_assoc, append-nil, if◌then◌else◌, Bool-cases, Option-cases,
  filter, In, All-In, All, eq→path,
}
use eyot_ai.Knowledge.{KnowledgeEntry, add_to_group, group_rows, pick, pick_all}
use eyot_ai.Knowledge.Picks.{pick-In}

abbrev pub Groups : Type 0
Groups = List (String × List KnowledgeEntry)

unfoldable pub group_of : Groups → String → List KnowledgeEntry
group_of [] k = []
group_of ((j, rows) ∷ g) k = if j == k then rows else group_of g k

pub has_group : Groups → String → Bool
has_group [] k = false
has_group ((j, rows) ∷ g) k = j == k || has_group g k

-- one group for a key, and none of them empty
abbrev pub AreGroups : Groups → Type 0
AreGroups [] = Unit
AreGroups ((k, rows) ∷ g) =
    ((has_group g k ≡ false) × (rows ≢ []) × All (λ r. r.key ≡ k) rows) × AreGroups g

group_of-add_to_group :
    (r : KnowledgeEntry) (g : Groups) (k : String)
    → group_of (add_to_group r g) k ≡ (if r.key == k then group_of g k ++ r ∷ [] else group_of g k)
unfolding group_of add_to_group
group_of-add_to_group r [] k = refl
group_of-add_to_group r ((j, rows) ∷ g) k =
    ground (arith, group_of-add_to_group r g k, eq_iff j r.key, eq_iff j k, eq_iff r.key k)

pub group_of-group_rows :
    (rows : List KnowledgeEntry) (g : Groups) (k : String)
    → group_of (group_rows rows g) k ≡ group_of g k ++ filter (λ r. r.key == k) rows
unfolding group_rows
group_of-group_rows [] g k = sym (append-nil (group_of g k))
group_of-group_rows (r ∷ rows) g k =
    let step = group_of-add_to_group r g k in
    elim (Bool-cases (r.key == k)) [
      | inl e ↦
          group_of-group_rows rows (add_to_group r g) k
          ∙ ap (λ l. l ++ filter (λ x. x.key == k) rows) (rw e at step)
          ∙ append_assoc (group_of g k) (r ∷ []) (filter (λ x. x.key == k) rows)
          ∙ rw e refl
      | inr e ↦
          group_of-group_rows rows (add_to_group r g) k
          ∙ ap (λ l. l ++ filter (λ x. x.key == k) rows) (rw e at step)
          ∙ rw e refl
    ]

has_group-add_to_group :
    (r : KnowledgeEntry) (g : Groups) (k : String)
    → has_group (add_to_group r g) k ≡ (r.key == k || has_group g k)
unfolding has_group add_to_group
has_group-add_to_group r [] k = ground arith
has_group-add_to_group r ((j, rows) ∷ g) k =
    ground (arith, has_group-add_to_group r g k, eq_iff j r.key, eq_iff j k, eq_iff r.key k)

append-ne-nil : (rows : List KnowledgeEntry) (r : KnowledgeEntry) → rows ++ r ∷ [] ≢ []
append-ne-nil [] r e = cc
append-ne-nil (x ∷ rows) r e = cc

All-append :
    (k : String) (rows : List KnowledgeEntry) (r : KnowledgeEntry)
    → All (λ x. x.key ≡ k) rows
    → r.key ≡ k
    → All (λ x. x.key ≡ k) (rows ++ r ∷ [])
All-append k [] r h e = (e, tt)
All-append k (x ∷ rows) r h e = (h.0, All-append k rows r h.1 e)

add_to_group-AreGroups :
    (r : KnowledgeEntry) (g : Groups) → AreGroups g → AreGroups (add_to_group r g)
unfolding add_to_group has_group
add_to_group-AreGroups r [] h = ((refl, λ e. cc, (refl, tt)), tt)
add_to_group-AreGroups r ((j, rows) ∷ g) ((one, full, keys), h) = elim (Bool-cases (j == r.key)) [
  | inl e ↦
      rw e ((one, append-ne-nil rows r, All-append j rows r keys (sym (eq→path j r.key e))), h)
  | inr e ↦ rw e (
    (ground (arith, has_group-add_to_group r g j, eq_iff j r.key, eq_iff r.key j), full, keys),
    add_to_group-AreGroups r g h,
  )
]

pub group_rows-AreGroups :
    (rows : List KnowledgeEntry) (g : Groups) → AreGroups g → AreGroups (group_rows rows g)
unfolding group_rows
group_rows-AreGroups [] g h = h
group_rows-AreGroups (r ∷ rows) g h =
    group_rows-AreGroups rows (add_to_group r g) (add_to_group-AreGroups r g h)

pub has_group-group_rows :
    (rows : List KnowledgeEntry) (g : Groups) (r : KnowledgeEntry)
    → (In r rows) ⊎ (has_group g r.key ≡ true)
    → has_group (group_rows rows g) r.key ≡ true
unfolding group_rows
has_group-group_rows [] g r (inl m) = elim m [ ]
has_group-group_rows [] g r (inr h) = h
has_group-group_rows (x ∷ rows) g r (inl (inl e)) =
    has_group-group_rows rows (add_to_group x g) r (
      inr (ground (arith, has_group-add_to_group x g r.key, ap (λ y. y.key) e, eq_iff x.key r.key)))
has_group-group_rows (x ∷ rows) g r (inl (inr m)) =
    has_group-group_rows rows (add_to_group x g) r (inl m)
has_group-group_rows (x ∷ rows) g r (inr h) =
    has_group-group_rows rows (add_to_group x g) r
      (inr (ground (arith, has_group-add_to_group x g r.key)))

pub group_of-ne-nil :
    (g : Groups) (k : String) → AreGroups g → has_group g k ≡ true → group_of g k ≢ []
unfolding group_of has_group
group_of-ne-nil [] k h m = cc
group_of-ne-nil ((j, rows) ∷ g) k ((one, full, keys), h) m = elim (Bool-cases (j == k)) [
  | inl e ↦ rw e full
  | inr e ↦ rw e (group_of-ne-nil g k h (ground arith))
]

-- the winner of a group is a winner
pub group_of-pick_all :
    (g : Groups) (k : String) (w : KnowledgeEntry)
    → has_group g k ≡ true
    → pick (group_of g k) ≡ some w
    → In w (pick_all g)
unfolding group_of has_group pick_all
group_of-pick_all [] k w m e = cc
group_of-pick_all ((j, rows) ∷ g) k w m e = elim (Bool-cases (j == k)) [
  | inl s ↦ let here : pick rows ≡ some w = rw s at e in rw (here, pick_all) (inl refl)
  | inr s ↦
      let there = group_of-pick_all g k w (ground arith) (rw s at e) in
      elim (Option-cases (pick rows)) [
        | inl n ↦ rw (n, pick_all) there
        | inr (v, n) ↦ rw (n, pick_all) (inr there)
      ]
]

picked_cases :
    (v w : KnowledgeEntry) (rest : List KnowledgeEntry) → In w (v ∷ rest) → (w ≡ v) ⊎ In w rest
picked_cases v w rest m = m

-- the group of a later key
later :
    (j : String) (rows : List KnowledgeEntry) (g : Groups) (w : KnowledgeEntry)
    → has_group g j ≡ false
    → (has_group g w.key ≡ true) × (pick (group_of g w.key) ≡ some w)
    → (has_group ((j, rows) ∷ g) w.key ≡ true) × (pick (group_of ((j, rows) ∷ g) w.key) ≡ some w)
unfolding group_of has_group
later j rows g w one (m, e) = elim (Bool-cases (j == w.key)) [
  | inl s ↦ absurd (ground (arith, ap (has_group g) (eq→path j w.key s)))
  | inr s ↦ (ground arith, rw s e)
]

-- a winner is that of a group, whose key it has
pub pick_all-group_of :
    (g : Groups) (w : KnowledgeEntry)
    → AreGroups g
    → In w (pick_all g)
    → (has_group g w.key ≡ true) × (pick (group_of g w.key) ≡ some w)
unfolding group_of has_group pick_all
pick_all-group_of [] w h m = elim m [ ]
pick_all-group_of ((j, rows) ∷ g) w ((one, full, keys), h) m = elim (Option-cases (pick rows)) [
  | inl n ↦ later j rows g w one (pick_all-group_of g w h (rw (n, pick_all) at m))
  | inr (v, n) ↦ elim (picked_cases v w (pick_all g) (rw (n, pick_all) at m)) [
    | inl e ↦
        let key : w.key ≡ j =
          ap (λ r. r.key) e ∙ All-In (λ r. r.key ≡ j) rows v keys (pick-In rows v n) in
        let same : (j == w.key) ≡ true = (eq_iff j w.key).1 (sym key) in
        (ground arith, rw same (n ∙ ap some (sym e)))
    | inr m' ↦ later j rows g w one (pick_all-group_of g w h m')
  ]
]
