-- ===== src/Topology/Passages/Neighbors.antt =====
-- Passages found in either direction, and the neighbours of a membership (core/passages.py).
use eyot_ai.Prelude.{
  String, ◌≡◌, ◌≢◌, ◌↔◌, inl, inr, refl, sym, ◌∙◌, Bool, true, false, not, none, some, List, [],
  ◌∷◌, ◌++◌, ◌==◌, ◌||◌, ◌&&◌, eq_iff, arith, contains, In, Bool-cases, find, str_leb,
  str_leb_antisymm, str_leb_total, ne→false,
}
use eyot_ai.Topology.Passages.{
  Passage, normalize_endpoints, is_live, joins, find_active_passage_between, add_neighbors,
  neighbor_membership_ids,
}
use eyot_ai.Topology.Acyclic.{links}
use eyot_ai.Topology.Acyclic.Reach.{Ends, Joined, links-Joined, Joined-links}

normalize_endpoints_comm : (a b : String) → normalize_endpoints a b ≡ normalize_endpoints b a
unfolding normalize_endpoints
normalize_endpoints_comm a b = elim (Bool-cases (str_leb a b)) [
  | inl ab ↦ elim (Bool-cases (str_leb b a)) [
    | inl ba ↦ let e = str_leb_antisymm a b ab ba in rw e
    | inr ba ↦ rw (ab, ba)
  ]
  | inr ab ↦ rw (ab, str_leb_total a b ab)
]

joins_comm : (a b : String) (p : Passage) → joins a b p ≡ joins b a p
joins_comm a b p = ground arith

find_ext :
    (f g : Passage → Bool) (rows : List Passage)
    → ((p : Passage) → f p ≡ g p)
    → find f rows ≡ find g rows
find_ext f g [] h = refl
find_ext f g (p ∷ rows) h = rw (h p) (rw (find_ext f g rows h))

-- the query, with the two memberships as they are given
find-joins :
    (ws a b : String) (rows : List Passage)
    → find_active_passage_between ws a b rows ≡ find (λ p. is_live ws p && joins a b p) rows
unfolding find_active_passage_between normalize_endpoints
find-joins ws a b rows = elim (Bool-cases (str_leb a b)) [
  | inl ab ↦ rw ab
  | inr ab ↦ rw ab (
      find_ext (λ p. is_live ws p && joins b a p) (λ p. is_live ws p && joins a b p) rows
        (λ p. rw (joins_comm b a p)))
]

found_Joined :
    (ws a b : String) (rows : List Passage) (p : Passage)
    → find (λ q. is_live ws q && joins a b q) rows ≡ some p
    → Joined ws rows a b
unfolding Joined
found_Joined ws a b [] p e = cc
found_Joined ws a b (q ∷ rows) p e = elim (Bool-cases (is_live ws q && joins a b q)) [
  | inl t ↦ (
    q,
    inl refl,
    ground arith,
    ground (
      arith,
      eq_iff q.from_membership_id a,
      eq_iff q.to_membership_id b,
      eq_iff q.from_membership_id b,
      eq_iff q.to_membership_id a,
    ),
  )
  | inr f ↦ let (x, m, l, ends) = found_Joined ws a b rows p (ground arith) in (x, inr m, l, ends)
]

joins_of_Ends : (a b : String) (p : Passage) → Ends a b p → joins a b p ≡ true
joins_of_Ends a b p (inl e) =
    ground (arith, eq_iff p.from_membership_id a, eq_iff p.to_membership_id b)
joins_of_Ends a b p (inr e) =
    ground (arith, eq_iff p.from_membership_id b, eq_iff p.to_membership_id a)

not_found :
    (ws a b : String) (rows : List Passage) (p : Passage)
    → In p rows
    → is_live ws p ≡ true
    → joins a b p ≡ true
    → find (λ q. is_live ws q && joins a b q) rows ≢ none
not_found ws a b [] p m l j = elim m [ ]
not_found ws a b (q ∷ rows) p (inl e) l j = ground arith
not_found ws a b (q ∷ rows) p (inr m) l j = ground (arith, not_found ws a b rows p m l j)

-- The search for a passage between two memberships gives the same row in both orders; a row that it
-- gives shows that a live passage of the workspace joins the two, and it gives none only where no
-- live passage does, however the stored row is oriented.
pub find_active_passage_between-Joined :
    (ws a b : String) (rows : List Passage)
    → (find_active_passage_between ws a b rows ≡ find_active_passage_between ws b a rows)
      × ((p : Passage) → find_active_passage_between ws a b rows ≡ some p → Joined ws rows a b)
      × (find_active_passage_between ws a b rows ≡ none → ¬ Joined ws rows a b)
unfolding find_active_passage_between Joined
find_active_passage_between-Joined ws a b rows = (
  rw (normalize_endpoints_comm a b),
  λ p e. found_Joined ws a b rows p (sym (find-joins ws a b rows) ∙ e),
  λ e j.
      not_found ws a b rows j.0 j.1 j.2 (joins_of_Ends a b j.0 j.3)
        (sym (find-joins ws a b rows) ∙ e),
)

-- No id twice.
abbrev pub IsDistinct : List String → Type 0
IsDistinct [] = Unit
IsDistinct (x ∷ xs) = (contains xs x ≡ false) × IsDistinct xs

contains-concat :
    (xs : List String) (x y : String) → contains (xs ++ x ∷ []) y ≡ (contains xs y || x == y)
contains-concat [] x y = ground arith
contains-concat (z ∷ xs) x y = ground (arith, contains-concat xs x y)

concat-IsDistinct :
    (xs : List String) (x : String)
    → IsDistinct xs
    → contains xs x ≡ false
    → IsDistinct (xs ++ x ∷ [])
concat-IsDistinct [] x d h = (refl, tt)
concat-IsDistinct (y ∷ xs) x d h = (
  ground (arith, contains-concat xs x y, eq_iff x y, eq_iff y x),
  concat-IsDistinct xs x d.1 (ground arith),
)

add_neighbors-IsDistinct :
    (found others : List String) → IsDistinct found → IsDistinct (add_neighbors found others)
unfolding add_neighbors
add_neighbors-IsDistinct found [] d = d
add_neighbors-IsDistinct found (o ∷ others) d =
    elim (Bool-cases (not (o == "") && not (contains found o))) [
      | inl fresh ↦ rw fresh (
          add_neighbors-IsDistinct (found ++ o ∷ []) others
            (concat-IsDistinct found o d (ground arith)))
      | inr known ↦ rw known (add_neighbors-IsDistinct found others d)
    ]

contains-add_neighbors :
    (found others : List String) (y : String)
    → contains (add_neighbors found others) y
      ≡ (contains found y || (contains others y && not (y == "")))
unfolding add_neighbors
contains-add_neighbors found [] y = ground arith
contains-add_neighbors found (o ∷ others) y = ground (
  arith,
  contains-add_neighbors (found ++ o ∷ []) others y,
  contains-add_neighbors found others y,
  contains-concat found o y,
  eq_iff o y,
  eq_iff o "",
  eq_iff y "",
)

-- The neighbours of a membership are listed without repetition, and they are exactly the non-empty
-- membership ids that a live passage of the workspace joins it to.
pub neighbor_membership_ids-Joined :
    (ws m y : String) (rows : List Passage)
    → IsDistinct (neighbor_membership_ids ws m rows)
      × ((contains (neighbor_membership_ids ws m rows) y ≡ true) ↔ (Joined ws rows m y × (y ≢ "")))
unfolding neighbor_membership_ids
neighbor_membership_ids-Joined ws m y rows =
    let same = contains-add_neighbors [] (links ws rows m) y in
    (
      add_neighbors-IsDistinct [] (links ws rows m) tt,
      (
        λ h. (
          links-Joined ws rows m y (ground (arith, same)),
          λ e. ground (arith, same, (eq_iff y "").1 e),
        ),
        λ j. ground (arith, same, Joined-links ws rows m y j.0, ne→false y "" j.1),
      ),
    )
