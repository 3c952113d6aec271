-- ===== src/Knowledge/Winners.antt =====
-- The winners as a whole (core/knowledge.py, `resolve_knowledge_winners`).
use eyot_ai.Prelude.{
  String, ◌≡◌, ◌↔◌, inl, inr, sym, ap, subst, ◌∙◌, true, false, some, List, [], ◌∷◌, ◌==◌, arith,
  eq_iff, Bool-cases, Option-cases, In, filter, sort, In-sort, sort-IsSorted, filter-IsSorted,
  In-filter, All, All-In, In-All, eq→path,
}
use eyot_ai.Knowledge.{
  KnowledgeEntry, KnowledgeTables, Query, is_candidate, newer, group_rows, pick, pick_all,
  resolve_knowledge_winners,
}
use eyot_ai.Knowledge.Groups.{
  Groups, group_of, has_group, AreGroups, group_of-group_rows, group_rows-AreGroups,
  has_group-group_rows, group_of-ne-nil, group_of-pick_all, pick_all-group_of,
}
use eyot_ai.Knowledge.Picks.{Beats, pick-In, pick-Beats, pick-some, newer_total, newer_trans}

-- no two rows of one key
abbrev pub HaveOwnKeys : List KnowledgeEntry → Type 0
HaveOwnKeys [] = Unit
HaveOwnKeys (w ∷ ws) = All (λ v. (w.key == v.key) ≡ false) ws × HaveOwnKeys ws

pick_all-HaveOwnKeys : (g : Groups) → AreGroups g → HaveOwnKeys (pick_all g)
unfolding pick_all
pick_all-HaveOwnKeys [] h = tt
pick_all-HaveOwnKeys ((j, rows) ∷ g) (one, h) = elim (Option-cases (pick rows)) [
  | inl n ↦ rw (n, pick_all) (pick_all-HaveOwnKeys g h)
  | inr (w, n) ↦
      let key = All-In (λ r. r.key ≡ j) rows w one.2 (pick-In rows w n) in
      rw (n, pick_all)
        (
          In-All (λ v. (w.key == v.key) ≡ false) (pick_all g)
              (λ v m.
                let there = (pick_all-group_of g v h m).0 in
                elim (Bool-cases (w.key == v.key)) [
                  | inr e ↦ e
                  | inl e ↦
                      absurd (ground (arith, ap (has_group g) (sym key ∙ eq→path w.key v.key e)))
                ]),
          pick_all-HaveOwnKeys g h,
        )
]

module _ (t : KnowledgeTables) (q : Query) where
  candidates : List KnowledgeEntry
  candidates = sort newer (filter (is_candidate t q) t.entries)

  groups : Groups
  unfolding candidates
  groups = group_rows candidates []

  groups-AreGroups : AreGroups groups
  unfolding groups
  groups-AreGroups = group_rows-AreGroups candidates [] tt

  candidate_iff :
      (c : KnowledgeEntry) → In c candidates ↔ (In c t.entries × (is_candidate t q c ≡ true))
  unfolding candidates
  candidate_iff c =
      let s = In-sort newer c (filter (is_candidate t q) t.entries) in
      let f = In-filter (is_candidate t q) t.entries c in (λ m. f.0 (s.0 m), λ h. s.1 (f.1 h))

  group_lem : (k : String) → group_of groups k ≡ filter (λ r. r.key == k) candidates
  unfolding groups group_of
  group_lem k = group_of-group_rows candidates [] k

  -- Every winner is a stored row that the query's conditions admit, and no admitted row of its key has
  -- a scope of higher priority, or the same scope and a later update (on a tie, a larger id); every
  -- key of an admitted row has a winner; and no key has two.
  pub resolve_knowledge_winners-Beats :
      ((w : KnowledgeEntry)
        → In w (resolve_knowledge_winners t q)
        → (In w t.entries × (is_candidate t q w ≡ true))
          × ((c : KnowledgeEntry)
              → In c t.entries
              → is_candidate t q c ≡ true
              → c.key ≡ w.key
              → Beats w c))
      × ((c : KnowledgeEntry)
          → In c t.entries
          → is_candidate t q c ≡ true
          → (w : KnowledgeEntry) × In w (resolve_knowledge_winners t q) × (w.key ≡ c.key))
      × HaveOwnKeys (resolve_knowledge_winners t q)
  unfolding resolve_knowledge_winners groups candidates
  resolve_knowledge_winners-Beats = (
    λ w m.
        let (there, e) = pick_all-group_of groups w groups-AreGroups m in
        let e' : pick (filter (λ r. r.key == w.key) candidates) ≡ some w =
          subst (λ l. pick l ≡ some w) (group_lem w.key) e in
        let sorted =
          filter-IsSorted newer (λ r. r.key == w.key) candidates
            (sort-IsSorted newer newer_total newer_trans (filter (is_candidate t q) t.entries)) in
        let own =
          (In-filter (λ r. r.key == w.key) candidates w).0
            (pick-In (filter (λ r. r.key == w.key) candidates) w e') in
        (
          (candidate_iff w).0 own.0,
          λ c n k s.
              (pick-Beats (filter (λ r. r.key == w.key) candidates) w c sorted e' (
                (In-filter (λ r. r.key == w.key) candidates c).1
                  ((candidate_iff c).1 (n, k), (eq_iff c.key w.key).1 s))).1,
        ),
    λ c n k.
        let there = has_group-group_rows candidates [] c (inl ((candidate_iff c).1 (n, k))) in
        let (w, e) =
          pick-some (group_of groups c.key) (group_of-ne-nil groups c.key groups-AreGroups there) in
        let m = group_of-pick_all groups c.key w there e in
        let own = subst (λ l. In w l) (group_lem c.key) (pick-In (group_of groups c.key) w e) in
        (w, m, eq→path w.key c.key ((In-filter (λ r. r.key == c.key) candidates w).0 own).1),
    pick_all-HaveOwnKeys groups groups-AreGroups,
  )
