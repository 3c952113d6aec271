-- ===== src/Knowledge/Picks.antt =====
-- The winner of a group of rows (core/knowledge.py, `resolve_knowledge_winners`).
use eyot_ai.Prelude.{
  ◌≤◌, ◌<◌, ◌≡◌, ◌≢◌, ◌⊎◌, inl, inr, refl, ap, Bool, true, false, some, List, [], ◌∷◌, arith,
  Bool-cases, find, In, find-In, find-first, leb, eqb, str_leb_total, str_leb_trans, IsSorted,
}
use eyot_ai.Knowledge.{KnowledgeEntry, scope_priority, newer, best_rank, pick}

pub newer_total : (a b : KnowledgeEntry) → newer a b ≡ false → newer b a ≡ true
newer_total a b h = ground (arith, str_leb_total b.id a.id)

pub newer_trans : (a b c : KnowledgeEntry) → newer a b ≡ true → newer b c ≡ true → newer a c ≡ true
newer_trans a b c h k = ground (arith, str_leb_trans c.id b.id a.id)

newer_refl : (a : KnowledgeEntry) → newer a a ≡ true
newer_refl a = ground (arith, str_leb_total a.id a.id)

best_rank-le :
    (l : List KnowledgeEntry) (c : KnowledgeEntry) → In c l → best_rank l ≤ scope_priority c.scope
unfolding best_rank
best_rank-le [] c m = elim m [ ]
best_rank-le (x ∷ []) c (inl e) = ground (arith, ap (λ r. scope_priority r.scope) e)
best_rank-le (x ∷ []) c (inr m) = elim m [ ]
best_rank-le (x ∷ y ∷ l) c (inl e) = ground (arith, ap (λ r. scope_priority r.scope) e)
best_rank-le (x ∷ y ∷ l) c (inr m) = ground (arith, best_rank-le (y ∷ l) c m)

best_rank-In :
    (x : KnowledgeEntry) (l : List KnowledgeEntry)
    → (c : KnowledgeEntry) × In c (x ∷ l) × (scope_priority c.scope ≡ best_rank (x ∷ l))
unfolding best_rank
best_rank-In x [] = (x, inl refl, refl)
best_rank-In x (y ∷ l) =
    let (c, m, e) = best_rank-In y l in
    elim (Bool-cases (leb (scope_priority x.scope) (best_rank (y ∷ l)))) [
      | inl t ↦ (x, inl refl, ground arith)
      | inr f ↦ (c, inr m, ground arith)
    ]

-- the other candidate has a worse scope, or the same and is not newer
abbrev pub Beats : KnowledgeEntry → KnowledgeEntry → Type 0
Beats w c =
    (scope_priority w.scope < scope_priority c.scope)
    ⊎ ((scope_priority w.scope ≡ scope_priority c.scope) × (newer w c ≡ true))

pub pick-In : (l : List KnowledgeEntry) (w : KnowledgeEntry) → pick l ≡ some w → In w l
unfolding pick
pick-In l w e = (find-In (λ r. eqb (scope_priority r.scope) (best_rank l)) l w e).0

pub pick-Beats :
    (l : List KnowledgeEntry) (w c : KnowledgeEntry)
    → IsSorted newer l
    → pick l ≡ some w
    → In c l
    → In w l × Beats w c
unfolding pick
pick-Beats l w c s e m =
    let best = best_rank l in
    let is_best : KnowledgeEntry → Bool = λ r. eqb (scope_priority r.scope) best in
    let (found, t) = find-In is_best l w e in
    let le = best_rank-le l c m in
    (
      found,
      elim (Bool-cases (is_best c)) [
        | inl b ↦ inr (ground arith, find-first newer newer_refl is_best l w c s e m b)
        | inr worse ↦ inl (ground arith)
      ],
    )

find-none :
    (p : KnowledgeEntry → Bool) (l : List KnowledgeEntry) (c : KnowledgeEntry)
    → In c l
    → p c ≡ true
    → (w : KnowledgeEntry) × (find p l ≡ some w)
find-none p [] c m t = elim m [ ]
find-none p (x ∷ l) c m t = elim (Bool-cases (p x)) [
  | inl e ↦ (x, rw e refl)
  | inr e ↦ elim m [
    | inl d ↦ absurd (ground (arith, ap p d))
    | inr m' ↦ let (w, f) = find-none p l c m' t in (w, rw e f)
  ]
]

pub pick-some : (l : List KnowledgeEntry) → l ≢ [] → (w : KnowledgeEntry) × (pick l ≡ some w)
unfolding pick
pick-some [] ne = absurd (ne refl)
pick-some (x ∷ l) ne =
    let (c, m, e) = best_rank-In x l in
    find-none (λ r. eqb (scope_priority r.scope) (best_rank (x ∷ l))) (x ∷ l) c m (ground arith)
