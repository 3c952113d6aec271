-- ===== src/Inject/Queue/Delivery.antt =====
-- What a poll hands out (core/inject_queue.py, `poll_pending_injects`).
use mathlib.Core.List.{Perm}
use mathlib.Core.List.Perm
use eyot_ai.Prelude.{
  ℕ, zero, suc, ◌≤◌, String, ◌≡◌, refl, ap, subst, ◌⊎◌, inl, inr, true, false, List, [], ◌∷◌, ◌++◌,
  arith, All, Bool-cases, filter, take, drop, take-drop, length, map, All-take, All-filter, All-imp,
  str_leb_total, str_leb_trans,
}
use eyot_ai.Inject.Rows.{InjectStatus, delivered, Row, Store}
use eyot_ai.Inject.Queue.{
  with_status, is_due, before, insert_row, sort_rows, ids, expire_own, due_rows,
  poll_pending_injects,
}

-- Rows in the order of the query: each is before all that follow.
abbrev pub IsSorted : List Row → Type 0
IsSorted [] = Unit
IsSorted (r ∷ l) = All (λ x. before r x ≡ true) l × IsSorted l

before_total : (a b : Row) → before a b ≡ false → before b a ≡ true
before_total a b h = ground (arith, str_leb_total a.id b.id)

before_trans : (a b c : Row) → before a b ≡ true → before b c ≡ true → before a c ≡ true
before_trans a b c h k = ground (arith, str_leb_trans a.id b.id c.id)

insert_row-perm : (r : Row) (l : List Row) → Perm (insert_row r l) (r ∷ l)
unfolding insert_row
insert_row-perm r [] = Perm.refl (r ∷ [])
insert_row-perm r (x ∷ l) = elim (Bool-cases (before r x)) [
  | inl e ↦ rw e (Perm.refl (r ∷ x ∷ l))
  | inr e ↦ rw e (Perm.trans (Perm.cons x (insert_row-perm r l)) (Perm.swap r x l))
]

sort_rows-perm : (l : List Row) → Perm (sort_rows l) l
unfolding sort_rows
sort_rows-perm [] = Perm.refl []
sort_rows-perm (r ∷ l) =
    Perm.trans (insert_row-perm r (sort_rows l)) (Perm.cons r (sort_rows-perm l))

All-insert_row :
    (P : Row → Type 0) (r : Row) (l : List Row) → P r → All P l → All P (insert_row r l)
unfolding insert_row
All-insert_row P r [] h all = (h, tt)
All-insert_row P r (x ∷ l) h all = elim (Bool-cases (before r x)) [
  | inl e ↦ rw e (h, all)
  | inr e ↦ rw e (all.0, All-insert_row P r l h all.1)
]

pub All-sort_rows : (P : Row → Type 0) (l : List Row) → All P l → All P (sort_rows l)
unfolding sort_rows
All-sort_rows P [] h = tt
All-sort_rows P (r ∷ l) h = All-insert_row P r (sort_rows l) h.0 (All-sort_rows P l h.1)

insert_row-IsSorted : (r : Row) (l : List Row) → IsSorted l → IsSorted (insert_row r l)
unfolding insert_row
insert_row-IsSorted r [] s = (tt, tt)
insert_row-IsSorted r (x ∷ l) s = elim (Bool-cases (before r x)) [
  | inl e ↦ rw e (
    (
      e,
      All-imp (λ y. before x y ≡ true) (λ y. before r y ≡ true) l (λ y h. before_trans r x y e h)
          s.0,
    ),
    s,
  )
  | inr e ↦ rw e (
    All-insert_row (λ y. before x y ≡ true) r l (before_total r x e) s.0,
    insert_row-IsSorted r l s.1,
  )
]

sort_rows-IsSorted : (l : List Row) → IsSorted (sort_rows l)
unfolding sort_rows
sort_rows-IsSorted [] = tt
sort_rows-IsSorted (r ∷ l) = insert_row-IsSorted r (sort_rows l) (sort_rows-IsSorted l)

-- Expiring the overdue rows of the instance takes no due row away and adds none.
pub due-expire_own :
    (now : ℕ) (k : String) (l : List Row)
    → filter (is_due now k) (expire_own now k l) ≡ filter (is_due now k) l
due-expire_own now k [] = refl
due-expire_own now k (r ∷ l) = ground (arith, due-expire_own now k l)

drop_lengths {ℓ} :
    {A : Type ℓ} (n : ℕ) (l : List A)
    → (length (take n l) ≤ n) × ((length (take n l) ≡ n) ⊎ (drop n l ≡ []))
drop_lengths zero l = (omega arith, inl refl)
drop_lengths (suc n) [] = (omega arith, inr refl)
drop_lengths (suc n) (x ∷ l) = (
  omega (arith, drop_lengths n l),
  elim (drop_lengths n l).1 [ inl e ↦ inl (omega arith) | inr e ↦ inr e ],
)

-- A poll returns, as delivered, the first rows `picked` of an arrangement `picked ++ rest` of exactly
-- the instance's due rows (pending, not expired, not deleted) in the order of `created_at` and then
-- `id`: at most `limit` rows, and exactly `limit` of them unless no due row is left over.
pub poll-picks_oldest :
    (now : ℕ) (k : String) (limit : ℕ) (s : Store)
    → (picked : List Row) × (rest : List Row) × ((poll_pending_injects now k limit s).0
        ≡ map (with_status now delivered) picked)
      × (Perm (picked ++ rest) (filter (is_due now k) s.rows))
      × IsSorted (picked ++ rest)
      × (length picked ≤ limit)
      × ((length picked ≡ limit) ⊎ (rest ≡ []))
unfolding poll_pending_injects due_rows
poll-picks_oldest now k limit s =
    let sorted = sort_rows (filter (is_due now k) (expire_own now k s.rows)) in
    (
      take limit sorted,
      drop limit sorted,
      refl,
      rw (take-drop limit sorted) (
          subst (λ l. Perm sorted l) (due-expire_own now k s.rows)
            (sort_rows-perm (filter (is_due now k) (expire_own now k s.rows)))),
      rw (take-drop limit sorted)
          (sort_rows-IsSorted (filter (is_due now k) (expire_own now k s.rows))),
      (drop_lengths limit sorted).0,
      (drop_lengths limit sorted).1,
    )

pub ids-with_status :
    (now : ℕ) (status : InjectStatus) (l : List Row) → ids (map (with_status now status) l) ≡ ids l
ids-with_status now status [] = refl
ids-with_status now status (r ∷ l) = ap (λ x. r.id ∷ x) (ids-with_status now status l)

-- What holds of the due rows of a table holds of those that a poll picks.
pub All-due_rows :
    (P : Row → Type 0) (now : ℕ) (k : String) (limit : ℕ) (l : List Row)
    → All (λ r. is_due now k r ≡ true → P r) l
    → All P (due_rows now k limit (expire_own now k l))
unfolding due_rows
All-due_rows P now k limit l h =
    let due = filter (is_due now k) (expire_own now k l) in
    All-take P limit (sort_rows due) (
      All-sort_rows P due (
        rw (due-expire_own now k l)
          (All-filter (λ r. is_due now k r ≡ true → P r) P (is_due now k) l (λ x e f. f e) h)))
