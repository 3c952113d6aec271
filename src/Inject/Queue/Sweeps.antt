-- ===== src/Inject/Queue/Sweeps.antt =====
-- The sweeps (core/inject_queue.py, `sweep_expired`, `sweep_old_completed`).
use eyot_ai.Prelude.{
  ℕ, String, ◌≡◌, refl, ap, ◌∙◌, List, [], ◌∷◌, arith, update, count, filter, take, sym, map,
}
use eyot_ai.Inject.Rows.{expired, delivered, Row, Store}
use eyot_ai.Inject.Queue.{
  with_status, is_overdue, is_due, is_stale, delete_row, sort_rows, due_rows, poll_pending_injects,
  sweep_expired, sweep_old_completed,
}
use eyot_ai.Inject.Queue.Delivery.{due-expire_own}

none_overdue :
    (now : ℕ) (l : List Row)
    → count (is_overdue now) (update (is_overdue now) (with_status now expired) l) ≡ 0
none_overdue now [] = refl
none_overdue now (r ∷ l) = ground (arith, none_overdue now l)

none_stale :
    (now : ℕ) (l : List Row) → count (is_stale now) (update (is_stale now) (delete_row now) l) ≡ 0
none_stale now [] = refl
none_stale now (r ∷ l) = ground (arith, none_stale now l)

due-swept :
    (now : ℕ) (k : String) (l : List Row)
    → filter (is_due now k) (update (is_overdue now) (with_status now expired) l)
      ≡ filter (is_due now k) l
due-swept now k [] = refl
due-swept now k (r ∷ l) = ground (arith, due-swept now k l)

-- A sweep of the expired rows returns how many rows were pending, overdue and not deleted, leaves none
-- of them, so that a second one at the same time returns 0, and does not change what a poll of any
-- instance hands out at that time.
pub sweep_expired-poll :
    (now : ℕ) (k : String) (limit : ℕ) (s : Store)
    → let (n, s') = sweep_expired now s in
      (n ≡ count (is_overdue now) s.rows)
      × ((sweep_expired now s').0 ≡ 0)
      × ((poll_pending_injects now k limit s').0 ≡ (poll_pending_injects now k limit s).0)
unfolding sweep_expired poll_pending_injects due_rows
sweep_expired-poll now k limit s =
    let swept = update (is_overdue now) (with_status now expired) s.rows in
    let same =
      due-expire_own now k swept ∙ due-swept now k s.rows ∙ sym (due-expire_own now k s.rows) in
    (
      refl,
      none_overdue now s.rows,
      ap (λ l. map (with_status now delivered) (take limit (sort_rows l))) same,
    )

-- A sweep of the old rows returns how many completed rows that are not deleted have not been written
-- for longer than seven days, and marks all of them as deleted: a second one at the same time
-- returns 0.
pub sweep_old_completed-once :
    (now : ℕ) (s : Store)
    → let (n, s') = sweep_old_completed now s in
      (n ≡ count (is_stale now) s.rows) × ((sweep_old_completed now s').0 ≡ 0)
unfolding sweep_old_completed
sweep_old_completed-once now s = (refl, none_stale now s.rows)
