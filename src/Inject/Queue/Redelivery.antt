-- ===== src/Inject/Queue/Redelivery.antt =====
-- No delivery is handed out again (core/inject_queue.py).
use eyot_ai.Prelude.{
  ℕ, String, ◌≡◌, Bool, Bool-cases, if◌then◌else◌, subst, sym, true, false, List, [], ◌∷◌, arith,
  update, All, map, contains, All-append, All-imp, All-map, ◌&&◌, ◌==◌, is_none, Option-cases, inl,
  inr,
}
use eyot_ai.Inject.Rows.{is_pending, delivered, expired, Row, Store, new_row}
use eyot_ai.Inject.Queue.{
  with_status, is_due, ids, expire_own, due_rows, is_picked, poll_pending_injects, ack_row,
  ack_injects, fail_row, mark_inject_failed, sweep_expired, delete_row, sweep_old_completed,
  check_request, enqueue_inject,
}
use eyot_ai.Inject.Queue.Lifecycle.{
  Call, enqueue, poll, ack, fail, sweep, sweep_old, perform, perform_all,
}
use eyot_ai.Inject.Queue.Delivery.{All-due_rows, ids-with_status}

-- the row is none of the instance's that still wait with one of the ids
abbrev IsSpent : List String → String → Row → Type 0
IsSpent handed k r =
    contains handed r.id ≡ true
    → (r.instance_id == k) ≡ true
    → (is_pending r.status && is_none r.deleted_at) ≡ false

-- a new row has an id of its own
abbrev pub IsNew : List String → Call → Type 0
IsNew handed (enqueue now q) = contains handed q.id ≡ false
IsNew handed _ = Unit

-- what a poll leaves
polled-IsSpent :
    (now : ℕ) (k : String) (picked : List Row) (l : List Row)
    → All
        (IsSpent (ids picked) k)
        (update (is_picked now k picked) (with_status now delivered) (expire_own now k l))
polled-IsSpent now k picked [] = tt
polled-IsSpent now k picked (r ∷ l) = (λ m i. ground arith, polled-IsSpent now k picked l)

module _ (handed : List String) (k : String) where
  -- a call that writes rows in place
  update-IsSpent :
      (p : Row → Bool) (f : Row → Row) (l : List Row)
      → ((r : Row) → IsSpent handed k r → IsSpent handed k (f r))
      → All (IsSpent handed k) l
      → All (IsSpent handed k) (update p f l)
  update-IsSpent p f [] step h = tt
  update-IsSpent p f (r ∷ l) step h = (
    elim (p r) as (λ b. IsSpent handed k (if b then f r else r)) [
      | true ↦ step r h.0
      | false ↦ h.0
    ],
    update-IsSpent p f l step h.1,
  )

  perform-IsSpent :
      (c : Call) (s : Store)
      → IsNew handed c
      → All (IsSpent handed k) s.rows
      → All (IsSpent handed k) (perform c s).rows
  unfolding perform poll_pending_injects ack_injects mark_inject_failed sweep_expired
      sweep_old_completed enqueue_inject
  perform-IsSpent (enqueue now q) s new h = elim (Option-cases (check_request q)) [
    | inl clear ↦
        rw (clear, perform, enqueue_inject)
          (All-append (IsSpent handed k) s.rows (new_row now q ∷ []) h ((λ m i. ground arith), tt))
    | inr (e, wrong) ↦ rw (wrong, perform, enqueue_inject) h
  ]
  perform-IsSpent (poll now j limit) s new h =
      update-IsSpent _ (with_status now delivered) (expire_own now j s.rows)
        (λ r spent m i. ground arith)
        (update-IsSpent _ (with_status now expired) s.rows (λ r spent m i. ground arith) h)
  perform-IsSpent (ack now []) s new h = h
  perform-IsSpent (ack now (q ∷ queue_ids)) s new h =
      update-IsSpent _ (ack_row now) s.rows (λ r spent m i. ground arith) h
  perform-IsSpent (fail now q message) s new h =
      update-IsSpent _ (fail_row now message) s.rows (λ r spent m i. ground arith) h
  perform-IsSpent (sweep now) s new h =
      update-IsSpent _ (with_status now expired) s.rows (λ r spent m i. ground arith) h
  perform-IsSpent (sweep_old now) s new h =
      update-IsSpent _ (delete_row now) s.rows (λ r spent m i. ground arith) h

  perform_all-IsSpent :
      (calls : List Call) (s : Store)
      → All (IsNew handed) calls
      → All (IsSpent handed k) s.rows
      → All (IsSpent handed k) (perform_all calls s).rows
  unfolding perform_all
  perform_all-IsSpent [] s new h = h
  perform_all-IsSpent (c ∷ calls) s new h =
      perform_all-IsSpent calls (perform c s) new.1 (perform-IsSpent c s new.0 h)

  -- a poll of the instance passes over such rows
  spent_unpolled :
      (later : ℕ) (limit : ℕ) (s : Store)
      → All (IsSpent handed k) s.rows
      → All (λ r. contains handed r.id ≡ false) (poll_pending_injects later k limit s).0
  unfolding poll_pending_injects
  spent_unpolled later limit s h =
      All-map (λ r. contains handed r.id ≡ false) (with_status later delivered)
        (due_rows later k limit (expire_own later k s.rows))
        (All-due_rows (λ r. contains handed r.id ≡ false) later k limit s.rows
          (All-imp (IsSpent handed k) (λ r. is_due later k r ≡ true → contains handed r.id ≡ false)
            s.rows (λ r spent due. unwaiting later r spent due) h))
    where
      unwaiting :
          (later : ℕ) (r : Row)
          → IsSpent handed k r
          → is_due later k r ≡ true
          → contains handed r.id ≡ false
      unwaiting later r spent due = elim (Bool-cases (contains handed r.id)) [
        | inl e ↦ let waits = spent e (ground arith) in ground arith
        | inr e ↦ e
      ]

-- The ids of what a poll of an instance returns are returned by no later poll of the instance:
-- whatever calls are made in between, one after another, with any clocks, as long as every new row
-- has an id that is none of those.
pub poll-no_redelivery :
    (now later : ℕ) (k : String) (limit limit' : ℕ) (calls : List Call) (s : Store)
    → All (IsNew (ids (poll_pending_injects now k limit s).0)) calls
    → let (first, s') = poll_pending_injects now k limit s in
      All
        (λ r. contains (ids first) r.id ≡ false)
        (poll_pending_injects later k limit' (perform_all calls s')).0
unfolding poll_pending_injects
poll-no_redelivery now later k limit limit' calls s new =
    let picked = due_rows now k limit (expire_own now k s.rows) in
    let same = ids-with_status now delivered picked in
    let handed = ids (map (with_status now delivered) picked) in
    let left = (poll_pending_injects now k limit s).1 in
    spent_unpolled handed k later limit' (perform_all calls left) (
      perform_all-IsSpent handed k calls left new
        (subst (λ h. All (IsSpent h k) left.rows) (sym same) (polled-IsSpent now k picked s.rows)))
