-- ===== src/Inject/Queue.antt =====
-- core/inject_queue.py over the rows of `instance_inject_queue`. `now` is the clock at the call.
pub mod Lifecycle
pub mod Delivery
pub mod Acks
pub mod Redelivery
pub mod Polled
pub mod Sweeps
pub mod Requests
use eyot_ai.Prelude.{
  ℕ, ◌+◌, String, Bool, true, false, ◌&&◌, ◌||◌, Option, none, some, List, [], ◌∷◌, ◌++◌, ◌==◌, ltb,
  leb, str_leb, if◌then◌else◌, is_none, map, filter, count, update, take, contains,
}
use eyot_ai.Json.{text, obj, end, field}
use eyot_ai.Audit.{Event}
use eyot_ai.Inject.Tldr.{TldrError, validate_tldr, compute_prose_length, report_prose_length}
use eyot_ai.Inject.Rows.{
  InjectStatus, pending, delivered, acked, failed, expired, is_pending, is_delivered, is_completed,
  is_acked_mode, Row, Store, completed_sweep_age, row_event, requested_event, learning_events,
  Request, new_row,
}

-- the two checks of `enqueue_inject`: of the request, which has no report, and of the payload
unfoldable pub check_request : Request → Option TldrError
check_request q = elim (validate_tldr q.tldr (report_prose_length none)) [
  | some e ↦ some e
  | none ↦ validate_tldr q.tldr (compute_prose_length (obj q.payload))
]

-- `none` is the return of the new row
unfoldable pub enqueue_inject : ℕ → Request → Store → Option TldrError × Store
unfolding check_request learning_events
enqueue_inject now q s = elim (check_request q) [
  | some e ↦ (some e, s)
  | none ↦
      let row = new_row now q in
      (
        none,
        record {
          rows = s.rows ++ row ∷ [];
          events =
              (s.events ++ requested_event row q.tldr ∷ []) ++ learning_events row q.tldr q.kind;
        },
      )
]

abbrev pub with_status : ℕ → InjectStatus → Row → Row
with_status now status r = record r { status = status; updated_at = now }

-- pending, overdue and not deleted
abbrev pub is_overdue : ℕ → Row → Bool
is_overdue now r = is_pending r.status && leb r.expires_at now && is_none r.deleted_at

-- what `poll_pending_injects` selects
abbrev pub is_due : ℕ → String → Row → Bool
is_due now k r =
    (r.instance_id == k) && is_pending r.status && ltb now r.expires_at && is_none r.deleted_at

-- `ORDER BY created_at, id`
abbrev pub before : Row → Row → Bool
before a b = ltb a.created_at b.created_at || (leb a.created_at b.created_at && str_leb a.id b.id)

unfoldable pub insert_row : Row → List Row → List Row
insert_row r [] = r ∷ []
insert_row r (x ∷ l) = let rest = insert_row r l in if before r x then r ∷ x ∷ l else x ∷ rest

unfoldable pub sort_rows : List Row → List Row
unfolding insert_row
sort_rows [] = []
sort_rows (r ∷ l) = insert_row r (sort_rows l)

abbrev pub ids : List Row → List String
ids = map (λ r. r.id)

-- the first statement of `poll_pending_injects`
abbrev pub expire_own : ℕ → String → List Row → List Row
expire_own now k = update (λ r. (r.instance_id == k) && is_overdue now r) (with_status now expired)

-- the rows that `poll_pending_injects` picks
unfoldable pub due_rows : ℕ → String → ℕ → List Row → List Row
unfolding sort_rows
due_rows now k limit rows = take limit (sort_rows (filter (is_due now k) rows))

-- the row is one of the picked ones, which are all due
abbrev pub is_picked : ℕ → String → List Row → Row → Bool
is_picked now k picked r = is_due now k r && contains (ids picked) r.id

unfoldable pub poll_pending_injects : ℕ → String → ℕ → Store → List Row × Store
unfolding due_rows
poll_pending_injects now k limit s =
    let rows = expire_own now k s.rows in
    let picked = due_rows now k limit rows in
    (
      map (with_status now delivered) picked,
      record s { rows = update (is_picked now k picked) (with_status now delivered) rows },
    )

-- the row that `ack_injects` acknowledges
abbrev pub is_ackable : List String → Row → Bool
is_ackable queue_ids r = contains queue_ids r.id && is_none r.deleted_at && is_delivered r.status

abbrev pub ack_row : ℕ → Row → Row
ack_row now r = record r { status = acked; acked_at = some now; updated_at = now }

-- the events of the loop of `ack_injects`
pub applied_events : List String → List Row → List Event
applied_events queue_ids [] = []
applied_events queue_ids (r ∷ rows) =
    let rest = applied_events queue_ids rows in
    if is_ackable queue_ids r && is_acked_mode r.delivery_mode
    then row_event "harness.inject_applied" r end ∷ rest
    else rest

pub ack_injects : ℕ → List String → Store → ℕ × Store
unfolding applied_events
ack_injects now [] s = (0, s)
ack_injects now (q ∷ queue_ids) s = (
  count (is_ackable (q ∷ queue_ids)) s.rows,
  record {
    rows = update (is_ackable (q ∷ queue_ids)) (ack_row now) s.rows;
    events = s.events ++ applied_events (q ∷ queue_ids) s.rows;
  },
)

abbrev pub fail_row : ℕ → String → Row → Row
fail_row now message r = record r {
  status = failed;
  error_message = some message;
  updated_at = now;
}

-- the live row with the id
abbrev pub is_live : String → Row → Bool
is_live q r = (r.id == q) && is_none r.deleted_at

abbrev pub failed_event : String → Row → Event
failed_event message r =
    row_event "harness.inject_failed" r (field "error_message" (text message) end)

-- the events of `mark_inject_failed`: ids are unique, so there is at most one row
pub failed_events : String → String → List Row → List Event
failed_events q message [] = []
failed_events q message (r ∷ rows) =
    let rest = failed_events q message rows in
    if is_live q r then failed_event message r ∷ rest else rest

pub mark_inject_failed : ℕ → String → String → Store → Store
unfolding failed_events
mark_inject_failed now q message s = record {
  rows = update (is_live q) (fail_row now message) s.rows;
  events = s.events ++ failed_events q message s.rows;
}

pub sweep_expired : ℕ → Store → ℕ × Store
sweep_expired now s = (
  count (is_overdue now) s.rows,
  record s { rows = update (is_overdue now) (with_status now expired) s.rows },
)

-- completed, not deleted and untouched for longer than the sweep age
abbrev pub is_stale : ℕ → Row → Bool
is_stale now r =
    is_completed r.status && ltb (r.updated_at + completed_sweep_age) now && is_none r.deleted_at

abbrev pub delete_row : ℕ → Row → Row
delete_row now r = record r { deleted_at = some now; updated_at = now }

pub sweep_old_completed : ℕ → Store → ℕ × Store
sweep_old_completed now s =
    (count (is_stale now) s.rows, record s { rows = update (is_stale now) (delete_row now) s.rows })
