-- ===== src/Boulder/Examples.antt =====
-- Todo snapshots: tests, and what is accepted at one of them.
use eyot_ai.Prelude.{◌≤◌, ◌≡◌, ◌↔◌, refl, some}
use eyot_ai.Json.{Items, Fields, text, arr, obj, nil, cons, end, field, get}
use eyot_ai.Boulder.{
  accepted, missing_note, multiple_in_progress, is_valid_status, as_text, as_list, has_note,
  check_todo, is_in_progress, check_todos, validate_boulder_snapshot,
}
use eyot_ai.Boulder.Accepted.{AreTodos, count_in_progress, validate_boulder_snapshot-accepted}

abbrev done : Fields
done = field "status" (text "completed") (field "completion_note" (text "tests pass") end)

abbrev running : Fields
running = field "status" (text "in_progress") end

abbrev snapshot : Fields
snapshot = field "todos" (arr (cons (obj done) (cons (obj running) nil))) end

accepts : validate_boulder_snapshot snapshot ≡ accepted
unfolding validate_boulder_snapshot as_list check_todos check_todo is_in_progress is_valid_status
    has_note as_text
accepts = refl

twice_running :
    validate_boulder_snapshot
      (field "todos" (arr (cons (obj running) (cons (obj running) nil))) end)
    ≡ multiple_in_progress 2
unfolding validate_boulder_snapshot as_list check_todos check_todo is_in_progress is_valid_status
    has_note as_text
twice_running = refl

no_note :
    validate_boulder_snapshot
      (field "todos" (arr (cons (obj (field "status" (text "completed") end)) nil)) end)
    ≡ missing_note 0
unfolding validate_boulder_snapshot as_list check_todos check_todo is_in_progress is_valid_status
    has_note as_text
no_note = refl

validate_boulder_snapshot-accepted_example : (validate_boulder_snapshot snapshot ≡ accepted) ↔ (
    (todos : Items) × (get snapshot "todos" ≡ some (arr todos))
    × AreTodos todos
    × (count_in_progress todos ≤ 1))
validate_boulder_snapshot-accepted_example = validate_boulder_snapshot-accepted snapshot
