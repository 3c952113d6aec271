-- ===== src/Boulder.antt =====
-- The boulder snapshot's todo list (eyot-backend/app/core/todo_enforcer.py).
pub mod Accepted
mod Examples
use eyot_ai.Prelude.{
  ℕ, ◌+◌, String, Bool, false, ◌||◌, not, Option, none, some, ◌==◌, ltb, if◌then◌else◌,
}
use eyot_ai.Json.{Value, Items, Fields, text, arr, obj, nil, cons, get}

-- What `validate_boulder_snapshot` does: it returns, raises a `TodoEnforcerError` with one of four
-- messages, or meets a todo that is no `dict` and has no `get`.
pub data Verdict : Type 0 where
  accepted todos_not_list invalid_status attribute_error : Verdict
  missing_note : ℕ → Verdict
  multiple_in_progress : ℕ → Verdict

-- `VALID_STATUSES`
pub is_valid_status : String → Bool
is_valid_status s = s == "pending" || s == "in_progress" || s == "completed" || s == "cancelled"

-- `isinstance(v, str)`, with the text
pub as_text : Option Value → Option String
as_text (some (text s)) = some s
as_text _ = none

-- `isinstance(note, str) and note != ""`
pub has_note : Fields → Bool
unfolding as_text
has_note todo = elim (as_text (get todo "completion_note")) [
  | none ↦ false
  | some note ↦ not (note == "")
]

-- the check of one todo, without its count of `in_progress`
pub check_todo : ℕ → Fields → Verdict
unfolding is_valid_status has_note
check_todo i todo = elim (as_text (get todo "status")) [
  | none ↦ invalid_status
  | some status ↦
      if not (is_valid_status status)
      then invalid_status
      else if status == "completed"
      then (if has_note todo then accepted else missing_note i)
      else accepted
]

-- `status == "in_progress"`
pub is_in_progress : Fields → Bool
unfolding as_text
is_in_progress todo = elim (as_text (get todo "status")) [
  | none ↦ false
  | some status ↦ status == "in_progress"
]

-- the loop over `enumerate(todos)` and the test behind it
-- an error ends the loop
abbrev pub go_on : Verdict → Verdict → Verdict
go_on accepted next = next
go_on other next = other

pub check_todos : ℕ → ℕ → Items → Verdict
unfolding check_todo is_in_progress
check_todos i n nil = if ltb 1 n then multiple_in_progress n else accepted
check_todos i n (cons (obj todo) rest) =
    let next = check_todos (i + 1) (if is_in_progress todo then n + 1 else n) rest in
    go_on (check_todo i todo) next
check_todos i n (cons _ rest) = attribute_error

-- `isinstance(todos, list)`, with the list
pub as_list : Option Value → Option Items
as_list (some (arr items)) = some items
as_list _ = none

pub validate_boulder_snapshot : Fields → Verdict
unfolding check_todos as_list
validate_boulder_snapshot snapshot = elim (as_list (get snapshot "todos")) [
  | some todos ↦ check_todos 0 0 todos
  | none ↦ todos_not_list
]
