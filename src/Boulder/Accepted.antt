-- ===== src/Boulder/Accepted.antt =====
-- Which snapshots `validate_boulder_snapshot` accepts (core/todo_enforcer.py).
use eyot_ai.Prelude.{
  ℕ, ◌+◌, ◌≤◌, ◌≡◌, ◌≢◌, ◌↔◌, ◌⊎◌, inl, inr, refl, sym, subst, String, true, Option, none, some,
  ◌==◌, eq_iff, arith, if◌then◌else◌, Bool-cases, Option-cases, eq→path, ne→false,
}
use eyot_ai.Json.{
  Value, Items, Fields, null, boolean, num, seconds, text, arr, obj, nil, cons, end, get,
}
use eyot_ai.Boulder.{
  Verdict, accepted, is_valid_status, as_text, as_list, has_note, check_todo, is_in_progress,
  check_todos, validate_boulder_snapshot, go_on, todos_not_list, invalid_status, attribute_error,
  missing_note, multiple_in_progress,
}

-- the key has this text
abbrev pub Has : Fields → String → String → Type 0
Has todo k s = get todo k ≡ some (text s)

-- a todo with one of the four statuses, and with a non-empty note where it is completed
abbrev pub IsTodo : Fields → Type 0
IsTodo todo =
    Has todo "status" "pending"
    ⊎ Has todo "status" "in_progress"
    ⊎ Has todo "status" "cancelled"
    ⊎ (Has todo "status" "completed"
        × ((note : String) × Has todo "completion_note" note × (note ≢ "")))

abbrev pub AreTodos : Items → Type 0
AreTodos nil = Unit
AreTodos (cons v rest) = ((todo : Fields) × (v ≡ obj todo) × IsTodo todo) × AreTodos rest

-- how many todos are in progress
abbrev pub count_in_progress : Items → ℕ
count_in_progress nil = 0
count_in_progress (cons (obj todo) rest) =
    let n = count_in_progress rest in if is_in_progress todo then n + 1 else n
count_in_progress (cons _ rest) = count_in_progress rest

as_text-some : (v : Option Value) (s : String) → as_text v ≡ some s → v ≡ some (text s)
unfolding as_text
as_text-some none s e = cc
as_text-some (some (text t)) s e = cc
as_text-some (some null) s e = cc
as_text-some (some (boolean b)) s e = cc
as_text-some (some (num n)) s e = cc
as_text-some (some (seconds n)) s e = cc
as_text-some (some (arr l)) s e = cc
as_text-some (some (obj d)) s e = cc

as_list-some : (v : Option Value) (items : Items) → as_list v ≡ some items → v ≡ some (arr items)
unfolding as_list
as_list-some none s e = cc
as_list-some (some (arr l)) s e = cc
as_list-some (some (text t)) s e = cc
as_list-some (some null) s e = cc
as_list-some (some (boolean b)) s e = cc
as_list-some (some (num n)) s e = cc
as_list-some (some (seconds n)) s e = cc
as_list-some (some (obj d)) s e = cc

has_note-true :
    (todo : Fields)
    → has_note todo ≡ true
    → (note : String) × Has todo "completion_note" note × (note ≢ "")
unfolding has_note
has_note-true todo h = elim (Option-cases (as_text (get todo "completion_note"))) [
  | inl e ↦ absurd (ground arith)
  | inr (note, e) ↦
      (note, as_text-some (get todo "completion_note") note e, λ b. ground (arith, eq_iff note ""))
]

check_todo-IsTodo : (i : ℕ) (todo : Fields) → check_todo i todo ≡ accepted → IsTodo todo
unfolding check_todo is_valid_status
check_todo-IsTodo i todo h = elim (Option-cases (as_text (get todo "status"))) [
  | inl e ↦ absurd (ground arith)
  | inr (s, e) ↦
      let has = as_text-some (get todo "status") s e in
      elim (Bool-cases (s == "completed")) [
        | inl c ↦ inr (
            inr (
              inr (
                rw (sym (eq→path s "completed" c)) has,
                has_note-true todo (ground (arith, eq_iff s "completed")),
              )))
        | inr c ↦ elim (Bool-cases (s == "pending")) [
          | inl p ↦ inl (rw (sym (eq→path s "pending" p)) has)
          | inr p ↦ elim (Bool-cases (s == "in_progress")) [
            | inl g ↦ inr (inl (rw (sym (eq→path s "in_progress" g)) has))
            | inr g ↦
                let x : (s == "cancelled") ≡ true = ground arith in
                inr (inr (inl (rw (sym (eq→path s "cancelled" x)) has)))
          ]
        ]
      ]
]

IsTodo-check_todo : (i : ℕ) (todo : Fields) → IsTodo todo → check_todo i todo ≡ accepted
unfolding check_todo is_valid_status has_note as_text
IsTodo-check_todo i todo (inl e) = rw (e, check_todo) refl
IsTodo-check_todo i todo (inr (inl e)) = rw (e, check_todo) refl
IsTodo-check_todo i todo (inr (inr (inl e))) = rw (e, check_todo) refl
IsTodo-check_todo i todo (inr (inr (inr (e, (note, n, ne))))) =
    rw (e, check_todo) (rw (n, has_note) (rw (ne→false note "" ne) refl))

go_on-accepted : (v next : Verdict) → go_on v next ≡ accepted → (v ≡ accepted) × (next ≡ accepted)
go_on-accepted accepted next h = (refl, h)
go_on-accepted todos_not_list next h = absurd (ground arith)
go_on-accepted invalid_status next h = absurd (ground arith)
go_on-accepted attribute_error next h = absurd (ground arith)
go_on-accepted (missing_note i) next h = absurd (ground arith)
go_on-accepted (multiple_in_progress n) next h = absurd (ground arith)

check_todos-accepted :
    (i n : ℕ) (todos : Items)
    → check_todos i n todos ≡ accepted
    → AreTodos todos × (n + count_in_progress todos ≤ 1)
unfolding check_todos
check_todos-accepted i n nil h = (tt, ground arith)
check_todos-accepted i n (cons (obj todo) rest) h =
    let n' = if is_in_progress todo then n + 1 else n in
    let (ok, next) = go_on-accepted (check_todo i todo) (check_todos (i + 1) n' rest) h in
    let (ts, le) = check_todos-accepted (i + 1) n' rest next in
    (((todo, refl, check_todo-IsTodo i todo ok), ts), ground arith)
check_todos-accepted i n (cons null rest) h = absurd (ground arith)
check_todos-accepted i n (cons (boolean b) rest) h = absurd (ground arith)
check_todos-accepted i n (cons (num m) rest) h = absurd (ground arith)
check_todos-accepted i n (cons (seconds m) rest) h = absurd (ground arith)
check_todos-accepted i n (cons (text t) rest) h = absurd (ground arith)
check_todos-accepted i n (cons (arr l) rest) h = absurd (ground arith)

-- the fields of an object
abbrev fields : Value → Fields
fields (obj d) = d
fields _ = end

accepts-check_todos :
    (i n : ℕ) (todos : Items)
    → AreTodos todos
    → n + count_in_progress todos ≤ 1
    → check_todos i n todos ≡ accepted
unfolding check_todos
accepts-check_todos i n nil h le = ground arith
accepts-check_todos i n (cons (obj todo) rest) ((x, e, t), ts) le =
    let ok = IsTodo-check_todo i todo (subst (λ v. IsTodo (fields v)) (sym e) t) in
    rw ok (
      accepts-check_todos (i + 1) (if is_in_progress todo then n + 1 else n) rest ts (ground arith))
accepts-check_todos i n (cons null rest) ((x, e, t), ts) le = cc
accepts-check_todos i n (cons (boolean b) rest) ((x, e, t), ts) le = cc
accepts-check_todos i n (cons (num m) rest) ((x, e, t), ts) le = cc
accepts-check_todos i n (cons (seconds m) rest) ((x, e, t), ts) le = cc
accepts-check_todos i n (cons (text s) rest) ((x, e, t), ts) le = cc
accepts-check_todos i n (cons (arr l) rest) ((x, e, t), ts) le = cc

-- A snapshot is accepted exactly when its `todos` is a list of objects, each with one of the four
-- statuses and a non-empty note where it is completed, of which at most one is in progress.
pub validate_boulder_snapshot-accepted :
    (snapshot : Fields)
    → (validate_boulder_snapshot snapshot ≡ accepted) ↔ (
        (todos : Items) × (get snapshot "todos" ≡ some (arr todos))
        × AreTodos todos
        × (count_in_progress todos ≤ 1))
unfolding validate_boulder_snapshot as_list
validate_boulder_snapshot-accepted snapshot = (
  λ h. elim (Option-cases (as_list (get snapshot "todos"))) [
    | inl e ↦ absurd (ground arith)
    | inr (todos, e) ↦
        let (ts, le) = check_todos-accepted 0 0 todos (ground arith) in
        (todos, as_list-some (get snapshot "todos") todos e, ts, omega arith)
  ],
  λ (todos, e, ts, le).
      rw (e, validate_boulder_snapshot) (accepts-check_todos 0 0 todos ts (omega arith)),
)
