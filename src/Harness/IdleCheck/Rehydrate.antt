-- ===== src/Harness/IdleCheck/Rehydrate.antt =====
-- An idle check right after a restart (core/continuation.py, `rehydrate` of
-- core/harness_supervisor.py).
use eyot_ai.Prelude.{◌≡◌, ◌≢◌, true, List, [], ◌∷◌, is_none, All}
use eyot_ai.Harness.State.{InstanceLoopState, Harness}

-- The active rows are of different instances (the unique index of the table).
abbrev pub IsUnique : List InstanceLoopState → Type 0
IsUnique [] = Unit
IsUnique (s ∷ l) =
    (is_none s.deleted_at ≡ true
      → All (λ t. is_none t.deleted_at ≡ true → s.instance_id ≢ t.instance_id) l)
    × IsUnique l
