-- ===== src/Harness/IdleCheck/Injection.antt =====
-- Which instances the idle check injects a continuation into (core/continuation.py).
use eyot_ai.Prelude.{
  ℕ, ◌+◌, ◌*◌, ◌<◌, String, ◌≡◌, ◌≢◌, refl, Bool, Option, none, some, List, [], ◌∷◌, ◌++◌, arith,
  ◌==◌, find, count, count-append, All, sym, ◌∙◌, ap, subst, inl, inr, ne→false,
}
use eyot_ai.Audit.{Event, harness_continuation_injected}
use eyot_ai.Harness.State.{InstanceLoopState, lookup, Harness, is_active_row}
use eyot_ai.Harness.Breakers.{
  Reason, idle_timeout, BreakerConfig, tripped_event, stopped_event, kill_event, emit_plain,
  check_breakers, check_instance, load_breaker_config,
}
use eyot_ai.Harness.Breakers.Order.{check_breakers-first}
use eyot_ai.Harness.Breakers.Trips.{
  trip_events, Checked, check_instance-Checked, check_instance_of_found,
}
use eyot_ai.Harness.Supervisor.{row_metrics}
use eyot_ai.Harness.IdleCheck.{
  continuation_event, inject_if_stale, after_check, idle_check_row, idle_check_rows,
}

abbrev pub is_continuation : Event → Bool
is_continuation e = e.event_type == harness_continuation_injected

-- how many continuations the audit log holds
abbrev pub continuations : Harness → ℕ
continuations h = count is_continuation h.events

-- The registry has the row's own numbers for it, and the row is its instance's active one.
abbrev pub IsSynced : Harness → InstanceLoopState → Type 0
IsSynced h s =
    (lookup h.registry s.instance_id ≡ some (row_metrics s))
    × (find (is_active_row s.instance_id) h.states ≡ some s)

continuations-trip_events :
    (k : String) (why : Reason) (l : List Event)
    → count is_continuation (trip_events k why l) ≡ count is_continuation l
continuations-trip_events k why l = ground (
  arith,
  count-append is_continuation (l ++ tripped_event k why ∷ [] ++ stopped_event k why ∷ [])
      (kill_event k why ∷ []),
  count-append is_continuation (l ++ tripped_event k why ∷ []) (stopped_event k why ∷ []),
  count-append is_continuation l (tripped_event k why ∷ []),
)

-- No limit reached, none overdue.
module _ (now : ℕ) (s : InstanceLoopState) (h : Harness) (y : IsSynced h s) where
  abbrev config : BreakerConfig
  config = record {
    max_continuations = s.max_continuations;
    max_wall_clock_seconds = s.max_wall_clock_seconds;
    max_token_estimate = s.max_token_estimate;
    idle_timeout_seconds = s.idle_timeout_seconds;
  }

  config_loaded : load_breaker_config s.instance_id h.states ≡ some config
  unfolding load_breaker_config
  config_loaded = ground arith

  fresh_of_clear : (check_instance now s.instance_id h).0 ≡ none → inject_if_stale now s h ≡ h
  unfolding inject_if_stale
  fresh_of_clear clear =
      let passed : (check_breakers now s.instance_id (row_metrics s) config h).0 ≡ none =
        sym (check_instance_of_found now s.instance_id (row_metrics s) config h y.0 config_loaded)
        ∙ clear in
      ground (
        arith,
        (check_breakers-first now s.instance_id (row_metrics s) config h).1.0 passed idle_timeout,
      )

  after_check_quiet :
      (r : Option Reason × Harness)
      → (r.0 ≡ none → inject_if_stale now s h ≡ h)
      → Checked s.instance_id h r
      → continuations (after_check now s r) ≡ continuations h
  after_check_quiet (none, h') fresh (inl e) =
      ap (λ x. continuations (inject_if_stale now s x)) e.1 ∙ ap continuations (fresh refl)
  after_check_quiet (some why, h') fresh (inl e) = cc
  after_check_quiet (none, h') fresh (inr t) = cc
  after_check_quiet (some why, h') fresh (inr t) =
      ap (count is_continuation) t.2.0 ∙ continuations-trip_events s.instance_id t.0 h.events

  -- One row.
  synced_quiet : continuations (idle_check_row now s h) ≡ continuations h
  unfolding idle_check_row
  synced_quiet =
      after_check_quiet (check_instance now s.instance_id h) fresh_of_clear
        (check_instance-Checked now s.instance_id h)

-- A check of a synced row leaves another instance's row synced.
after_check-IsSynced :
    (now : ℕ) (s t : InstanceLoopState) (h : Harness) (r : Option Reason × Harness)
    → s.instance_id ≢ t.instance_id
    → (r.0 ≡ none → inject_if_stale now s h ≡ h)
    → Checked s.instance_id h r
    → IsSynced h t
    → IsSynced (after_check now s r) t
after_check-IsSynced now s t h (none, h') ne fresh (inl e) y =
    subst (λ x. IsSynced x t) (sym (ap (inject_if_stale now s) e.1 ∙ fresh refl)) y
after_check-IsSynced now s t h (some why, h') ne fresh (inl e) y = cc
after_check-IsSynced now s t h (none, h') ne fresh (inr x) y = cc
after_check-IsSynced now s t h (some why, h') ne fresh (inr x) y =
    (x.2.2 t.instance_id ∙ rw (ne→false s.instance_id t.instance_id ne) y.0, rw (x.2.1) y.1)

-- Rows of different instances.
abbrev pub IsDistinct : List InstanceLoopState → Type 0
IsDistinct [] = Unit
IsDistinct (s ∷ l) = All (λ t. s.instance_id ≢ t.instance_id) l × IsDistinct l

row-IsSynced :
    (now : ℕ) (s t : InstanceLoopState) (h : Harness)
    → IsSynced h s
    → s.instance_id ≢ t.instance_id
    → IsSynced h t
    → IsSynced (idle_check_row now s h) t
unfolding idle_check_row
row-IsSynced now s t h y ne =
    after_check-IsSynced now s t h (check_instance now s.instance_id h) ne
      (fresh_of_clear now s h y) (check_instance-Checked now s.instance_id h)

rows-IsSynced :
    (now : ℕ) (s : InstanceLoopState) (l : List InstanceLoopState) (h : Harness)
    → IsSynced h s
    → All (λ t. s.instance_id ≢ t.instance_id) l
    → All (IsSynced h) l
    → All (IsSynced (idle_check_row now s h)) l
rows-IsSynced now s [] h y ne all = tt
rows-IsSynced now s (t ∷ l) h y ne all =
    (row-IsSynced now s t h y ne.0 all.0, rows-IsSynced now s l h y ne.1 all.1)

pub idle_check_rows_quiet :
    (now : ℕ) (l : List InstanceLoopState) (h : Harness)
    → IsDistinct l
    → All (IsSynced h) l
    → continuations (idle_check_rows now l h) ≡ continuations h
unfolding idle_check_rows
idle_check_rows_quiet now [] h d y = refl
idle_check_rows_quiet now (s ∷ l) h d y =
    idle_check_rows_quiet now l (idle_check_row now s h) d.1 (rows-IsSynced now s l h y.0 d.0 y.1)
    ∙ synced_quiet now s h y.0

-- What the idle check does with a row that has no registry entry: it injects where it is overdue.
pub unregistered_injects :
    (now t : ℕ) (s : InstanceLoopState) (h : Harness)
    → lookup h.registry s.instance_id ≡ none
    → s.last_checkpoint_at ≡ some t
    → t + s.idle_timeout_seconds * 1000000 < now
    → (idle_check_row now s h).events ≡ h.events ++ continuation_event now t s ∷ []
unfolding idle_check_row check_instance inject_if_stale emit_plain
unregistered_injects now t s h none_found last late = ground arith
