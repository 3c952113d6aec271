-- ===== src/Harness/Supervisor/Control.antt =====
-- Pause, resume and interrupt (core/harness_supervisor.py).
use eyot_ai.Prelude.{
  ℕ, String, ◌≡◌, refl, none, some, List, [], ◌∷◌, ◌++◌, arith, ◌==◌, eq_iff, if◌then◌else◌, find,
  update_first, ap, Bool, Bool-cases, inl, inr,
}
use eyot_ai.Json.{end, texts}
use eyot_ai.Audit.{
  Event, harness_paused, harness_resumed, harness_interrupted, harness_control_sent,
}
use eyot_ai.Harness.State.{
  LoopStatus, interrupted, InstanceLoopState, lookup, pop, Harness, is_active_row, lookup-pop,
}
use eyot_ai.Harness.Breakers.{emit_plain, instance_event}
use eyot_ai.Harness.Supervisor.{
  loop_state_not_found, returned, raised, get_state, handle_interrupt, handle_pause, handle_resume,
  capture_snapshot,
}

abbrev with_status : LoopStatus → InstanceLoopState → InstanceLoopState
with_status status s = record s { loop_status = status }

abbrev set_rows : String → LoopStatus → List InstanceLoopState → List InstanceLoopState
set_rows k status = update_first (is_active_row k) (with_status status)

-- a list around what `find` finds, and the change there
split_at-found :
    {A : Type 0} (p : A → Bool) (f : A → A) (x : A) (l : List A)
    → find p l ≡ some x
    → (before after : List A) × (l ≡ before ++ x ∷ after)
      × (update_first p f l ≡ before ++ f x ∷ after)
split_at-found p f x [] e = cc e
split_at-found p f x (y ∷ l) e = elim (Bool-cases (p y)) [
  | inl t ↦
      let same : y ≡ x = ground arith in
      ([], l, ap (λ z. z ∷ l) same, rw t (ap (λ z. f z ∷ l) same))
  | inr t ↦
      let (before, after, old, new) = split_at-found p f x l (rw t at e) in
      (y ∷ before, after, ap (λ z. y ∷ z) old, rw t (ap (λ z. y ∷ z) new))
]

-- the active row of `j` behind a status change of `k`
find-set_rows :
    (k j : String) (status : LoopStatus) (s : InstanceLoopState) (l : List InstanceLoopState)
    → find (is_active_row k) l ≡ some s
    → find (is_active_row j) (set_rows k status l)
      ≡ (if k == j then some (with_status status s) else find (is_active_row j) l)
find-set_rows k j status s [] e = cc
find-set_rows k j status s (x ∷ l) e = ground (
  arith,
  find-set_rows k j status s l,
  eq_iff x.instance_id k,
  eq_iff x.instance_id j,
  eq_iff k j,
)

abbrev pub paused_event : String → Event
paused_event k = instance_event harness_paused k end

abbrev pub resumed_event : String → Event
resumed_event k = instance_event harness_resumed k end

abbrev pub interrupted_event : String → Event
interrupted_event k = instance_event harness_interrupted k end

abbrev pub kill_sent : String → Event
kill_sent k =
    instance_event harness_control_sent k (texts (("action", "kill") ∷ ("instance_id", k) ∷ []))

-- `h` with the status of `k` written and the event logged.
abbrev controlled : String → LoopStatus → Event → Harness → Harness
controlled k status e h = record h {
  states = set_rows k status h.states;
  events = h.events ++ e ∷ [];
}

module _ (now : ℕ) (k : String) (s : InstanceLoopState) (h : Harness) where
  interrupt_lem :
      get_state k h ≡ some s
      → handle_interrupt now k h
        ≡ returned (with_status interrupted s) (record h {
          states = set_rows k interrupted h.states;
          events = h.events ++ interrupted_event k ∷ [] ++ kill_sent k ∷ [];
          registry = pop h.registry k;
        })
  unfolding handle_interrupt emit_plain
  interrupt_lem e = ground arith

-- An interrupt of an instance with the active row `s` returns `s` as interrupted; afterwards the table
-- has that row at the place of `s`, and all other rows, the deleted ones included, as before; each
-- other instance has the active row it had, its registry entry is gone and the others
-- stay, and the log has harness.interrupted and control_sent(kill) more.
pub interrupt_effect :
    (now : ℕ) (k : String) (s : InstanceLoopState) (h : Harness)
    → get_state k h ≡ some s
    → (h' : Harness) × (handle_interrupt now k h ≡ returned (with_status interrupted s) h')
      × ((before after : List InstanceLoopState) × (h.states ≡ before ++ s ∷ after)
          × (h'.states ≡ before ++ with_status interrupted s ∷ after))
      × ((j : String)
          → get_state j h' ≡ (if k == j then some (with_status interrupted s) else get_state j h))
      × ((j : String) → lookup h'.registry j ≡ (if k == j then none else lookup h.registry j))
      × (h'.events ≡ h.events ++ interrupted_event k ∷ [] ++ kill_sent k ∷ [])
interrupt_effect now k s h found = (
  record h {
    states = set_rows k interrupted h.states;
    events = h.events ++ interrupted_event k ∷ [] ++ kill_sent k ∷ [];
    registry = pop h.registry k;
  },
  interrupt_lem now k s h found,
  split_at-found (is_active_row k) (with_status interrupted) s h.states found,
  λ j. find-set_rows k j interrupted s h.states found,
  λ j. lookup-pop h.registry k j,
  refl,
)

-- Without an active row every operation raises `loop_state.not_found` and changes nothing.
controls-not_found :
    (now : ℕ) (k : String) (h : Harness)
    → get_state k h ≡ none
    → (handle_pause now k h ≡ raised loop_state_not_found h)
      × (handle_resume now k h ≡ raised loop_state_not_found h)
      × (handle_interrupt now k h ≡ raised loop_state_not_found h)
      × (capture_snapshot now k h ≡ raised loop_state_not_found h)
unfolding handle_pause handle_resume handle_interrupt capture_snapshot
controls-not_found now k h e = (ground arith, ground arith, ground arith, ground arith)
