-- ===== src/Harness/Handlers/Runaway.antt =====
-- A loop that keeps sending checkpoints is stopped (core/harness_handlers.py).
use eyot_ai.Prelude.{
  ℕ, ◌+◌, ◌≤◌, ◌<◌, String, ◌≡◌, refl, sym, ◌∙◌, Bool, true, ◌&&◌, ◌⊎◌, inl, inr, Option, none,
  some, List, [], ◌∷◌, ◌++◌, arith, eq_refl, ◌==◌, opt_is, any, any-append, length, All,
}
use eyot_ai.Json.{Value, Fields}
use eyot_ai.Audit.{Event, harness_checkpoint, harness_breaker_tripped}
use eyot_ai.Harness.State.{InstanceLoopMetrics, lookup, store, Harness, lookup-store}
use eyot_ai.Harness.Breakers.{
  Reason, max_continuations, BreakerConfig, tripped_event, stopped_event, kill_event,
  instance_event, check_breakers, check_instance, load_breaker_config,
}
use eyot_ai.Harness.Breakers.Order.{check_breakers-first}
use eyot_ai.Harness.Breakers.Trips.{
  trip_events, Checked, check_instance-Checked, check_instance_of_found,
}
use eyot_ai.Harness.Handlers.{payload_tokens, setdefault, handle_checkpoint, emit}

abbrev pub is_trip_of : String → Event → Bool
is_trip_of k e = (e.event_type == harness_breaker_tripped) && opt_is e.resource_id k

-- a breaker of the instance has tripped, by the audit log
abbrev pub has_tripped : String → Harness → Bool
has_tripped k h = any (is_trip_of k) h.events

-- the counter that the next checkpoint starts from
abbrev pub counted : String → Harness → ℕ
counted k h = (setdefault h.registry k).continuation_count

is_trip_of_trip : (k : String) (why : Reason) → is_trip_of k (tripped_event k why) ≡ true
is_trip_of_trip k why = ground (arith, eq_refl k)

has_tripped_of_trip :
    (k : String) (why : Reason) (l : List Event) → any (is_trip_of k) (trip_events k why l) ≡ true
has_tripped_of_trip k why l = ground (
  arith,
  any-append (is_trip_of k) (l ++ tripped_event k why ∷ [] ++ stopped_event k why ∷ [])
      (kill_event k why ∷ []),
  any-append (is_trip_of k) (l ++ tripped_event k why ∷ []) (stopped_event k why ∷ []),
  any-append (is_trip_of k) l (tripped_event k why ∷ []),
  eq_refl k,
)

-- the registry entry that a checkpoint stores
abbrev pub next_metrics : ℕ → ℕ → InstanceLoopMetrics → InstanceLoopMetrics
next_metrics now n m = record m {
  continuation_count = m.continuation_count + 1;
  token_estimate = m.token_estimate + n;
  last_checkpoint_at = some now;
}

module _ (int : Value → Option ℕ) (k : String) where
  -- one checkpoint event after another, each with its time and payload
  pub run_checkpoints : List (ℕ × Fields) → Harness → Harness
  run_checkpoints [] h = h
  run_checkpoints ((now, payload) ∷ l) h =
      run_checkpoints l (emit int now (instance_event harness_checkpoint k payload) h)

  abbrev pub IsReadable : ℕ × Fields → Type 0
  IsReadable c = (n : ℕ) × (payload_tokens int c.1 ≡ some n)

  counter_step :
      (n : ℕ) (h : Harness) (m : InstanceLoopMetrics) (c : BreakerConfig)
      (r : Option Reason × Harness)
      → lookup h.registry k ≡ some m
      → c.max_continuations ≡ n
      → (r.0 ≡ none → m.continuation_count < c.max_continuations)
      → Checked k h r
      → (r.1.states ≡ h.states)
        × (has_tripped k h ≡ true → has_tripped k r.1 ≡ true)
        × ((has_tripped k r.1 ≡ true)
            ⊎ ((setdefault r.1.registry k ≡ m) × (m.continuation_count < n)))
  unfolding setdefault
  counter_step n h m c r found en below (inl e) = ground (arith, below e.0)
  counter_step n h m c r found en below (inr t) = ground (arith, has_tripped_of_trip k t.0 h.events)

  abbrev entry : ℕ → ℕ → Harness → InstanceLoopMetrics
  entry now n h = next_metrics now n (setdefault h.registry k)

  -- the state behind `handle_checkpoint`'s writes, with the entry that they store
  abbrev stored : ℕ → Fields → ℕ → Harness → Harness
  stored now payload n h = record h {
    events = h.events ++ instance_event harness_checkpoint k payload ∷ [];
    registry = store h.registry k (entry now n h);
  }

  readable_emit :
      (now : ℕ) (payload : Fields) (h : Harness) (n : ℕ)
      → payload_tokens int payload ≡ some n
      → emit int now (instance_event harness_checkpoint k payload) h
        ≡ (check_instance now k (stored now payload n h)).1
  unfolding emit handle_checkpoint
  readable_emit now payload h n e = rw e

  found_stored :
      (now : ℕ) (payload : Fields) (n : ℕ) (h : Harness)
      → lookup (stored now payload n h).registry k ≡ some (entry now n h)
  found_stored now payload n h =
      ground (arith, lookup-store h.registry k k (entry now n h), eq_refl k)

  survivor_below :
      (now : ℕ) (payload : Fields) (n : ℕ) (h : Harness) (c : BreakerConfig)
      → load_breaker_config k h.states ≡ some c
      → (check_instance now k (stored now payload n h)).0 ≡ none
      → (entry now n h).continuation_count < c.max_continuations
  survivor_below now payload n h c e clear =
      let m = entry now n h in
      let s = stored now payload n h in
      let passed : (check_breakers now k m c s).0 ≡ none =
        sym (check_instance_of_found now k m c s (found_stored now payload n h) e) ∙ clear in
      omega (arith, (check_breakers-first now k m c s).1.0 passed max_continuations)

  -- What a checkpoint that can be read does to the counter and the log.
  checkpoint_step :
      (now : ℕ) (payload : Fields) (h : Harness) (c : BreakerConfig) (n : ℕ)
      → payload_tokens int payload ≡ some n
      → load_breaker_config k h.states ≡ some c
      → let h' = emit int now (instance_event harness_checkpoint k payload) h in
        (h'.states ≡ h.states)
        × (has_tripped k h ≡ true → has_tripped k h' ≡ true)
        × ((has_tripped k h' ≡ true)
            ⊎ ((counted k h' ≡ counted k h + 1) × (counted k h' < c.max_continuations)))
  checkpoint_step now payload h c n e f =
      let s = stored now payload n h in
      let step =
        counter_step c.max_continuations s (entry now n h) c (check_instance now k s)
          (found_stored now payload n h) refl (survivor_below now payload n h c f)
          (check_instance-Checked now k s) in
      rw (readable_emit now payload h n e) (
        ground (
          arith,
          step,
          any-append (is_trip_of k) h.events (instance_event harness_checkpoint k payload ∷ []),
        ))

  kept_trip :
      (l : List (ℕ × Fields)) (h : Harness) (c : BreakerConfig)
      → load_breaker_config k h.states ≡ some c
      → All IsReadable l
      → has_tripped k h ≡ true
      → has_tripped k (run_checkpoints l h) ≡ true
  unfolding run_checkpoints
  kept_trip [] h c e r t = t
  kept_trip ((now, payload) ∷ l) h c e r t =
      let step = checkpoint_step now payload h c r.0.0 r.0.1 e in
      kept_trip l (emit int now (instance_event harness_checkpoint k payload) h) c (rw step.0 e) r.1
        (step.1 t)

  -- An instance with an active row whose `max_continuations` is `c.max_continuations` cannot send
  -- that many checkpoints with readable payloads, at any times and with any token estimates, and at
  -- least one, without a breaker of it having tripped: the audit log then holds its breaker_tripped.
  pub run_checkpoints_trip :
      (l : List (ℕ × Fields)) (h : Harness) (c : BreakerConfig)
      → load_breaker_config k h.states ≡ some c
      → All IsReadable l
      → 0 < length l
      → c.max_continuations ≤ counted k h + length l
      → has_tripped k (run_checkpoints l h) ≡ true
  unfolding run_checkpoints
  run_checkpoints_trip [] h c e r pos enough = absurd (omega arith)
  run_checkpoints_trip ((now, payload) ∷ l) h c e r pos enough =
      let h' = emit int now (instance_event harness_checkpoint k payload) h in
      let step = checkpoint_step now payload h c r.0.0 r.0.1 e in
      let e' : load_breaker_config k h'.states ≡ some c = rw step.0 e in
      elim step.2 [
        | inl t ↦ kept_trip l h' c e' r.1 t
        | inr n ↦ run_checkpoints_trip l h' c e' r.1 (omega arith) (omega arith)
      ]
