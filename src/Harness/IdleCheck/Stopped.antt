-- ===== src/Harness/IdleCheck/Stopped.antt =====
-- What the idle check does with a loop that a breaker has stopped (core/continuation.py).
use mathlib.Core.List.{append-nil, append_assoc}
use eyot_ai.Prelude.{
  ℕ, ◌+◌, ◌*◌, ◌<◌, String, ◌≡◌, ◌⊎◌, inl, inr, refl, ap, sym, subst, ◌∙◌, true, Option, none, some,
  List, [], ◌∷◌, ◌++◌, In, In-filter, arith, eq_refl, Bool-cases, filter, Option-cases,
}
use eyot_ai.Audit.{Event}
use eyot_ai.Harness.State.{InstanceLoopState, Harness, lookup}
use eyot_ai.Harness.Breakers.{
  Reason, tripped_event, stopped_event, kill_event, check_instance, emit_plain,
}
use eyot_ai.Harness.Breakers.Trips.{
  trip_events, continuation_keeps_none, Checked, check_instance-Checked,
}
use eyot_ai.Harness.Supervisor.{is_running_row}
use eyot_ai.Harness.IdleCheck.{
  continuation_event, inject_if_stale, after_check, idle_check_row, idle_check_rows,
  idle_check_handler, overdue,
}
use eyot_ai.Harness.IdleCheck.Injection.{unregistered_injects}

-- what a step of the loop writes, where an instance has no entry: more events
abbrev Grows : String → Harness → Harness → Type 0
Grows k h h' =
    ((more : List Event) × (h'.events ≡ h.events ++ more))
    × (lookup h.registry k ≡ none → lookup h'.registry k ≡ none)

Grows-refl : (k : String) (h : Harness) → Grows k h h
Grows-refl k h = (([], sym (append-nil h.events)), λ e. e)

Grows-trans : (k : String) (a b c : Harness) → Grows k a b → Grows k b c → Grows k a c
Grows-trans k a b c ((m, e), p) ((n, f), q) =
    ((m ++ n, f ∙ ap (λ l. l ++ n) e ∙ append_assoc a.events m n), λ h. q (p h))

inject_if_stale-Grows :
    (k : String) (now : ℕ) (s : InstanceLoopState) (h : Harness)
    → Grows k h (inject_if_stale now s h)
unfolding inject_if_stale emit_plain
inject_if_stale-Grows k now s h = elim (Option-cases s.last_checkpoint_at) [
  | inl never ↦ rw (never, inject_if_stale) (Grows-refl k h)
  | inr (t, last) ↦ elim (Bool-cases (overdue now t s.idle_timeout_seconds)) [
    | inl late ↦
        rw (last, late, inject_if_stale)
          ((_, refl), continuation_keeps_none now s.instance_id k h.registry)
    | inr fresh ↦ rw (last, fresh, inject_if_stale) (Grows-refl k h)
  ]
]

trip_events-append :
    (k : String) (why : Reason) (l : List Event) → trip_events k why l ≡ l ++ trip_events k why []
trip_events-append k why l =
    append_assoc (l ++ tripped_event k why ∷ []) (stopped_event k why ∷ []) (kill_event k why ∷ [])
    ∙ append_assoc l (tripped_event k why ∷ []) (stopped_event k why ∷ kill_event k why ∷ [])

after_check-Grows :
    (k j : String) (now : ℕ) (s : InstanceLoopState) (h : Harness) (r : Option Reason × Harness)
    → Checked j h r
    → Grows k h (after_check now s r)
after_check-Grows k j now s h (none, h') (inl (_, e)) =
    subst (λ x. Grows k h (inject_if_stale now s x)) (sym e) (inject_if_stale-Grows k now s h)
after_check-Grows k j now s h (some why, h') (inl (e, _)) = cc
after_check-Grows k j now s h (none, h') (inr x) = cc
after_check-Grows k j now s h (some w, h') (inr (why, _, (events, _, entries))) =
    ((_, events ∙ trip_events-append j why h.events), λ gone. entries k ∙ ground (arith, gone))

row-Grows :
    (k : String) (now : ℕ) (s : InstanceLoopState) (h : Harness)
    → Grows k h (idle_check_row now s h)
unfolding idle_check_row
row-Grows k now s h =
    after_check-Grows k s.instance_id now s h (check_instance now s.instance_id h)
      (check_instance-Checked now s.instance_id h)

rows-Grows :
    (k : String) (now : ℕ) (l : List InstanceLoopState) (h : Harness)
    → Grows k h (idle_check_rows now l h)
unfolding idle_check_rows
rows-Grows k now [] h = Grows-refl k h
rows-Grows k now (s ∷ l) h =
    Grows-trans k h (idle_check_row now s h) (idle_check_rows now l (idle_check_row now s h))
      (row-Grows k now s h) (rows-Grows k now l (idle_check_row now s h))

In-append : {A : Type 0} (x : A) (l m : List A) → In x l ⊎ In x m → In x (l ++ m)
In-append x [] m (inl h) = elim h [ ]
In-append x [] m (inr h) = h
In-append x (y ∷ l) m (inl (inl e)) = inl e
In-append x (y ∷ l) m (inl (inr h)) = inr (In-append x l m (inl h))
In-append x (y ∷ l) m (inr h) = inr (In-append x l m (inr h))

-- the log has more, and the event among it
abbrev pub Adds : Event → List Event → List Event → Type 0
Adds e old new = (more : List Event) × (new ≡ old ++ more) × In e more

module _ (now t : ℕ) (s : InstanceLoopState) (last : s.last_checkpoint_at ≡ some t)
    (late : t + s.idle_timeout_seconds * 1000000 < now) where
  rows_injected :
      (l : List InstanceLoopState) (h : Harness)
      → In s l
      → lookup h.registry s.instance_id ≡ none
      → Adds (continuation_event now t s) h.events (idle_check_rows now l h).events
  unfolding idle_check_rows
  rows_injected [] h m gone = elim m [ ]
  rows_injected (x ∷ l) h (inl e) gone =
      let h' = idle_check_row now x h in
      let here : h'.events ≡ h.events ++ continuation_event now t s ∷ [] =
        subst (λ y. (idle_check_row now y h).events ≡ h.events ++ continuation_event now t s ∷ []) e
          (unregistered_injects now t s h gone last late) in
      let (more, f) = (rows-Grows s.instance_id now l h').0 in
      (
        continuation_event now t s ∷ more,
        f ∙ ap (λ z. z ++ more) here ∙ append_assoc h.events (continuation_event now t s ∷ []) more,
        inl refl,
      )
  rows_injected (x ∷ l) h (inr m) gone =
      let h' = idle_check_row now x h in
      let ((before, e), kept) = row-Grows s.instance_id now x h in
      let (more, f, found) = rows_injected l h' m (kept gone) in
      (
        before ++ more,
        f ∙ ap (λ z. z ++ more) e ∙ append_assoc h.events before more,
        In-append _ before more (inr found),
      )

-- A breaker check that stops an instance leaves every loop-state row as it was, a running one too. So
-- where a running row `s` of the stopped instance has a checkpoint time that is overdue later on, the
-- idle check on the state that the trip left, whatever other rows it goes through, adds a
-- continuation of `s` behind the trip's three events.
pub stopped_loop_injected :
    (now later t : ℕ) (why : Reason) (s : InstanceLoopState) (h : Harness)
    → In s h.states
    → is_running_row s ≡ true
    → (check_instance now s.instance_id h).0 ≡ some why
    → s.last_checkpoint_at ≡ some t
    → t + s.idle_timeout_seconds * 1000000 < later
    → let stopped = (check_instance now s.instance_id h).1 in
      (stopped.states ≡ h.states)
      × (stopped.events ≡ trip_events s.instance_id why h.events)
      × Adds
          (continuation_event later t s)
          stopped.events
          (idle_check_handler true later stopped).1.events
unfolding idle_check_handler
stopped_loop_injected now later t why s h row run tripped last late =
    let stopped = (check_instance now s.instance_id h).1 in
    elim (check_instance-Checked now s.instance_id h) [
      | inl e ↦ cc
      | inr (w, reason, (events, states, entries)) ↦
          let same : w ≡ why = cc (reason, tripped) in
          (
            states,
            events ∙ ap (λ x. trip_events s.instance_id x h.events) same,
            rows_injected later t s last late (filter is_running_row stopped.states) stopped
                (subst (λ l. In s (filter is_running_row l)) (sym states)
                  ((In-filter is_running_row h.states s).1 (row, run)))
                (entries s.instance_id ∙ rw eq_refl),
          )
    ]
