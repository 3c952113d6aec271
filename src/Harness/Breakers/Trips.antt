-- ===== src/Harness/Breakers/Trips.antt =====
-- What a check of one instance leaves behind (core/harness_breakers.py, core/harness_supervisor.py).
use eyot_ai.Prelude.{
  ◌⊎◌, inl, inr, subst, sym, ℕ, String, ◌≡◌, refl, Option, none, some, List, [], ◌∷◌, ◌++◌, arith,
  ◌==◌, if◌then◌else◌, false, Option-cases, ne→false, ◌∙◌,
}
use eyot_ai.Audit.{Event}
use eyot_ai.Harness.State.{
  InstanceLoopMetrics, Registry, lookup, pop, Harness, lookup-pop, lookup-store,
}
use eyot_ai.Harness.Breakers.{
  Reason, BreakerConfig, tripped_event, stopped_event, kill_event, trip_breaker, check_breakers,
  check_instance, drop_on_trip, handle_continuation_injected, load_breaker_config,
}

-- the three events of a trip, behind those that were there
abbrev pub trip_events : String → Reason → List Event → List Event
trip_events k why l =
    ((l ++ tripped_event k why ∷ []) ++ stopped_event k why ∷ []) ++ kill_event k why ∷ []

-- A trip writes its three events, drops the entry and keeps the rows.
abbrev pub IsTrip : String → Reason → Harness → Harness → Type 0
IsTrip k why h h' =
    (h'.events ≡ trip_events k why h.events)
    × (h'.states ≡ h.states)
    × ((j : String) → lookup h'.registry j ≡ (if k == j then none else lookup h.registry j))

lookup-pop_twice :
    (r : Registry) (k j : String)
    → lookup (pop (pop r k) k) j ≡ (if k == j then none else lookup r j)
lookup-pop_twice r k j = ground (arith, lookup-pop (pop r k) k j, lookup-pop r k j)

drop_on_trip-IsTrip :
    (now : ℕ) (k : String) (why : Reason) (h : Harness)
    → IsTrip k why h (drop_on_trip k (some why, trip_breaker now k why h)).1
unfolding trip_breaker
drop_on_trip-IsTrip now k why h = (refl, refl, lookup-pop_twice h.registry k)

module _ (now : ℕ) (k : String) (m : InstanceLoopMetrics) (c : BreakerConfig) (h : Harness) where
  -- A check writes what `trip_breaker` writes for the reason that it reports, and nothing else.
  pub check_breakers_tripped :
      (why : Reason)
      → (check_breakers now k m c h).0 ≡ some why
      → (check_breakers now k m c h).1 ≡ trip_breaker now k why h
  unfolding check_breakers
  check_breakers_tripped why e = ground arith

  pub check_breakers_clear :
      (check_breakers now k m c h).0 ≡ none → (check_breakers now k m c h).1 ≡ h
  unfolding check_breakers
  check_breakers_clear e = ground arith

-- The two outcomes of a check: nothing, or one trip.
abbrev pub Checked : String → Harness → Option Reason × Harness → Type 0
Checked k h r =
    ((r.0 ≡ none) × (r.1 ≡ h)) ⊎ ((why : Reason) × (r.0 ≡ some why) × IsTrip k why h r.1)

drop_on_trip-Checked :
    (now : ℕ) (k : String) (h : Harness) (r : Option Reason × Harness)
    → (r.0 ≡ none → r.1 ≡ h)
    → ((why : Reason) → r.0 ≡ some why → r.1 ≡ trip_breaker now k why h)
    → Checked k h (drop_on_trip k r)
drop_on_trip-Checked now k h (none, h') clear trip = inl (refl, clear refl)
drop_on_trip-Checked now k h (some why, h') clear trip = inr (
  why,
  refl,
  subst (λ x. IsTrip k why h (drop_on_trip k (some why, x)).1) (sym (trip why refl))
      (drop_on_trip-IsTrip now k why h),
)

-- A check of an instance either reports nothing and changes nothing, or reports a reason, appends
-- the events breaker_tripped, loop_stopped and control_sent(kill) of that instance and reason, drops
-- the instance's registry entry and no other, and leaves every loop-state row as it was.
pub check_instance-Checked :
    (now : ℕ) (k : String) (h : Harness) → Checked k h (check_instance now k h)
unfolding check_instance
check_instance-Checked now k h =
    elim (lookup h.registry k)
      as (λ found. Checked k h (elim found [
        | none ↦ (none, h)
        | some m ↦ elim (load_breaker_config k h.states) [
          | none ↦ (none, h)
          | some config ↦ drop_on_trip k (check_breakers now k m config h)
        ]
      ])) [
        | none ↦ inl (refl, refl)
        | some m ↦
            elim (load_breaker_config k h.states)
              as (λ loaded. Checked k h (elim loaded [
                | none ↦ (none, h)
                | some config ↦ drop_on_trip k (check_breakers now k m config h)
              ])) [
                | none ↦ inl (refl, refl)
                | some c ↦
                    drop_on_trip-Checked now k h (check_breakers now k m c h)
                      (check_breakers_clear now k m c h) (check_breakers_tripped now k m c h)
              ]
      ]

first-drop_on_trip : (k : String) (r : Option Reason × Harness) → (drop_on_trip k r).0 ≡ r.0
first-drop_on_trip k (none, h) = refl
first-drop_on_trip k (some why, h) = refl

-- The reason of a check is that of `check_breakers`, for an instance with an entry and a row.
module _ (now : ℕ) (k : String) (m : InstanceLoopMetrics) (c : BreakerConfig) (h : Harness) where
  pub check_instance_of_found :
      lookup h.registry k ≡ some m
      → load_breaker_config k h.states ≡ some c
      → (check_instance now k h).0 ≡ (check_breakers now k m c h).0
  unfolding check_instance
  check_instance_of_found e f =
      rw (e, check_instance)
        (rw (f, check_instance) (first-drop_on_trip k (check_breakers now k m c h)))

-- A continuation gives no instance an entry.
pub continuation_keeps_none :
    (now : ℕ) (k j : String) (r : Registry)
    → lookup r j ≡ none
    → lookup (handle_continuation_injected now k r) j ≡ none
unfolding handle_continuation_injected
continuation_keeps_none now k j r gone = elim (Option-cases (lookup r k)) [
  | inl missing ↦ rw (missing, handle_continuation_injected) gone
  | inr (m, found) ↦
      let other : (k == j) ≡ false = ne→false k j (λ e. cc) in
      rw (found, handle_continuation_injected) (lookup-store r k j _ ∙ rw other gone)
]
