-- ===== src/Harness/Handlers.antt =====
-- core/harness_handlers.py and `_on_harness_event`. The rows that `handle_checkpoint_writes` adds to
-- other tables are not modelled.
pub mod Runaway
use eyot_ai.Prelude.{ℕ, ◌+◌, String, Option, none, some, [], ◌∷◌, ◌++◌, ◌==◌, if◌then◌else◌}
use eyot_ai.Json.{Value, Fields, get}
use eyot_ai.Audit.{Event, harness_checkpoint}
use eyot_ai.Harness.State.{InstanceLoopMetrics, no_metrics, Registry, lookup, store, Harness}
use eyot_ai.Harness.Breakers.{on_plain_event, check_instance}

-- `setdefault(k, InstanceLoopMetrics())`
pub setdefault : Registry → String → InstanceLoopMetrics
setdefault r k = elim (lookup r k) [ none ↦ no_metrics | some m ↦ m ]

-- `int` is Python's: `none` is its exception. Token estimates are counts: a
-- negative one is left out.
module _ (int : Value → Option ℕ) where
  -- `int(payload.get("token_estimate", 0))`
  unfoldable pub payload_tokens : Fields → Option ℕ
  payload_tokens payload = elim (get payload "token_estimate") [ none ↦ some 0 | some v ↦ int v ]

  -- `handle_checkpoint`. The counter is written before `int` can raise, and `emit` swallows the
  -- exception.
  pub handle_checkpoint : ℕ → String → Fields → Harness → Harness
  unfolding payload_tokens setdefault
  handle_checkpoint now k payload h =
      let m = setdefault h.registry k in
      let counted = record m { continuation_count = m.continuation_count + 1 } in
      elim (payload_tokens payload) [
        | none ↦ record h { registry = store h.registry k counted }
        | some n ↦
            (check_instance now k (record h {
              registry = store h.registry k (record counted {
                token_estimate = m.token_estimate + n;
                last_checkpoint_at = some now;
              });
            })).1
      ]

  -- `emit`, with `_on_harness_event` as the handler that "harness.*" matches
  pub emit : ℕ → Event → Harness → Harness
  unfolding handle_checkpoint
  emit now e h =
      let logged = record h { events = h.events ++ e ∷ [] } in
      elim e.resource_id [
        | none ↦ logged
        | some k ↦
            if e.event_type == harness_checkpoint
            then handle_checkpoint now k e.payload logged
            else record logged { registry = on_plain_event now e logged.registry }
      ]
