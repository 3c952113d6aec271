-- ===== src/Inject/Examples.antt =====
-- The queue at concrete tables: tests, and the theorems where their hypotheses hold.
use mathlib.Core.List.{Perm}
use eyot_ai.Prelude.{
  ◌≤◌, String, ◌≡◌, ◌↔◌, ◌⊎◌, refl, true, false, none, some, List, [], ◌∷◌, ◌++◌, length, filter,
  find, map, contains, All, ◌==◌,
}
use eyot_ai.Json.{end, obj, field, text}
use eyot_ai.Inject.Tldr.{TldrError, is_too_long, has_tldr, compute_prose_length}
use eyot_ai.Inject.Rows.{
  delivered, acked, collab_inject, wake, Row, Store, Request, new_row, row_event,
}
use eyot_ai.Inject.Queue.{
  with_status, is_due, is_live, fail_row, enqueue_inject, poll_pending_injects, ack_injects,
  mark_inject_failed, sweep_expired, due_rows, sort_rows, insert_row,
}
use eyot_ai.Inject.Queue.Lifecycle.{
  Call, enqueue, poll, ack, fail, perform_all, Evolves, perform_all-Evolves,
}
use eyot_ai.Inject.Queue.Delivery.{IsSorted, poll-picks_oldest}
use eyot_ai.Inject.Queue.Redelivery.{poll-no_redelivery}
use eyot_ai.Inject.Queue.Acks.{Acked, ack_injects-once, mark_inject_failed_any}
use eyot_ai.Inject.Queue.Sweeps.{sweep_expired-poll}
use eyot_ai.Inject.Queue.Requests.{enqueue_inject-none_iff}

abbrev request : String → Request
request id = record {
  id = id;
  instance_id = "i";
  kind = collab_inject;
  delivery_mode = wake;
  payload = field "text" (text "hello") end;
  tldr = none;
}

-- two pending rows, the younger one first
abbrev two_rows : Store
two_rows = record { rows = new_row 20 (request "b") ∷ new_row 10 (request "a") ∷ []; events = [] }

abbrev first_a : Row
first_a = new_row 10 (request "a")

poll_oldest : (poll_pending_injects 30 "i" 1 two_rows).0 ≡ with_status 30 delivered first_a ∷ []
unfolding poll_pending_injects due_rows sort_rows insert_row
poll_oldest = refl

poll-picks_oldest_example :
    (picked : List Row) × (rest : List Row) × ((poll_pending_injects 30 "i" 1 two_rows).0
      ≡ map (with_status 30 delivered) picked)
    × (Perm (picked ++ rest) (filter (is_due 30 "i") two_rows.rows))
    × IsSorted (picked ++ rest)
    × (length picked ≤ 1)
    × ((length picked ≡ 1) ⊎ (rest ≡ []))
poll-picks_oldest_example = poll-picks_oldest 30 "i" 1 two_rows

poll-no_redelivery_example :
    All
      (λ r. contains ("a" ∷ []) r.id ≡ false)
      (poll_pending_injects 40 "i" 5 (
        perform_all
          (enqueue 32 (request "c") ∷ ack 35 ("a" ∷ []) ∷ [])
          (poll_pending_injects 30 "i" 1 two_rows).1)).0
unfolding poll_pending_injects due_rows sort_rows insert_row
poll-no_redelivery_example =
    poll-no_redelivery 30 40 "i" 1 5 (enqueue 32 (request "c") ∷ ack 35 ("a" ∷ []) ∷ []) two_rows
      (refl, (tt, tt))

abbrev a_life : List Call
a_life = enqueue 50 (request "c") ∷ poll 60 "i" 9 ∷ ack 70 ("a" ∷ []) ∷ fail 80 "b" "lost" ∷ []

perform_all-Evolves_example : Evolves two_rows.rows (perform_all a_life two_rows).rows
perform_all-Evolves_example = perform_all-Evolves a_life two_rows

-- a delivered row and an acknowledged one
abbrev handed_out : Store
handed_out = record {
  rows = with_status 30 delivered first_a ∷ with_status 30 acked (new_row 20 (request "b")) ∷ [];
  events = [];
}

ack_injects-once_example :
    let (acks, s') = ack_injects 40 ("a" ∷ "b" ∷ []) handed_out in
    (acks ≡ 1)
    × Acked 40 ("a" ∷ "b" ∷ []) handed_out.rows s'.rows
    × (s'.events ≡ row_event "harness.inject_applied" (with_status 30 delivered first_a) end ∷ [])
    × ((ack_injects 50 ("a" ∷ "b" ∷ []) s').0 ≡ 0)
    × ((ack_injects 50 ("a" ∷ "b" ∷ []) s').1.events ≡ s'.events)
ack_injects-once_example = ack_injects-once 40 50 "a" ("b" ∷ []) handed_out

-- The acknowledged row is failed.
mark_inject_failed_any_example :
    let s' = mark_inject_failed 50 "b" "lost" handed_out in
    ((r : Row)
      → find (is_live "b") handed_out.rows ≡ some r
      → find (is_live "b") s'.rows ≡ some (fail_row 50 "lost" r))
    × ((j : String)
        → ("b" == j) ≡ false
        → find (is_live j) s'.rows ≡ find (is_live j) handed_out.rows)
mark_inject_failed_any_example = mark_inject_failed_any 50 "b" "lost" handed_out

sweep_expired-poll_example :
    let (n, s') = sweep_expired 3600000015 two_rows in
    (n ≡ 1)
    × ((sweep_expired 3600000015 s').0 ≡ 0)
    × ((poll_pending_injects 3600000015 "i" 5 s').0
        ≡ (poll_pending_injects 3600000015 "i" 5 two_rows).0)
sweep_expired-poll_example = sweep_expired-poll 3600000015 "i" 5 two_rows

enqueue_inject-none_iff_example :
    (((enqueue_inject 30 (request "c") two_rows).0 ≡ none) ↔ (
      (is_too_long none ≡ false)
      × ((compute_prose_length (obj (field "text" (text "hello") end)) ≤ 240)
          ⊎ (has_tldr none ≡ true))))
    × ((e : TldrError)
        → (enqueue_inject 30 (request "c") two_rows).0 ≡ some e
        → (enqueue_inject 30 (request "c") two_rows).1 ≡ two_rows)
enqueue_inject-none_iff_example = enqueue_inject-none_iff 30 (request "c") two_rows
