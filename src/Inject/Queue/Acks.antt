-- ===== src/Inject/Queue/Acks.antt =====
-- Acknowledgements and failures (core/inject_queue.py, `ack_injects`, `mark_inject_failed`).
use mathlib.Core.List.{append-nil}
use eyot_ai.Prelude.{
  ℕ, String, ◌≡◌, refl, ap, ◌∙◌, Bool, false, some, List, [], ◌∷◌, ◌++◌, arith, update, count, ◌&&◌,
  ◌==◌, map, filter, if◌then◌else◌, find, eq_iff,
}
use eyot_ai.Json.{end}
use eyot_ai.Audit.{Event}
use eyot_ai.Inject.Rows.{acked, is_acked_mode, Row, Store, row_event}
use eyot_ai.Inject.Queue.{
  is_ackable, ack_row, applied_events, ack_injects, is_live, fail_row, mark_inject_failed,
}

-- the acknowledged rows whose mode is reported as applied
abbrev pub is_reported : List String → Row → Bool
is_reported queue_ids r = is_ackable queue_ids r && is_acked_mode r.delivery_mode

applied_events-filter :
    (queue_ids : List String) (l : List Row)
    → applied_events queue_ids l
      ≡ map (λ r. row_event "harness.inject_applied" r end) (filter (is_reported queue_ids) l)
unfolding applied_events
applied_events-filter queue_ids [] = refl
applied_events-filter queue_ids (r ∷ l) = ground (arith, applied_events-filter queue_ids l)

-- Each row of a table, and what an acknowledgement of the ids at the time makes of it.
abbrev pub Acked : ℕ → List String → List Row → List Row → Type 0
Acked now queue_ids [] [] = Unit
Acked now queue_ids [] (x ∷ new) = ⊥
Acked now queue_ids (r ∷ old) [] = ⊥
Acked now queue_ids (r ∷ old) (x ∷ new) =
    (x ≡ (
      if is_ackable queue_ids r
      then record r { status = acked; acked_at = some now; updated_at = now }
      else r))
    × Acked now queue_ids old new

update-Acked :
    (now : ℕ) (queue_ids : List String) (l : List Row)
    → Acked now queue_ids l (update (is_ackable queue_ids) (ack_row now) l)
update-Acked now queue_ids [] = tt
update-Acked now queue_ids (r ∷ l) = (refl, update-Acked now queue_ids l)

none_ackable :
    (now : ℕ) (queue_ids : List String) (l : List Row)
    → count (is_ackable queue_ids) (update (is_ackable queue_ids) (ack_row now) l) ≡ 0
none_ackable now queue_ids [] = refl
none_ackable now queue_ids (r ∷ l) = ground (arith, none_ackable now queue_ids l)

none_applied :
    (now : ℕ) (queue_ids : List String) (l : List Row)
    → applied_events queue_ids (update (is_ackable queue_ids) (ack_row now) l) ≡ []
unfolding applied_events
none_applied now queue_ids [] = refl
none_applied now queue_ids (r ∷ l) = ground (arith, none_applied now queue_ids l)

no_events :
    (now later : ℕ) (queue_ids : List String) (l : List Row) (events : List Event)
    → events ++ applied_events queue_ids (update (is_ackable queue_ids) (ack_row now) l) ≡ events
no_events now later queue_ids l events =
    ap (λ x. events ++ x) (none_applied now queue_ids l) ∙ append-nil events

-- An `ack_injects` returns the number of live delivered rows among the ids, makes each of them acked
-- with the time in `acked_at` and `updated_at` and leaves every other row as it was, and writes one
-- harness.inject_applied event for each of them whose mode is soft_inject or wake, in the order of the
-- rows. The same call again, at any time, returns 0 and writes no event.
pub ack_injects-once :
    (now later : ℕ) (q : String) (queue_ids : List String) (s : Store)
    → let (acks, s') = ack_injects now (q ∷ queue_ids) s in
      (acks ≡ count (is_ackable (q ∷ queue_ids)) s.rows)
      × Acked now (q ∷ queue_ids) s.rows s'.rows
      × (s'.events
          ≡ s.events
            ++ map
                (λ r. row_event "harness.inject_applied" r end)
                (filter (is_reported (q ∷ queue_ids)) s.rows))
      × ((ack_injects later (q ∷ queue_ids) s').0 ≡ 0)
      × ((ack_injects later (q ∷ queue_ids) s').1.events ≡ s'.events)
unfolding ack_injects
ack_injects-once now later q queue_ids s = (
  refl,
  update-Acked now (q ∷ queue_ids) s.rows,
  ap (λ l. s.events ++ l) (applied_events-filter (q ∷ queue_ids) s.rows),
  none_ackable now (q ∷ queue_ids) s.rows,
  no_events now later (q ∷ queue_ids) s.rows (s.events ++ applied_events (q ∷ queue_ids) s.rows),
)

find-failed_ne :
    (now : ℕ) (q j message : String) (l : List Row)
    → (q == j) ≡ false
    → find (is_live j) (update (is_live q) (fail_row now message) l) ≡ find (is_live j) l
find-failed_ne now q j message [] ne = refl
find-failed_ne now q j message (x ∷ l) ne =
    ground (arith, find-failed_ne now q j message l, eq_iff x.id q, eq_iff x.id j, eq_iff q j)

find-failed_self :
    (now : ℕ) (q message : String) (r : Row) (l : List Row)
    → find (is_live q) l ≡ some r
    → find (is_live q) (update (is_live q) (fail_row now message) l) ≡ some (fail_row now message r)
find-failed_self now q message r [] e = cc
find-failed_self now q message r (x ∷ l) e = ground (arith, find-failed_self now q message r l)

-- `mark_inject_failed` on the id `q` of a live row `r` makes it the failed row with the message,
-- whatever its status was, acked and expired included; the live row of every other id stays as it
-- was. Where no live row has the id, the other ids' rows stay too.
pub mark_inject_failed_any :
    (now : ℕ) (q message : String) (s : Store)
    → let s' = mark_inject_failed now q message s in
      ((r : Row)
        → find (is_live q) s.rows ≡ some r
        → find (is_live q) s'.rows ≡ some (fail_row now message r))
      × ((j : String) → (q == j) ≡ false → find (is_live j) s'.rows ≡ find (is_live j) s.rows)
unfolding mark_inject_failed
mark_inject_failed_any now q message s =
    (λ r. find-failed_self now q message r s.rows, λ j. find-failed_ne now q j message s.rows)
