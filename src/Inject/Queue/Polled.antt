-- ===== src/Inject/Queue/Polled.antt =====
-- The row of an enqueue in the polls behind it (core/inject_queue.py).
use eyot_ai.Prelude.{ℕ, List, take, map}
use eyot_ai.Inject.Rows.{delivered, Row}
use eyot_ai.Inject.Queue.{with_status, sort_rows}

-- what a poll returns, by the due rows
polled : ℕ → ℕ → List Row → List Row
polled now limit due = map (with_status now delivered) (take limit (sort_rows due))
