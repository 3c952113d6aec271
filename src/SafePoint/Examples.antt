-- ===== src/SafePoint/Examples.antt =====
-- The safe-point guard in a session: tests, and its theorems there.
use eyot_ai.Prelude.{String, ◌≡◌, refl, List, [], ◌∷◌, ◌++◌, arith}
use eyot_ai.SafePoint.{
  SafePointGuard, Call, hold, on_tool_use, on_tool_results, flush, flushed, perform, perform_all,
}
use eyot_ai.SafePoint.Delivery.{perform_all-in_order, perform_all-no_split, perform_all-releases}

abbrev fresh : SafePointGuard String
fresh = record { pending = []; outstanding_tool_batches = 0 }

-- a batch is open, and a delivery waits
abbrev in_batch : SafePointGuard String
in_batch = record { pending = "a" ∷ []; outstanding_tool_batches = 1 }

abbrev session : List (Call String)
session = hold "a" ∷ on_tool_use ∷ flush ∷ hold "b" ∷ on_tool_results ∷ flush ∷ hold "c" ∷ []

delivers_a_and_b : (perform_all session fresh).0 ≡ "a" ∷ "b" ∷ []
unfolding perform_all perform flushed
delivers_a_and_b = refl

perform_all-in_order_example :
    let (delivered, g') = perform_all session fresh in
    delivered ++ g'.pending ≡ "a" ∷ "b" ∷ "c" ∷ []
perform_all-in_order_example = perform_all-in_order session fresh

perform_all-no_split_example : (perform_all (flush ∷ hold "b" ∷ flush ∷ []) in_batch).0 ≡ []
perform_all-no_split_example =
    perform_all-no_split (flush ∷ hold "b" ∷ flush ∷ []) in_batch (omega arith)

perform_all-releases_example :
    (perform_all (flush ∷ hold "b" ∷ on_tool_results ∷ flush ∷ []) in_batch).1.pending ≡ []
perform_all-releases_example =
    perform_all-releases (flush ∷ hold "b" ∷ on_tool_results ∷ []) in_batch refl (omega arith)
