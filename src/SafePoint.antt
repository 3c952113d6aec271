-- ===== src/SafePoint.antt =====
-- The safe-point guard of soft injects (eyot-backend/app/agent_runtime/safe_point.py).
pub mod Delivery
mod Examples
use eyot_ai.Prelude.{ℕ, zero, suc, ◌+◌, ◌-◌, List, [], ◌∷◌, ◌++◌}

-- `SafePointGuard`
pub record SafePointGuard {ℓ} (A : Type ℓ) : Type ℓ where
  pub pending : List A
  pub outstanding_tool_batches : ℕ

pub data Call {ℓ} (A : Type ℓ) : Type ℓ where
  hold : A → Call A
  on_tool_use on_tool_results flush : Call A

-- `flush`: the delivered items and the guard
pub flushed {ℓ} : {A : Type ℓ} → SafePointGuard A → List A × SafePointGuard A
flushed g = elim g.outstanding_tool_batches [
  | suc n ↦ ([], g)
  | zero ↦ elim g.pending [
    | [] ↦ ([], g)
    | item ∷ items ↦ (item ∷ items, record g { pending = [] })
  ]
]

-- one call: what it delivers, and the guard behind it; `max(0, n - 1)` is subtraction on ℕ
unfoldable pub perform {ℓ} : {A : Type ℓ} → Call A → SafePointGuard A → List A × SafePointGuard A
unfolding flushed
perform (hold item) g = ([], record g { pending = g.pending ++ item ∷ [] })
perform on_tool_use g = ([], record g { outstanding_tool_batches = g.outstanding_tool_batches + 1 })
perform on_tool_results g =
    ([], record g { outstanding_tool_batches = g.outstanding_tool_batches - 1 })
perform flush g = flushed g

-- a session: all that its calls deliver, in order
unfoldable pub perform_all {ℓ} :
    {A : Type ℓ} → List (Call A) → SafePointGuard A → List A × SafePointGuard A
unfolding perform
perform_all [] g = ([], g)
perform_all (c ∷ calls) g =
    let (now, g') = perform c g in let (later, g'') = perform_all calls g' in (now ++ later, g'')
