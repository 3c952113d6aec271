-- ===== src/Harness.antt =====
-- The harness supervisor (eyot-backend/app/core/harness_supervisor.py, harness_handlers.py,
-- harness_breakers.py, continuation.py, models/loop_state.py).
pub mod State
pub mod Breakers
pub mod Handlers
pub mod Supervisor
pub mod IdleCheck
mod Examples
