-- ===== src/Inject.antt =====
-- The inject queue (eyot-backend/app/core/inject_queue.py, models/inject_queue.py) and the rules on
-- its short texts (schemas/internal.py).
pub mod Tldr
pub mod Rows
pub mod Queue
mod Examples
