-- ===== src/Topology.antt =====
-- Passages between memberships (eyot-backend/app/core/passages.py, core/topology.py,
-- models/workspace.py).
pub mod Passages
pub mod Acyclic
mod Examples
