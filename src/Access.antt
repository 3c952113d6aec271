-- ===== src/Access.antt =====
-- Who may do what, and who sees what: contracts and their atoms, and the organization scope
-- (eyot-backend/app/core/permissions.py, core/org_scope.py, core/scope_guard.py).
pub mod Tables
pub mod Permissions
pub mod Scope
pub mod CurrentOrg
mod Examples
