-- ===== src/Access.antt =====
-- Who may do what: roles, permissions and the guards of src/common/guards.
pub mod Roles
pub mod Guards
mod Tests
