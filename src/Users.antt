-- ===== src/Users.antt =====
-- The user module: the accounts, their profiles, locks, secrets and deletion.
pub mod State
pub mod RoleList
pub mod Profile
pub mod Account
pub mod Rows
pub mod Lifecycle
pub mod Sound
pub mod Authority
pub mod Controller
mod Tests
