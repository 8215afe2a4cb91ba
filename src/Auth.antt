-- ===== src/Auth.antt =====
-- The auth module: accounts, sessions, refresh tokens, sign-in.
pub mod State
pub mod Session
pub mod Credentials
pub mod Password
pub mod Token
pub mod Mfa
pub mod Strategy
pub mod Response
pub mod SignIn
pub mod Recovery
pub mod Controller
mod Tests
