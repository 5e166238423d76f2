-- ===== src/Auth.antt =====
-- internal/auth/service.go over internal/repository/postgres/identity.go and
-- internal/security/password.go: administrators and their sessions.
pub mod Password
pub mod Hashes
pub mod Accounts
pub mod Service
pub mod Sessions
pub mod Outcomes
pub mod Changed
