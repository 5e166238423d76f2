-- ===== src/Credential.antt =====
-- internal/credential/vault.go over internal/repository/postgres/credential.go: the encrypted
-- credentials.
pub mod Records
pub mod Vault
pub mod Contents
