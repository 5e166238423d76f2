-- ===== src/Config.antt =====
-- internal/config/config.go: the configuration of the programs, from the environment.
pub mod Variables
pub mod Load
pub mod Started
