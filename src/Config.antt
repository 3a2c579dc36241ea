-- ===== src/Config.antt =====
-- internal/config/config.go: the configuration from the environment.
pub mod Env
pub mod Load
pub mod Passed
pub mod Checked
mod Samples
