-- ===== src/Core.antt =====
-- The framework's core: errors.go, the plugin chain of config.go, transactions and execution flow
-- of core.go, the plugin interface of plugin.go.
pub mod Errors
pub mod Outcome
pub mod Config
pub mod Settings
pub mod Tx
pub mod Flow
