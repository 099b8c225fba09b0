-- ===== src/Log.antt =====
-- The logging plugins, log/log.go and log/rainbowlog/rainbowlog.go.
pub mod Records
pub mod Slog
pub mod Rainbowlog
pub mod Compact
pub mod Quiet
