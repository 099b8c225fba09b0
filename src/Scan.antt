-- ===== src/Scan.antt =====
-- scan.go: rows into targets.
pub mod Source
pub mod ValueRows
pub mod Target
pub mod Row
pub mod All
pub mod Values
pub mod Loop
pub mod Replay
pub mod Places
pub mod Typed
pub mod Columns
pub mod Keys
pub mod Behind
pub mod Rounds
