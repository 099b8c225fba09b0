-- ===== src/Meta.antt =====
-- Types and values as package reflect shows them, and the metadata of struct types, meta.go.
pub mod Types
pub mod Values
pub mod Collect
pub mod Lookup
pub mod Typing
pub mod Paths
pub mod Names
pub mod Safe
pub mod Tags
