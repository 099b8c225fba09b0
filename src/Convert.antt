-- ===== src/Convert.antt =====
-- The conversions of convert.go, from the driver's cells to the types of their targets.
pub mod Cells
pub mod Numbers
pub mod Assign
pub mod Exact
pub mod Targets
pub mod Sets
pub mod Typed
