-- ===== src/Bind.antt =====
-- Named and positional binding, bind.go.
pub mod Parser
pub mod Rebind
pub mod Lexer
pub mod Rounds
pub mod Parens
pub mod Passes
pub mod Rewrite
pub mod Placed
pub mod Arguments
pub mod Named
pub mod Many
pub mod Stands
pub mod Groups
pub mod Spans
pub mod Marks
pub mod Reading
pub mod Counted
pub mod Lookups
pub mod Safe
pub mod Single
pub mod Rows
pub mod Repeats
