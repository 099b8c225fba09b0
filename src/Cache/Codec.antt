-- ===== src/Cache/Codec.antt =====
-- cache/codec.go: the binary format of a cached result set.
pub mod Types
pub mod Varint
pub mod Write
pub mod Read
pub mod RoundTrip
pub mod Prefix
pub mod Limits
