-- ===== src/Cache.antt =====
-- The cache plugin, cache/: serialization, the in-memory store, singleflight and the plugin hooks.
pub mod Codec
pub mod Store
pub mod Options
pub mod Plugin
pub mod Source
pub mod Invalidate
pub mod Redis
