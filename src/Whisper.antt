-- ===== src/Whisper.antt =====
-- The package whisper: Graphite's database files.
pub mod Bytes
pub mod Mod
pub mod File
pub mod Retention
pub mod RetentionDef
pub mod Archive
pub mod Point
pub mod Header
pub mod Update
pub mod UpdateMany
mod Tests
pub mod Fetch
