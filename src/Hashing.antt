-- ===== src/Hashing.antt =====
-- The package hashing: nodes, the two ring hashes, and the jump hash.
pub mod Node
pub mod Ring
pub mod Fnv1a
pub mod Jump
mod Tests
