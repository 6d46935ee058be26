-- ===== src/Common.antt =====
-- The code in common/ that both programs use.
pub mod Allocator
pub mod Strtoul
pub mod Log
pub mod VersionText
pub mod Double
pub mod Bytes
pub mod Options
pub mod Table
