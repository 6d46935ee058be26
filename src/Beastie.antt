-- ===== src/Beastie.antt =====
-- The capture program, beastie/.
pub mod PcapWriter
pub mod State
pub mod Capture
pub mod Cli
pub mod Log
