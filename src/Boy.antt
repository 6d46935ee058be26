-- ===== src/Boy.antt =====
-- The program that configures VPP, boy/.
pub mod Log
pub mod Cli
pub mod Vpp
pub mod Client
pub mod Collectors
pub mod Hardware
pub mod Span
pub mod Memif
pub mod Show
pub mod Phy
pub mod Version
pub mod Main
