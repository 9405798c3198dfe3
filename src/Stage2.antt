-- ===== src/Stage2.antt =====
-- The earlier second stage (RedFox32/Old/Source/BootloaderStage2) and the earlier file system.
pub mod Gates
pub mod Calls
pub mod Screen
pub mod Fdc
pub mod SectorMap
