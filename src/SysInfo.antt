-- ===== src/SysInfo.antt =====
-- The choice of the system information that a block of the BCCH carries, bts_sysinfo_get of
-- src/common/sysinfo.c.
pub mod Choice
pub mod Turns
pub mod Mapping
pub mod Soundness
mod Tests
