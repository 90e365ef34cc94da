-- ===== src/Sched.antt =====
-- The scheduler of the transceiver back end: the multiframe tables of src/common/scheduler_mframe.c
-- and the search for lost bursts of src/common/scheduler.c.
pub mod Types
pub mod Bcch
pub mod BcchCbch
pub mod Sdcch
pub mod SdcchCbch
pub mod Tchf01
pub mod Tchf23
pub mod Tchf45
pub mod Tchf67
pub mod Tchh03
pub mod Tchh47
pub mod Pdch
pub mod Mframe
pub mod Order
pub mod Alignment
pub mod Loss
pub mod Filling
pub mod Gap
pub mod Recovery
mod Tests
