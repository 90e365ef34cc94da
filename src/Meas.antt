-- ===== src/Meas.antt =====
-- The uplink measurements of a channel: src/common/measurement.c, from the samples of the
-- physical layer to the results of a measurement period, and what a SACCH block sets off.
-- `Types` holds the structs of include/osmo-bts/lchan.h.
pub mod Types
pub mod Frames
pub mod Compute
pub mod Periods
pub mod Totals
pub mod Means
pub mod Reports
pub mod Repetition
pub mod Result
pub mod Sacch
pub mod Handling
mod Tests
