-- ===== src/Power.antt =====
-- The closed loops of src/common/power_control.c and src/common/ta_control.c, which set the power
-- of the phone, the attenuation of the base station and the timing advance of a channel.
-- `Types` holds the structs of include/osmo-bts/power_control.h and lchan.h.
pub mod Types
pub mod Filter
pub mod Loop
pub mod Advance
pub mod Average
pub mod Bounds
pub mod Interval
pub mod TaBounds
pub mod MsBounds
mod Tests
