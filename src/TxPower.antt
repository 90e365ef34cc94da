-- ===== src/TxPower.antt =====
-- The transmit power and its ramping, src/common/tx_power.c: how the power of a transceiver is
-- computed from gains and reductions, and how it is brought to a target step by step.
pub mod Types
pub mod Levels
pub mod Ramp
pub mod Progress
pub mod Start
mod Tests
