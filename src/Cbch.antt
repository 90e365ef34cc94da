-- ===== src/Cbch.antt =====
-- The cell broadcast channel, src/common/cbch.c: the queue of messages, the default message and the
-- blocks that the basic and the extended channel send.
pub mod Types
pub mod Block
pub mod Command
pub mod Memory
pub mod Ownership
pub mod Phone
pub mod Delivery
pub mod Rounds
pub mod Fifo
mod Tests
