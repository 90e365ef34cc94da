-- ===== src/Amr.antt =====
-- The adaptive multi-rate codec: its configuration, src/common/amr.c, and the adaptation of its mode to
-- the radio link, src/osmo-bts-trx/amr_loop.c.
pub mod Conf
pub mod Loop
pub mod Codecs
pub mod Coding
pub mod Settling
pub mod Windows
mod Tests
