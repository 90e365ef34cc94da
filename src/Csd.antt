-- ===== src/Csd.antt =====
-- Circuit switched data in RTP, src/common/csd_v110.c: the frames of the radio channel as 64 kbit/s.
pub mod Rtp
pub mod Packing
pub mod Frames
pub mod Roundtrip
mod Tests
