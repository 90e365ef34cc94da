-- ===== src/Dtx.antt =====
-- Discontinuous transmission towards phones with AMR: the machine of src/common/dtx_dl_amr_fsm.c and
-- the functions of src/common/msg_utils.c that drive it and keep the last SID frame.
pub mod Machine
pub mod Payload
pub mod Step
pub mod Repeat
pub mod Safety
pub mod Steps
pub mod Spacing
pub mod Apart
pub mod Talk
mod Tests
