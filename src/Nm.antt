-- ===== src/Nm.antt =====
-- The managed objects of the network management (3GPP TS 52.021): site manager, station, baseband
-- transceiver, radio carrier, radio channel and those of the packet service, each a state machine of src/common/nm_*_fsm.c over
-- the state that oml_mo_state_chg of src/common/oml.c keeps. `Types` holds the common data,
-- `Machine` the interface between a machine's tables and handlers and the calls of it.
pub mod Types
pub mod Machine
pub mod SiteMgr
pub mod Bts
pub mod BbTransc
pub mod Rcarrier
pub mod Channel
pub mod GprsNse
pub mod GprsCell
pub mod GprsNsvc
pub mod GprsObjects
pub mod Objects
pub mod Runs
pub mod Dependency
mod Tests
