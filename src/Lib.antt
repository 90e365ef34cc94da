-- ===== src/Lib.antt =====
-- The common part of a GSM base transceiver station, src/common of the repository: how pages, group
-- call notifications, warnings, grants, broadcasts and system information reach the common channels,
-- the measurements of a channel and the loops that steer its power, timing and codec, the pauses of
-- its speech, the schedule of its bursts, and the state machines of the managed objects.
--
-- The parts and their files:
-- - Base: names of the libraries, Boolean tests, lists over native numbers, signed integers and C's
--   casts to fixed-width types.
-- - Osmo: the calls of libosmocore and libosmogsm as a record of parameters with the laws that
--   their documentation promises; Osmo/Sample is one instance.
-- - Notification: src/common/notification.c (bts_asci_notification_add, _del, _reset, _get_next and
--   the generators of NCH and FACCH messages). The state is the list of calls, the list number and
--   the counter of the current round. Notification/Cycle has the proofs.
-- - Paging: src/common/paging.c, include/osmo-bts/paging.h and rsl_rx_osmo_etws_cmd of
--   src/common/rsl.c. Paging/Types is struct paging_state with its 81 queues; Paging/Queue has
--   paging_add_identity, paging_add_macblock, paging_si_update, paging_init, paging_config and
--   paging_reset; Paging/Time is the choice of the paging group of a frame; Paging/Rest and
--   Paging/Message build the requests; Paging/Gen is paging_gen_msg; Paging/Etws stores and cuts
--   the warnings. RSL commands, the PCU and the notifications meet in one call of paging_gen_msg,
--   whose state is passed on explicitly. The other children hold the proofs.
-- - Power: src/common/power_control.c and src/common/ta_control.c. Power/Filter has do_pf_ewma,
--   do_avg_algo, calc_delta_rxlev and ctrl_interval_skip_block, Power/Loop has lchan_ms_pwr_ctrl and
--   lchan_bs_pwr_ctrl, Power/Advance has lchan_ms_ta_ctrl; Levels stands for libosmogsm.
-- - TxPower: src/common/tx_power.c. TxPower/Levels computes the levels, TxPower/Ramp is the state
--   machine of the ramp (power_ramp_timer_cb, power_trx_change_compl, power_ramp_do_step,
--   _power_ramp_start); the calls of the phy and of the callback are values of Effect.
-- - Shutdown: src/common/bts_shutdown_fsm.c, the handlers, entries, timer and tables of the shutdown
--   of a station, over the ramps of TxPower. A handler yields the state that it asks for.
-- - Cbch: src/common/cbch.c, both cell broadcast channels. Cbch/Block has the blocks (bts_cbch_get,
--   select_next_smscb, get_smscb_block) and the reset, Cbch/Command has bts_process_smscb_cmd. A message
--   carries the number of its allocation for its address, and what is freed is logged.
--   Cbch/Phone is a receiver of the blocks; the other children hold the proofs.
-- - Agch: the queue of access grants of src/common/bts.c. Agch/Reject merges immediate assignment
--   rejects, Agch/Queue has bts_agch_enqueue, bts_agch_dequeue, compact_agch_queue and the maximum
--   length, Agch/Ccch is bts_ccch_copy_msg, over paging_gen_msg and the notifications.
-- - Nm: the state machines of the managed objects, src/common/nm_bts_sm_fsm.c, nm_bts_fsm.c,
--   nm_bb_transc_fsm.c, nm_radio_carrier_fsm.c, nm_channel_fsm.c, nm_gprs_nse_fsm.c,
--   nm_gprs_cell_fsm.c and nm_gprs_nsvc_fsm.c, with oml_mo_state_chg of
--   src/common/oml.c. Nm/Machine is what the machines share and how libosmocore steps them, as a
--   relation; SiteMgr, Bts, BbTransc, Rcarrier, Channel, GprsNse, GprsCell and GprsNsvc are the
--   machines.
-- - SysInfo: bts_sysinfo_get of src/common/sysinfo.c. SysInfo/Choice has the choice of the message
--   by TC; SysInfo/Turns, Mapping and Soundness run it over the multiframes.
-- - Amr: src/common/amr.c in Amr/Conf (amr_parse_mr_conf, amr_set_mode_pref, amr_get_initial_mode,
--   amr_init_mr_conf_def) and src/osmo-bts-trx/amr_loop.c in Amr/Loop. Amr/Coding is the IE as a BSC
--   writes it; Amr/Settling and Amr/Windows follow the adaptation over many blocks.
-- - Csd: src/common/csd_v110.c. Csd/Rtp has csd_v110_rtp_encode and csd_v110_rtp_decode, with the
--   frames of libosmogsm and libosmoisdn as a record of parameters, V110, and its laws.
-- - Meas: src/common/measurement.c. Meas/Frames has the tables of the frame numbers and is_meas_complete,
--   Meas/Compute the samples and lchan_meas_check_compute, Meas/Repetition the decisions on repeated
--   FACCH and overpower, Meas/Result rsl_tx_meas_res of src/common/rsl.c, and Meas/Sacch
--   lchan_meas_handle_sacch, which runs the loops of Power. Meas/Totals and Meas/Means restate the
--   loops over lists.
-- - Dtx: src/common/dtx_dl_amr_fsm.c in Dtx/Machine, and the functions of src/common/msg_utils.c that
--   drive it in Dtx/Payload, Dtx/Step (dtx_dl_amr_fsm_step) and Dtx/Repeat (repeat_last_sid). A call
--   is none where an assertion fails or the source follows a null pointer.
-- - Sched: the multiframe tables of src/common/scheduler_mframe.c in Sched/Bcch to Sched/Pdch and their
--   look-ups in Sched/Mframe; trx_sched_ul_burst and the search for lost bursts of
--   src/common/scheduler.c in Sched/Loss. The loops run over the frames that elapsed, at most one
--   period. The sums of frame numbers are a parameter with the laws of the hyperframe. What the handler
--   of a channel is called with is a list.
--
-- Integers: an unsigned field that can pass 0 or its top keeps its wrap, the fixed-width locals of
-- the loops keep their casts, and an int is an unbounded integer. Time and the success of an
-- allocation are arguments. No definition runs on fuel: every loop is a structural recursion, and
-- the rounds of a ramp are counted by the theorem that bounds them.
--
-- Not modelled: log lines and counters of the vty, the accessors of the vty, and the rest of the
-- program: RSL and OML parsing, the load indications, the classification of RTP payloads, sockets,
-- the requests to send, the queues and the downlink of the scheduler, and the back ends but for the
-- adaptation of the codec mode. The modelled parts do not call it, or call it through the parameters
-- above.
mod Base
pub mod Osmo
pub mod Notification
pub mod Paging
pub mod Power
pub mod TxPower
pub mod Shutdown
pub mod Nm
pub mod Agch
pub mod Cbch
pub mod SysInfo
pub mod Amr
pub mod Csd
pub mod Meas
pub mod Dtx
pub mod Sched
