-- ===== src/Power/Loop.antt =====
-- The two control loops: lchan_ms_pwr_ctrl and lchan_bs_pwr_ctrl of src/common/power_control.c.
-- The conversions of libosmogsm between power levels and dBm are the record `Levels`.
use osmo_bts.Base.{
  ℕ, ◌+◌, ◌*◌, Bool, true, false, Option, none, some, ◌&&◌, ◌||◌, not, ltb, ◌==◌, if◌then◌else◌,
}
use osmo_bts.Base.Int.{ℤ, pos, ◌+ℤ◌, ◌-ℤ◌, ltb_ℤ, eqb_ℤ, to_i8, to_u8, to_i16, pos_part}
use osmo_bts.Power.Types.{MeasParams, Params, CtrlState}
use osmo_bts.Power.Filter.{do_avg_algo, calc_delta_rxlev, ctrl_interval_skip_block}

-- The calls of libosmogsm, for the band of the base station.
pub record Levels : Type 0 where
  pub ms_pwr_dbm : ℕ → ℤ
  pub ms_pwr_ctl_lvl : ℤ → ℤ
  pub dbm2rxlev : ℤ → ℕ

-- enum gsm_chan_t, as far as the source tells its values apart.
pub data ChanType : Type 0 where
  sdcch pdtch tch_f tch_h other_chan : ChanType

-- `struct gsm_lchan` as the loop for the phone reads it; `speech_amr` is
-- tch_mode == GSM48_CMODE_SPEECH_AMR and `is_osmo` is trx_ms_pwr_ctrl_is_osmo(trx).
pub record MsLchan : Type 0 where
  pub chan_type : ChanType
  pub speech_amr : Bool
  pub is_osmo : Bool
  pub ms_power_ctrl : CtrlState

-- The value returned, the state left and whether bts_model_adjst_ms_pwr was called.
pub record Outcome : Type 0 where
  pub rc : ℕ
  pub ctrl : CtrlState
  pub adjst_ms_pwr : Bool

unfoldable pub kept : CtrlState → Outcome
kept state = record { rc = 0; ctrl = state; adjst_ms_pwr = false }

-- None for the assertion that fails.
unfoldable pub get_ci_thresholds : ChanType → Bool → Params → Option MeasParams
get_ci_thresholds sdcch amr params = some (params.ci_sdcch_meas)
get_ci_thresholds pdtch amr params = some (params.ci_gprs_meas)
get_ci_thresholds tch_f amr params = some (if amr then params.ci_amr_fr_meas else params.ci_fr_meas)
get_ci_thresholds tch_h amr params = some (if amr then params.ci_amr_hr_meas else params.ci_hr_meas)
get_ci_thresholds other_chan amr params = none

unfoldable pub ci_on : MeasParams → Bool
ci_on ci = not (ci.lower_cmp_n == 0) && not (ci.upper_cmp_n == 0)

-- The power asked for before it is clamped, as the int8_t that holds it.
unfoldable pub ms_wanted : Params → MeasParams → ℤ → ℤ → ℕ → ℤ
ms_wanted params ci ms_dbm lqual_avg rxlev_avg =
    if ci_on ci && ltb_ℤ lqual_avg (pos (ci.lower_thresh * 10))
    then to_i8 (ms_dbm +ℤ pos (params.inc_step_size_db))
    else if ci_on ci && ltb_ℤ (pos (ci.upper_thresh * 10)) lqual_avg
    then to_i8 (ms_dbm -ℤ pos (params.red_step_size_db))
    else to_i8 (ms_dbm +ℤ calc_delta_rxlev params rxlev_avg)

-- The two clamps on `new_dbm`.
unfoldable pub ms_clamp : ℤ → ℤ → ℤ
ms_clamp bsc_max_dbm dbm =
    let d = if ltb_ℤ dbm (pos 0) then pos 0 else dbm in
    if ltb_ℤ bsc_max_dbm d then bsc_max_dbm else d

-- What follows the choice of `new_dbm`.
unfoldable pub ms_store : Levels → CtrlState → ℤ → ℤ → Outcome
ms_store lv state ms_dbm new_dbm =
    let lvl = to_i8 (lv.ms_pwr_ctl_lvl new_dbm) in
    let current_dbm = to_i8 (lv.ms_pwr_dbm (state.current)) in
    let ignore = eqb_ℤ ms_dbm new_dbm && ltb_ℤ current_dbm ms_dbm in
    if ltb_ℤ lvl (pos 0) || (eqb_ℤ (pos (state.current)) lvl || ignore)
    then kept state
    else record { rc = 1; ctrl = record state { current = pos_part lvl }; adjst_ms_pwr = true }

-- The averages of a report, C/I and RxLev, and the state with both filters advanced.
unfoldable pub ms_averages : Levels → Params → MeasParams → CtrlState → ℤ → ℤ → CtrlState × (ℤ × ℕ)
ms_averages lv params ci state rssi lqual =
    let c = do_avg_algo ci (state.ci_meas_proc) lqual in
    let r = do_avg_algo (params.rxlev_meas) (state.rxlev_meas_proc) (pos (lv.dbm2rxlev rssi)) in
    (record state { ci_meas_proc = c.0; rxlev_meas_proc = r.0 }, (to_i16 (c.1), to_u8 (r.1)))

unfoldable pub ms_decide : Levels → Params → MeasParams → CtrlState × (ℤ × ℕ) → ℤ → ℤ → Outcome
ms_decide lv params ci avgs ms_dbm bsc_max_dbm =
    ms_store lv (avgs.0) ms_dbm
      (ms_clamp bsc_max_dbm (ms_wanted params ci ms_dbm (avgs.1.0) (avgs.1.1)))

-- None where the assertion on the channel type fails.
unfoldable pub ms_for :
    Levels → Params → Option MeasParams → CtrlState → ℤ → ℤ → ℤ → ℤ → Option Outcome
ms_for lv params none state rssi lqual ms_dbm bsc_max_dbm = none
ms_for lv params (some ci) state rssi lqual ms_dbm bsc_max_dbm =
    some (ms_decide lv params ci (ms_averages lv params ci state rssi lqual) ms_dbm bsc_max_dbm)

-- The guards on the two conversions to dBm.
unfoldable pub ms_measured : Levels → MsLchan → Params → CtrlState → ℕ → ℤ → ℤ → Option Outcome
ms_measured lv lchan params state ms_power_lvl rssi lqual =
    let ms_dbm = to_i8 (lv.ms_pwr_dbm ms_power_lvl) in
    let bsc_max_dbm = to_i8 (lv.ms_pwr_dbm (state.max)) in
    let ci = get_ci_thresholds (lchan.chan_type) (lchan.speech_amr) params in
    if ltb_ℤ ms_dbm (pos 0) || ltb_ℤ bsc_max_dbm (pos 0)
    then some (kept state)
    else ms_for lv params ci state rssi lqual ms_dbm bsc_max_dbm

unfoldable pub ms_with : Levels → MsLchan → Option Params → ℕ → ℤ → ℤ → Option Outcome
ms_with lv lchan none ms_power_lvl rssi lqual = some (kept (lchan.ms_power_ctrl))
ms_with lv lchan (some params) ms_power_lvl rssi lqual =
    let s = ctrl_interval_skip_block params (lchan.ms_power_ctrl) in
    if s.0 then some (kept (s.1)) else ms_measured lv lchan params (s.1) ms_power_lvl rssi lqual

unfoldable pub lchan_ms_pwr_ctrl : Levels → MsLchan → ℕ → ℤ → ℤ → Option Outcome
lchan_ms_pwr_ctrl lv lchan ms_power_lvl ul_rssi_dbm ul_lqual_cb =
    if lchan.is_osmo
    then ms_with lv lchan (lchan.ms_power_ctrl.dpc_params) ms_power_lvl ul_rssi_dbm ul_lqual_cb
    else some (kept (lchan.ms_power_ctrl))

-- The fields of `struct gsm48_meas_res` that the source reads.
pub record MeasRes : Type 0 where
  pub rxlev_full : ℕ
  pub rxqual_full : ℕ
  pub rxlev_sub : ℕ
  pub rxqual_sub : ℕ

unfoldable pub bs_wanted : Params → ℕ → ℕ → ℕ → ℤ
bs_wanted params current rxqual_avg rxlev_avg =
    if ltb (params.rxqual_meas.lower_thresh) rxqual_avg
    then pos current -ℤ pos (params.inc_step_size_db)
    else if ltb rxqual_avg (params.rxqual_meas.upper_thresh)
    then pos (current + params.red_step_size_db)
    else pos current -ℤ calc_delta_rxlev params rxlev_avg

unfoldable pub bs_clamp : ℕ → ℤ → ℤ
bs_clamp max att =
    let a = if ltb_ℤ att (pos 0) then pos 0 else att in if ltb_ℤ (pos max) a then pos max else a

unfoldable pub bs_store : CtrlState → ℤ → CtrlState × ℕ
bs_store state att =
    if eqb_ℤ (pos (state.current)) att
    then (state, 0)
    else (record state { current = to_u8 att }, 1)

unfoldable pub bs_decide : Params → CtrlState → ℕ → ℕ → CtrlState × ℕ
bs_decide params state rxlev rxqual =
    let l = do_avg_algo (params.rxlev_meas) (state.rxlev_meas_proc) (pos rxlev) in
    let q = do_avg_algo (params.rxqual_meas) (state.rxqual_meas_proc) (pos rxqual) in
    bs_store (record state { rxlev_meas_proc = l.0; rxqual_meas_proc = q.0 })
      (bs_clamp (state.max) (bs_wanted params (state.current) (to_u8 (q.1)) (to_u8 (l.1))))

unfoldable pub bs_with : Option Params → CtrlState → Bool → MeasRes → CtrlState × ℕ
bs_with none state dl_active mr = (state, 0)
bs_with (some params) state dl_active mr =
    let s = ctrl_interval_skip_block params state in
    if s.0
    then (s.1, 0)
    else if dl_active
    then bs_decide params (s.1) (mr.rxlev_sub) (mr.rxqual_sub)
    else bs_decide params (s.1) (mr.rxlev_full) (mr.rxqual_full)

-- `dl_active` is lchan->tch.dtx.dl_active; the value returned comes with the state.
unfoldable pub lchan_bs_pwr_ctrl : CtrlState → Bool → MeasRes → CtrlState × ℕ
lchan_bs_pwr_ctrl state dl_active mr = bs_with (state.dpc_params) state dl_active mr
