-- ===== src/Meas/Sacch.antt =====
-- What a SACCH block sets off: lchan_meas_handle_sacch of src/common/measurement.c, with the control
-- loops of src/common/power_control.c and src/common/ta_control.c.
use osmo_bts.Base.{
  ℕ, ◌+◌, ◌%◌, Bool, true, false, ◌&&◌, ◌||◌, Option, none, some, List, drop, length, get_or, ◌==◌,
  if◌then◌else◌,
}
use osmo_bts.Base.Int.{ℤ, pos, negsuc, to_i8}
use osmo_bts.Power.Types.{CtrlState}
use osmo_bts.Power.Loop.{Levels, MsLchan, Outcome, lchan_ms_pwr_ctrl, lchan_bs_pwr_ctrl}
use osmo_bts.Power.Advance.{TaState, lchan_ms_ta_ctrl}
use osmo_bts.Meas.Types.{L1Info, Meas, Lchan, ChanMode, speech_amr}
use osmo_bts.Meas.Repetition.{
  GsmMeasRes, RepAcchCap, TopAcchCap, repeated_dl_facch_active_decision,
  acch_overpower_active_decision,
}
use osmo_bts.Meas.Result.{Rsl, MeasResMsg, rsl_tx_meas_res, is_sent, ms_to2rsl, ms_to_valid}

-- The functions and the constants of libosmogsm: gsm48_meas_res_is_valid, rxlev2dbm, the bit fields
-- of struct gsm_sacch_l1_hdr and of struct gsm48_meas_res, GSM_MACBLOCK_LEN, GSM48_PDISC_RR,
-- GSM48_MT_RR_MEAS_REP and GSM48_MT_RR_EXT_MEAS_REP.
pub record Gsm : Type 0 where
  pub is_valid : GsmMeasRes → Bool
  pub rxlev2dbm : ℕ → ℤ
  pub sacch_l1_hdr : List ℕ → L1Info
  pub meas_res : List ℕ → GsmMeasRes
  pub macblock_len : ℕ
  pub pdisc_rr : ℕ
  pub mt_meas_rep : ℕ
  pub mt_ext_meas_rep : ℕ
  pub power_levels : Levels

-- The channel with what the function changes of it; `is_osmo` is trx_ms_pwr_ctrl_is_osmo(trx) and
-- `ta_ctrl_interval` that of the station.
pub record SacchLchan : Type 0 where
  pub lchan : Lchan
  pub is_osmo : Bool
  pub ta_ctrl_interval : ℕ
  pub ms_t_offs : ℤ
  pub p_offs : ℤ
  pub ta_ctrl : TaState
  pub ms_power_ctrl : CtrlState
  pub bs_power_ctrl : CtrlState
  pub rep_acch_cap : RepAcchCap
  pub dl_facch_active : Bool
  pub top_acch_cap : TopAcchCap
  pub top_acch_active : Bool
  pub dl_active : Bool

-- The octets of layer 2, and those of layer 3 where a pointer to them is set.
pub record Msgb : Type 0 where
  pub l2 : List ℕ
  pub l3 : Option (List ℕ)

unfoldable pub data_is_rr_meas_rep : Gsm → List ℕ → Bool
data_is_rr_meas_rep g octets =
    (get_or octets 2 0 == 1 && get_or octets 3 0 == 3)
    && get_or octets 5 0 == g.pdisc_rr
    && (get_or octets 6 0 == g.mt_ext_meas_rep || get_or octets 6 0 == g.mt_meas_rep)

unfoldable pub is_macblock : Gsm → Msgb → Bool
is_macblock g msg = length (msg.l2) == g.macblock_len

-- Whether the variable `gh` is set.
unfoldable pub has_report : Gsm → Msgb → Bool
has_report g msg = is_macblock g msg && data_is_rr_meas_rep g (msg.l2)

unfoldable pub l3_info : Gsm → Msgb → Option (List ℕ)
l3_info g msg = if has_report g msg then some (drop 5 (msg.l2)) else msg.l3

-- The variable `mr`: an ordinary measurement report.
unfoldable pub report_of : Gsm → Msgb → Option GsmMeasRes
report_of g msg =
    if has_report g msg && get_or (msg.l2) 6 0 == g.mt_meas_rep
    then some (g.meas_res (drop 7 (msg.l2)))
    else none

unfoldable pub dtxu_used : Gsm → Option GsmMeasRes → Bool
dtxu_used g none = true
dtxu_used g (some mr) = if g.is_valid mr then mr.dtx_used else true

-- The SACCH header of the block is stored.
unfoldable pub with_header : Gsm → Msgb → Meas → Meas
with_header g msg m =
    if is_macblock g msg
    then record m { l1_info = g.sacch_l1_hdr (msg.l2); l1_valid = true }
    else record m { l1_valid = false }

abbrev pub is_amr : ChanMode → Bool
is_amr speech_amr = true
is_amr _ = false

unfoldable pub ms_lchan : SacchLchan → MsLchan
ms_lchan s = record {
  chan_type = s.lchan.chan_type;
  speech_amr = is_amr (s.lchan.tch_mode);
  is_osmo = s.is_osmo;
  ms_power_ctrl = s.ms_power_ctrl;
}

-- The loop for the base station and the decision on overpower, for a valid report.
unfoldable pub with_report : Gsm → Option GsmMeasRes → SacchLchan → SacchLchan
with_report g none s = s
with_report g (some mr) s =
    if g.is_valid mr
    then record s {
      bs_power_ctrl = (lchan_bs_pwr_ctrl (s.bs_power_ctrl) (s.dl_active) (mr.levels)).0;
      top_acch_active = acch_overpower_active_decision (s.top_acch_cap) (s.top_acch_active) mr;
    }
    else s

-- The decision on FACCH repetition and the reset for the next period.
unfoldable pub finished : Gsm → Option GsmMeasRes → SacchLchan → SacchLchan
finished g mr s = record s {
  dl_facch_active =
      repeated_dl_facch_active_decision (g.is_valid) (s.rep_acch_cap) (s.lchan.meas.l1_info.srr_sro)
        (s.dl_facch_active) mr;
  dl_active = false;
  lchan = record s.lchan { meas = record s.lchan.meas { ext_valid = false } };
  ms_t_offs = negsuc 0;
  p_offs = negsuc 0;
}

-- After the loop for the phone; none for its assertion.
unfoldable pub after_ms : Gsm → Option GsmMeasRes → SacchLchan → Option Outcome → Option SacchLchan
after_ms g mr s none = none
after_ms g mr s (some o) =
    some (finished g mr (with_report g mr (record s { ms_power_ctrl = o.ctrl })))

-- The three control loops; `ms_pwr` and `ms_ta` are the values that the phone used.
unfoldable pub run_loops : Gsm → Option GsmMeasRes → ℕ → ℕ → SacchLchan → Option SacchLchan
run_loops g mr ms_pwr ms_ta s =
    let m = s.lchan.meas in
    let dtxu = dtxu_used g mr in
    let rx_lev = if dtxu then m.ul_res.sub_rx_lev else m.ul_res.full_rx_lev in
    let ci_cb = if dtxu then m.ul_ci_cb_sub else m.ul_ci_cb_full in
    let t = record s {
      ta_ctrl = lchan_ms_ta_ctrl (s.ta_ctrl_interval) (s.ta_ctrl) ms_ta (m.ms_toa256);
    } in
    after_ms g mr t
      (lchan_ms_pwr_ctrl (g.power_levels) (ms_lchan t) ms_pwr (to_i8 (g.rxlev2dbm rx_lev)) ci_cb)

-- The result is sent with the stored header, and counted if that succeeds.
unfoldable pub tx_result : Gsm → Rsl → SacchLchan → Msgb → ℕ → Meas → Option MeasResMsg
tx_result g rsl s msg ms_ta m =
    rsl_tx_meas_res rsl m (s.bs_power_ctrl.current) (s.dl_active) (l3_info g msg) (
      if ms_to_valid (s.ms_t_offs) (s.p_offs)
      then pos (ms_to2rsl (s.ms_t_offs) (s.p_offs) ms_ta)
      else negsuc 0)

unfoldable pub count_result : Rsl → Option MeasResMsg → Meas → Meas
count_result rsl sent m = if is_sent rsl sent then record m { res_nr = (m.res_nr + 1) % 256 } else m

-- The message sent and the channel after it; none for the assertion of the loop for the phone.
unfoldable pub lchan_meas_handle_sacch :
    Gsm → Rsl → SacchLchan → Msgb → Option MeasResMsg × Option SacchLchan
lchan_meas_handle_sacch g rsl s msg =
    let m = with_header g msg (s.lchan.meas) in
    let ms_pwr = if is_macblock g msg then m.l1_info.ms_pwr else s.ms_power_ctrl.current in
    let ms_ta = if is_macblock g msg then m.l1_info.ta else s.ta_ctrl.current in
    let sent = tx_result g rsl s msg ms_ta m in
    let t = record s { lchan = record s.lchan { meas = count_result rsl sent m } } in
    (sent, run_loops g (report_of g msg) ms_pwr ms_ta t)
