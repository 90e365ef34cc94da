-- ===== src/Meas/Handling.antt =====
-- What one SACCH block does to a channel: lchan_meas_handle_sacch of src/common/measurement.c with
-- the control loops that it runs.
use mathlib.Core.Path.{subst}
use osmo_bts.Base.{
  ℕ, ◌+◌, ◌%◌, ◌≤◌, ◌<◌, ◌≡◌, ◌≢◌, refl, sym, ◌∙◌, ap, false, Option, none, some, if◌then◌else◌,
  arith, if_elim, Option-cases, inl, inr,
}
use osmo_bts.Base.Int.{ℤ, negsuc, to_i8}
use osmo_bts.Power.Types.{Params}
use osmo_bts.Power.Loop.{Levels, MsLchan, Outcome, other_chan, lchan_ms_pwr_ctrl}
use osmo_bts.Power.Bounds.{IsBsStep, lchan_bs_pwr_ctrl-IsBsStep}
use osmo_bts.Power.MsBounds.{IsMsResult, lchan_ms_pwr_ctrl-IsMsResult}
use osmo_bts.Power.Advance.{lchan_ms_ta_ctrl}
use osmo_bts.Meas.Types.{Lchan, Meas}
use osmo_bts.Meas.Repetition.{GsmMeasRes}
use osmo_bts.Meas.Result.{Rsl, MeasResMsg, is_sent}
use osmo_bts.Meas.Sacch.{
  Gsm, SacchLchan, Msgb, with_header, ms_lchan, with_report, finished, after_ms, run_loops,
  tx_result, count_result, lchan_meas_handle_sacch, report_of, is_macblock, dtxu_used,
}

-- The channel after a block: the counter of results goes up if the message was sent, the
-- attenuation of the downlink makes one permitted step, and the state of the period is reset.
abbrev pub IsHandled : Rsl → Params → SacchLchan → Option MeasResMsg → Option SacchLchan → Type 0
IsHandled rsl p s sent none = 0 < 0
IsHandled rsl p s sent (some t) =
    (t.lchan.meas.res_nr
      ≡ (if is_sent rsl sent then (s.lchan.meas.res_nr + 1) % 256 else s.lchan.meas.res_nr))
    × IsBsStep p (s.bs_power_ctrl.max) (s.bs_power_ctrl.current) (t.bs_power_ctrl.current)
    × (t.lchan.meas.num_ul_meas ≡ s.lchan.meas.num_ul_meas)
    × (t.lchan.meas.uplink ≡ s.lchan.meas.uplink)
    × (t.lchan.meas.ext_valid ≡ false)
    × (t.dl_active ≡ false)
    × (t.ms_t_offs ≡ negsuc 0)
    × (t.p_offs ≡ negsuc 0)

bs_lem :
    (g : Gsm) (mr : Option GsmMeasRes) (p : Params) (s : SacchLchan)
    → s.bs_power_ctrl.dpc_params ≡ some p
    → s.bs_power_ctrl.current ≤ s.bs_power_ctrl.max
    → s.bs_power_ctrl.max < 256
    → IsBsStep p
        (s.bs_power_ctrl.max)
        (s.bs_power_ctrl.current)
        ((with_report g mr s).bs_power_ctrl.current)
unfolding with_report
bs_lem g none p s e le lt = (omega arith, omega arith, omega arith)
bs_lem g (some mr) p s e le lt =
    if_elim
      (λ (t : SacchLchan).
        IsBsStep p (s.bs_power_ctrl.max) (s.bs_power_ctrl.current) (t.bs_power_ctrl.current))
      (g.is_valid mr) _ s
      (λ h. lchan_bs_pwr_ctrl-IsBsStep p (s.bs_power_ctrl) (s.dl_active) (mr.levels) e le lt)
      (λ h. (omega arith, omega arith, omega arith))

with_report_lchan :
    (g : Gsm) (mr : Option GsmMeasRes) (s : SacchLchan) → (with_report g mr s).lchan ≡ s.lchan
unfolding with_report
with_report_lchan g none s = refl
with_report_lchan g (some mr) s =
    if_elim (λ (t : SacchLchan). t.lchan ≡ s.lchan) (g.is_valid mr) _ s (λ h. refl) (λ h. refl)

count_result_lem :
    (g : Gsm) (rsl : Rsl) (sent : Option MeasResMsg) (msg : Msgb) (m : Meas)
    → ((count_result rsl sent (with_header g msg m)).res_nr
        ≡ (if is_sent rsl sent then (m.res_nr + 1) % 256 else m.res_nr))
      × ((count_result rsl sent (with_header g msg m)).num_ul_meas ≡ m.num_ul_meas)
      × ((count_result rsl sent (with_header g msg m)).uplink ≡ m.uplink)
unfolding count_result with_header
count_result_lem g rsl sent msg m = ground arith

-- A channel of a type with thresholds never makes the loop for the phone fail.
ms_lem :
    (lv : Levels) (l : MsLchan) (n : ℕ) (r q : ℤ)
    → l.chan_type ≢ other_chan
    → (o : Outcome) × (lchan_ms_pwr_ctrl lv l n r q ≡ some o)
ms_lem lv l n r q h =
    let result = IsMsResult lv (l.chan_type) (l.ms_power_ctrl.current) (l.ms_power_ctrl.max) in
    elim (Option-cases (lchan_ms_pwr_ctrl lv l n r q)) [
      | inl e ↦ absurd (h (subst result e (lchan_ms_pwr_ctrl-IsMsResult lv l n r q)))
      | inr (o, e) ↦ (o, e)
    ]

run_loops-IsHandled :
    (g : Gsm) (rsl : Rsl) (p : Params) (s : SacchLchan) (mr : Option GsmMeasRes)
    (sent : Option MeasResMsg) (m : Meas) (ms_pwr ms_ta : ℕ)
    → (m.res_nr
        ≡ (if is_sent rsl sent then (s.lchan.meas.res_nr + 1) % 256 else s.lchan.meas.res_nr))
      × (m.num_ul_meas ≡ s.lchan.meas.num_ul_meas)
      × (m.uplink ≡ s.lchan.meas.uplink)
    → s.lchan.chan_type ≢ other_chan
    → s.bs_power_ctrl.dpc_params ≡ some p
    → s.bs_power_ctrl.current ≤ s.bs_power_ctrl.max
    → s.bs_power_ctrl.max < 256
    → IsHandled rsl p s sent
        (run_loops g mr ms_pwr ms_ta (record s { lchan = record s.lchan { meas = m } }))
unfolding run_loops ms_lchan after_ms finished
run_loops-IsHandled g rsl p s mr sent m ms_pwr ms_ta (r, n, ul) c e le lt =
    let rx_lev = if dtxu_used g mr then m.ul_res.sub_rx_lev else m.ul_res.full_rx_lev in
    let ci = if dtxu_used g mr then m.ul_ci_cb_sub else m.ul_ci_cb_full in
    let l = record s.lchan { meas = m } in
    let ta = lchan_ms_ta_ctrl (s.ta_ctrl_interval) (s.ta_ctrl) ms_ta (m.ms_toa256) in
    let t = record s { lchan = l; ta_ctrl = ta } in
    let o = ms_lem (g.power_levels) (ms_lchan t) ms_pwr (to_i8 (g.rxlev2dbm rx_lev)) ci c in
    let u = record t { ms_power_ctrl = o.0.ctrl } in
    let k = with_report_lchan g mr u in
    subst (IsHandled rsl p s sent) (sym (ap (after_ms g mr t) (o.1))) (
      ap (λ (l : Lchan). l.meas.res_nr) k ∙ r,
      bs_lem g mr p u e le lt,
      ap (λ (l : Lchan). l.meas.num_ul_meas) k ∙ n,
      ap (λ (l : Lchan). l.meas.uplink) k ∙ ul,
      refl,
      refl,
      refl,
      refl,
    )

-- For a channel of a type that has thresholds and a permitted attenuation under parameters `p`,
-- every SACCH block is handled: the counter of results goes up modulo 256 exactly if the message
-- is sent, the attenuation stays at most its maximum and changes by one step of its direction
-- at most, the stored samples and their number stay, and the flags and offsets of the period are reset.
pub handle_sacch-IsHandled :
    (g : Gsm) (rsl : Rsl) (p : Params) (s : SacchLchan) (msg : Msgb)
    → s.lchan.chan_type ≢ other_chan
    → s.bs_power_ctrl.dpc_params ≡ some p
    → s.bs_power_ctrl.current ≤ s.bs_power_ctrl.max
    → s.bs_power_ctrl.max < 256
    → IsHandled rsl p s
        ((lchan_meas_handle_sacch g rsl s msg).0)
        ((lchan_meas_handle_sacch g rsl s msg).1)
unfolding lchan_meas_handle_sacch
handle_sacch-IsHandled g rsl p s msg c e le lt =
    let m = with_header g msg (s.lchan.meas) in
    let ms_pwr = if is_macblock g msg then m.l1_info.ms_pwr else s.ms_power_ctrl.current in
    let ms_ta = if is_macblock g msg then m.l1_info.ta else s.ta_ctrl.current in
    let sent = tx_result g rsl s msg ms_ta m in
    run_loops-IsHandled g rsl p s (report_of g msg) sent (count_result rsl sent m) ms_pwr ms_ta
      (count_result_lem g rsl sent msg (s.lchan.meas)) c e le lt
