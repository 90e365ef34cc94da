-- ===== src/Power/Filter.antt =====
-- The averaging of a measurement, the step towards the target level and the control interval:
-- do_pf_ewma, do_avg_algo, calc_delta_rxlev and ctrl_interval_skip_block of
-- src/common/power_control.c.
use osmo_bts.Base.{ℕ, ◌+◌, ◌*◌, ◌/◌, ◌%◌, Bool, true, false, ◌&&◌, leb, ◌==◌, if◌then◌else◌}
use osmo_bts.Base.Int.{ℤ, pos, ◌+ℤ◌, ◌-ℤ◌, scale, quot, ltb_ℤ, neg}
use osmo_bts.Power.Types.{Algo, osmo_ewma, MeasParams, Params, MeasProc, CtrlState}

-- (Avg100 + EWMA_ROUND_FACTOR) / EWMA_SCALE_FACTOR
unfoldable pub rounded : ℤ → ℤ
rounded a = quot (a +ℤ pos 50) 100

-- The value comes with the state that the filter leaves.
unfoldable pub do_pf_ewma : MeasParams → MeasProc → ℤ → MeasProc × ℤ
do_pf_ewma mp mps val =
    let n = (mps.meas_num + 1) % 4294967296 in
    let next = mps.avg100 +ℤ scale (mp.alpha) (val -ℤ rounded (mps.avg100)) in
    if mps.meas_num == 0
    then (record { meas_num = n; avg100 = scale 100 val }, val)
    else (record { meas_num = n; avg100 = next }, rounded next)

unfoldable pub avg_with : Algo → MeasParams → MeasProc → ℤ → MeasProc × ℤ
avg_with osmo_ewma mp mps val = do_pf_ewma mp mps val
avg_with _ mp mps val = (mps, val)

unfoldable pub do_avg_algo : MeasParams → MeasProc → ℤ → MeasProc × ℤ
do_avg_algo mp mps val = avg_with (mp.algo) mp mps val

unfoldable pub calc_target : MeasParams → ℕ
calc_target mp = (mp.lower_thresh + mp.upper_thresh) / 2

-- The clamp to one step of calc_delta_rxlev.
unfoldable pub clamp_delta : Params → ℤ → ℤ
clamp_delta params delta =
    if ltb_ℤ (pos (params.inc_step_size_db)) delta
    then pos (params.inc_step_size_db)
    else if ltb_ℤ delta (neg (params.red_step_size_db))
    then neg (params.red_step_size_db)
    else delta

unfoldable pub calc_delta_rxlev : Params → ℕ → ℤ
calc_delta_rxlev params rxlev =
    if leb (params.rxlev_meas.lower_thresh) rxlev && leb rxlev (params.rxlev_meas.upper_thresh)
    then pos 0
    else clamp_delta params (pos (calc_target (params.rxlev_meas)) -ℤ pos rxlev)

unfoldable pub ctrl_interval_skip_block : Params → CtrlState → Bool × CtrlState
ctrl_interval_skip_block params state =
    if ltb_ℤ (pos 0) (state.skip_block_num)
    then (true, record state { skip_block_num = state.skip_block_num -ℤ pos 1 })
    else (false, record state { skip_block_num = pos (params.ctrl_interval * 2) -ℤ pos 1 })
