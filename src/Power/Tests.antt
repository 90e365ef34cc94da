-- ===== src/Power/Tests.antt =====
-- Runs of the control loops at concrete inputs, and instances of their theorems.
use osmo_bts.Base.{ℕ, ◌-◌, ◌*◌, ◌≡◌, refl, arith, [], ◌∷◌, List, some, true, false, inl}
use osmo_bts.Base.Int.{ℤ, pos, negsuc, ◌+ℤ◌, ◌-ℤ◌, quot, scale, to_i16, to_u8}
use osmo_bts.Power.Types.{Params, MeasProc, CtrlState, power_ctrl_params_def_reset, rxlev_def}
use osmo_bts.Power.Filter.{do_pf_ewma}
use osmo_bts.Power.Loop.{Levels, MsLchan, lchan_bs_pwr_ctrl, lchan_ms_pwr_ctrl, MeasRes, tch_f}
use osmo_bts.Power.Advance.{TaState, new_ta, delta_ta, clamp_ta, lchan_ms_ta_ctrl}
use osmo_bts.Power.Bounds.{IsBsStep, lchan_bs_pwr_ctrl-IsBsStep}
use osmo_bts.Power.MsBounds.{IsMsResult, lchan_ms_pwr_ctrl-IsMsResult}
use osmo_bts.Power.TaBounds.{IsTaStep, lchan_ms_ta_ctrl-IsTaStep}
use osmo_bts.Power.Filter.{rounded}
use osmo_bts.Power.Average.{IsReading, ewma_run, ewma_run-IsReading}

abbrev no_meas : MeasProc
no_meas = record { meas_num = 0; avg100 = pos 0 }

abbrev params : Params
params = power_ctrl_params_def_reset true

abbrev bs_state : CtrlState
bs_state = record {
  dpc_params = some params;
  rxlev_meas_proc = no_meas;
  rxqual_meas_proc = no_meas;
  ci_meas_proc = no_meas;
  skip_block_num = pos 0;
  current = 6;
  max = 20;
}

abbrev report : MeasRes
report = record { rxlev_full = 45; rxqual_full = 1; rxlev_sub = 45; rxqual_sub = 1 }

-- Levels of 2 dB below 39 dBm, as of the 900 MHz band.
abbrev levels : Levels
levels = record {
  ms_pwr_dbm = λ (n : ℕ). pos (39 - 2 * (n - 2));
  ms_pwr_ctl_lvl = λ (d : ℤ). pos 7;
  dbm2rxlev = λ (d : ℤ). 30;
}

abbrev lchan : MsLchan
lchan = record { chan_type = tch_f; speech_amr = false; is_osmo = true; ms_power_ctrl = bs_state }

lchan_bs_pwr_ctrl-IsBsStep_example :
    IsBsStep params 20 6 ((lchan_bs_pwr_ctrl bs_state false report).0.current)
lchan_bs_pwr_ctrl-IsBsStep_example =
    lchan_bs_pwr_ctrl-IsBsStep params bs_state false report refl (omega arith) (omega arith)

lchan_ms_pwr_ctrl-IsMsResult_example :
    IsMsResult levels tch_f 6 20 (lchan_ms_pwr_ctrl levels lchan 7 (negsuc 80) (pos 150))
lchan_ms_pwr_ctrl-IsMsResult_example =
    lchan_ms_pwr_ctrl-IsMsResult levels lchan 7 (negsuc 80) (pos 150)

abbrev ta_state : TaState
ta_state = record { skip_block_num = pos 0; current = 5 }

lchan_ms_ta_ctrl-IsTaStep_example : IsTaStep 5 ((lchan_ms_ta_ctrl 1 ta_state 5 (pos 700)).current)
lchan_ms_ta_ctrl-IsTaStep_example =
    lchan_ms_ta_ctrl-IsTaStep 1 ta_state 5 (pos 700) (omega arith) (omega arith)

-- Carrier to interference in tenths of a dB.
abbrev readings : List ℤ
readings = negsuc 29 ∷ pos 15 ∷ negsuc 4 ∷ []

ewma_run-IsReading_example :
    IsReading
      (negsuc 29)
      (pos 20)
      ((do_pf_ewma rxlev_def (ewma_run rxlev_def no_meas readings) (pos 20)).1)
unfolding rxlev_def
ewma_run-IsReading_example =
    ewma_run-IsReading rxlev_def (negsuc 29) (pos 20) readings no_meas (pos 20) (omega arith)
      (omega arith) (inl refl)
      (
        omega arith,
        omega arith,
        (omega arith, omega arith, (omega arith, omega arith, omega arith)),
      )
      (omega arith) (omega arith)

-- The average of two equal negative measurements is one more than they are.
negative_average :
    (do_pf_ewma
      (record rxlev_def { alpha = 10 })
      (ewma_run (record rxlev_def { alpha = 10 }) no_meas (negsuc 0 ∷ []))
      (negsuc 0)).1
    ≡ pos 0
unfolding rxlev_def do_pf_ewma ewma_run rounded ◌+ℤ◌ ◌-ℤ◌ quot scale
negative_average = refl

-- A late burst moves the timing advance up by two at most.
late : lchan_ms_ta_ctrl 1 ta_state 5 (pos 700) ≡ record { skip_block_num = pos 1; current = 7 }
unfolding lchan_ms_ta_ctrl new_ta delta_ta clamp_ta ◌+ℤ◌ ◌-ℤ◌ quot scale to_i16 to_u8
late = refl
