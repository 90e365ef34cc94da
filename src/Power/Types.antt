-- ===== src/Power/Types.antt =====
-- The structs of include/osmo-bts/power_control.h and the power control state of
-- include/osmo-bts/lchan.h, with the defaults of src/common/power_control.c.
use osmo_bts.Base.{ℕ, Bool, Option, if◌then◌else◌}
use osmo_bts.Base.Int.{ℤ}

-- enum gsm_power_ctrl_meas_avg_algo
pub data Algo : Type 0 where
  algo_none unweighted weighted mod_median osmo_ewma : Algo

pub record MeasParams : Type 0 where
  pub lower_thresh : ℕ
  pub upper_thresh : ℕ
  pub lower_cmp_p : ℕ
  pub lower_cmp_n : ℕ
  pub upper_cmp_p : ℕ
  pub upper_cmp_n : ℕ
  pub h_reqave : ℕ
  pub h_reqt : ℕ
  pub algo : Algo
  pub alpha : ℕ

pub record Params : Type 0 where
  pub ctrl_interval : ℕ
  pub inc_step_size_db : ℕ
  pub red_step_size_db : ℕ
  pub rxqual_meas : MeasParams
  pub rxlev_meas : MeasParams
  pub ci_fr_meas : MeasParams
  pub ci_hr_meas : MeasParams
  pub ci_amr_fr_meas : MeasParams
  pub ci_amr_hr_meas : MeasParams
  pub ci_sdcch_meas : MeasParams
  pub ci_gprs_meas : MeasParams

pub record MeasProc : Type 0 where
  pub meas_num : ℕ
  pub avg100 : ℤ

-- `dpc_params` is none for the null pointer of the static mode.
pub record CtrlState : Type 0 where
  pub dpc_params : Option Params
  pub rxlev_meas_proc : MeasProc
  pub rxqual_meas_proc : MeasProc
  pub ci_meas_proc : MeasProc
  pub skip_block_num : ℤ
  pub current : ℕ
  pub max : ℕ

-- The initializer of a C/I entry, with its two thresholds.
unfoldable pub ci_def : ℕ → ℕ → MeasParams
ci_def lower upper = record {
  lower_thresh = lower;
  upper_thresh = upper;
  lower_cmp_p = 5;
  lower_cmp_n = 7;
  upper_cmp_p = 15;
  upper_cmp_n = 18;
  h_reqave = 4;
  h_reqt = 6;
  algo = algo_none;
  alpha = 0;
}

unfoldable pub rxlev_def : MeasParams
rxlev_def = record {
  lower_thresh = 32;
  upper_thresh = 38;
  lower_cmp_p = 0;
  lower_cmp_n = 0;
  upper_cmp_p = 0;
  upper_cmp_n = 0;
  h_reqave = 0;
  h_reqt = 0;
  algo = osmo_ewma;
  alpha = 50;
}

unfoldable pub rxqual_def : MeasParams
rxqual_def = record rxlev_def { lower_thresh = 3; upper_thresh = 0; algo = algo_none; alpha = 0 }

unfoldable pub power_ctrl_params_def : Params
power_ctrl_params_def = record {
  ctrl_interval = 0;
  inc_step_size_db = 4;
  red_step_size_db = 2;
  rxqual_meas = rxqual_def;
  rxlev_meas = rxlev_def;
  ci_fr_meas = ci_def 13 17;
  ci_hr_meas = ci_def 16 21;
  ci_amr_fr_meas = ci_def 7 11;
  ci_amr_hr_meas = ci_def 13 17;
  ci_sdcch_meas = ci_def 12 16;
  ci_gprs_meas = ci_def 18 24;
}

unfoldable pub power_ctrl_params_def_reset : Bool → Params
power_ctrl_params_def_reset is_bs_pwr = record power_ctrl_params_def {
  ctrl_interval = if is_bs_pwr then 1 else 2;
}
