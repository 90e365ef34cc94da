-- ===== src/TxPower/Types.antt =====
-- The structs of include/osmo-bts/tx_power.h and the fields of a transceiver that they use.
use osmo_bts.Base.{ℕ, Bool}
use osmo_bts.Base.Int.{ℤ}

-- struct power_amp with its calibration table of 1024 entries, by ARFCN.
pub record PowerAmp : Type 0 where
  pub nominal_gain_mdb : ℤ
  pub delta_mdb : ℕ → ℤ

-- The ramp of struct trx_power_params; `step_timer` tells whether the timer is pending and
-- `compl_cb` whether a callback is set.
pub record RampState : Type 0 where
  pub max_initial_pout_mdbm : ℤ
  pub attenuation_mdb : ℤ
  pub step_size_mdb : ℕ
  pub step_interval_sec : ℕ
  pub step_timer : Bool
  pub compl_cb : Bool

-- struct trx_power_params, with `max_power_red` and `arfcn` of the transceiver.
pub record Trx : Type 0 where
  pub max_power_red : ℕ
  pub arfcn : ℕ
  pub trx_p_max_out_mdbm : ℤ
  pub p_total_tgt_mdbm : ℤ
  pub p_total_cur_mdbm : ℤ
  pub thermal_attenuation_mdb : ℤ
  pub user_gain_mdb : ℤ
  pub pa : PowerAmp
  pub user_pa : PowerAmp
  pub ramp : RampState
