-- ===== src/Meas/Types.antt =====
-- The parts of `struct gsm_lchan` in include/osmo-bts/lchan.h that src/common/measurement.c uses.
use osmo_bts.Base.{ℕ, Bool, List}
use osmo_bts.Base.Int.{ℤ}
use osmo_bts.Power.Loop.{ChanType}

-- struct bts_ul_meas
pub record UlMeas : Type 0 where
  pub ber10k : ℕ
  pub ta_offs_256bits : ℤ
  pub ci_cb : ℤ
  pub is_sub : Bool
  pub inv_rssi : ℕ

-- enum gsm_phys_chan_config, the values that the source names and the others.
pub data Pchan : Type 0 where
  pchan_tch_f pchan_tch_h sdcch8_sacch8c sdcch8_sacch8c_cbch ccch_sdcch4 ccch_sdcch4_cbch : Pchan
  other_pchan : Pchan

-- enum gsm48_chan_mode, the values that the source names and the others.
pub data ChanMode : Type 0 where
  sign speech_v1 speech_v1_vamos speech_efr speech_v2_vamos speech_amr speech_v3_vamos : ChanMode
  speech_v4 speech_v5 speech_v5_vamos speech_v6 data_12k0 data_6k0 data_3k6 other_mode : ChanMode

-- struct gsm_meas_rep_unidir
pub record RepUnidir : Type 0 where
  pub full_rx_lev : ℕ
  pub full_rx_qual : ℕ
  pub sub_rx_lev : ℕ
  pub sub_rx_qual : ℕ

-- The extended measurements.
pub record Ext : Type 0 where
  pub toa256_min : ℤ
  pub toa256_max : ℤ
  pub toa256_std_dev : ℕ

-- struct rsl_l1_info
pub record L1Info : Type 0 where
  pub ms_pwr : ℕ
  pub fpc_epc : Bool
  pub srr_sro : Bool
  pub ta : ℕ

-- The member `meas`; the flags LC_UL_M_F_L1_VALID, _RES_VALID and _OSMO_EXT_VALID are Booleans.
pub record Meas : Type 0 where
  pub l1_valid : Bool
  pub res_valid : Bool
  pub ext_valid : Bool
  pub res_nr : ℕ
  pub num_ul_meas : ℕ
  pub uplink : List UlMeas
  pub l1_info : L1Info
  pub ul_res : RepUnidir
  pub ms_toa256 : ℤ
  pub ul_ci_cb_full : ℤ
  pub ul_ci_cb_sub : ℤ
  pub last_fn : ℕ
  pub ext : Ext

-- `ts_nr` is ts->nr, `pchan` is ts_pchan(ts) and `is_data` is rsl_cmode == RSL_CMOD_SPD_DATA.
pub record Lchan : Type 0 where
  pub chan_type : ChanType
  pub pchan : Pchan
  pub ts_nr : ℕ
  pub nr : ℕ
  pub tch_mode : ChanMode
  pub is_data : Bool
  pub meas : Meas

-- MAX_NUM_UL_MEAS
abbrev pub max_num_ul_meas : ℕ
max_num_ul_meas = 104
