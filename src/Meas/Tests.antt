-- ===== src/Meas/Tests.antt =====
-- Runs of the measurements at concrete inputs, and instances of their theorems.
use osmo_bts.Base.{
  ℕ, ◌-◌, ◌*◌, ◌%◌, ◌≡◌, refl, arith, [], ◌∷◌, List, some, none, true, false, replicate, ◌==◌, ◌≢◌,
}
use osmo_bts.Base.Int.{ℤ, pos, negsuc}
use osmo_bts.Power.Types.{Params, MeasProc, CtrlState, power_ctrl_params_def_reset}
use osmo_bts.Power.Loop.{tch_f, other_chan, Levels}
use osmo_bts.Meas.Types.{UlMeas, Meas, Lchan, RepUnidir, pchan_tch_f, speech_v1}
use osmo_bts.Base.{Bool}
use osmo_bts.Meas.Frames.{
  complete_at, translate_tch_meas_rep_fn104, is_meas_complete, modulus_by_lchan,
}
use osmo_bts.Meas.Periods.{is_meas_complete-end_frame, end_frame}
use osmo_bts.Meas.Compute.{lchan_meas_process_measurement, Conversions, add_up, excess, no_sums}
use osmo_bts.Meas.Totals.{used, with_samples, with_missing, add_up-used}
use osmo_bts.Meas.Means.{AllBetween}
use osmo_bts.Meas.Reports.{IsProcessed, lowest, highest, process_measurement-IsProcessed}
use osmo_bts.Meas.Repetition.{GsmMeasRes, RepAcchCap}
use osmo_bts.Meas.Result.{Rsl}
use osmo_bts.Meas.Sacch.{Gsm, SacchLchan, Msgb, lchan_meas_handle_sacch}
use osmo_bts.Meas.Handling.{IsHandled, handle_sacch-IsHandled}

abbrev sample : UlMeas
sample = record {
  ber10k = 100;
  ta_offs_256bits = pos 30;
  ci_cb = pos 150;
  is_sub = false;
  inv_rssi = 70;
}

abbrev meas : Meas
meas = record {
  l1_valid = false;
  res_valid = false;
  ext_valid = false;
  res_nr = 255;
  num_ul_meas = 2;
  uplink = record sample { is_sub = true } ∷ sample ∷ replicate 102 sample;
  l1_info = record { ms_pwr = 0; fpc_epc = false; srr_sro = false; ta = 0 };
  ul_res = record { full_rx_lev = 0; full_rx_qual = 0; sub_rx_lev = 0; sub_rx_qual = 0 };
  ms_toa256 = pos 0;
  ul_ci_cb_full = pos 0;
  ul_ci_cb_sub = pos 0;
  last_fn = 0;
  ext = record { toa256_min = pos 0; toa256_max = pos 0; toa256_std_dev = 0 };
}

-- A full rate speech channel in timeslot 2.
abbrev lchan : Lchan
lchan = record {
  chan_type = tch_f;
  pchan = pchan_tch_f;
  ts_nr = 2;
  nr = 0;
  tch_mode = speech_v1;
  is_data = false;
  meas = meas;
}

abbrev conv : Conversions
conv = record { dbm2rxlev = λ (d : ℤ). 40; isqrt = λ (n : ℕ). n }

-- Its period ends at frame 38 of the multiframe.
ends : is_meas_complete lchan 142 ≡ true
unfolding is_meas_complete complete_at translate_tch_meas_rep_fn104
ends = refl

is_meas_complete-end_frame_example :
    is_meas_complete lchan 142 ≡ (end_frame pchan_tch_f 2 0 == 142 % modulus_by_lchan lchan)
is_meas_complete-end_frame_example = is_meas_complete-end_frame lchan 142 (omega arith, omega arith)

add_up-used_example :
    add_up meas (excess 2 25) (pos 2) 25 0 no_sums
    ≡ with_missing (pos 2) (25 - 2) (with_samples no_sums (used meas 25))
add_up-used_example = add_up-used meas 25 (pos 2) (omega arith)

buffer-AllBetween : AllBetween lowest highest (meas.uplink)
unfolding AllBetween
buffer-AllBetween = ground arith

process_measurement-IsProcessed_example :
    IsProcessed (is_meas_complete lchan 142) (lchan_meas_process_measurement conv lchan sample 142)
process_measurement-IsProcessed_example =
    process_measurement-IsProcessed conv lchan sample 142 (refl, omega arith, buffer-AllBetween)
      (omega arith) (omega arith)

abbrev report : ℕ → GsmMeasRes
report q = record {
  dtx_used = false;
  levels = record { rxlev_full = 45; rxqual_full = q; rxlev_sub = 45; rxqual_sub = 0 };
}

abbrev rep_cap : RepAcchCap
rep_cap = record { dl_facch_cmd = true; dl_facch_all = false; rxqual = 4 }

abbrev all_valid : GsmMeasRes → Bool
all_valid mr = true

abbrev no_meas : MeasProc
no_meas = record { meas_num = 0; avg100 = pos 0 }

abbrev params : Params
params = power_ctrl_params_def_reset true

abbrev ctrl_state : CtrlState
ctrl_state = record {
  dpc_params = some params;
  rxlev_meas_proc = no_meas;
  rxqual_meas_proc = no_meas;
  ci_meas_proc = no_meas;
  skip_block_num = pos 0;
  current = 6;
  max = 20;
}

abbrev levels : Levels
levels = record {
  ms_pwr_dbm = λ (n : ℕ). pos (39 - 2 * (n - 2));
  ms_pwr_ctl_lvl = λ (d : ℤ). pos 7;
  dbm2rxlev = λ (d : ℤ). 30;
}

abbrev gsm : Gsm
gsm = record {
  is_valid = all_valid;
  rxlev2dbm = λ (n : ℕ). negsuc (110 - n);
  sacch_l1_hdr = λ (o : List ℕ). record { ms_pwr = 7; fpc_epc = false; srr_sro = false; ta = 3 };
  meas_res = λ (o : List ℕ). report 5;
  macblock_len = 23;
  pdisc_rr = 6;
  mt_meas_rep = 21;
  mt_ext_meas_rep = 54;
  power_levels = levels;
}

abbrev rsl : Rsl
rsl = record {
  ul_meas_enc = λ (r : RepUnidir) (d : Bool). 0 ∷ 0 ∷ 0 ∷ [];
  alloc_ok = true;
  send_ok = true;
  supp_meas_toa256 = true;
}

abbrev channel : SacchLchan
channel = record {
  lchan = record lchan { meas = record meas { res_valid = true } };
  is_osmo = true;
  ta_ctrl_interval = 0;
  ms_t_offs = negsuc 0;
  p_offs = negsuc 0;
  ta_ctrl = record { skip_block_num = pos 0; current = 3 };
  ms_power_ctrl = ctrl_state;
  bs_power_ctrl = ctrl_state;
  rep_acch_cap = rep_cap;
  dl_facch_active = false;
  top_acch_cap = record { overpower_db = 2; rxqual = 4 };
  top_acch_active = false;
  dl_active = true;
}

-- A measurement report in a block of 23 octets.
abbrev block : Msgb
block = record { l2 = 0 ∷ 0 ∷ 1 ∷ 3 ∷ 73 ∷ 6 ∷ 21 ∷ replicate 16 0; l3 = none }

not_other : tch_f ≢ other_chan
not_other h = absurd (ground arith)

handle_sacch-IsHandled_example :
    IsHandled rsl params channel
      ((lchan_meas_handle_sacch gsm rsl channel block).0)
      ((lchan_meas_handle_sacch gsm rsl channel block).1)
handle_sacch-IsHandled_example =
    handle_sacch-IsHandled gsm rsl params channel block not_other refl (omega arith) (omega arith)
