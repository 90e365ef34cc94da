-- ===== src/Sched/Tests.antt =====
-- Runs of the scheduler at concrete inputs, and instances of its theorems.
use osmo_bts.Base.{ℕ, ◌+◌, ◌-◌, ◌%◌, ◌≡◌, refl, arith, some, none, true, false, [], ◌∷◌}
use osmo_bts.Base.Int.{◌+ℤ◌, ◌-ℤ◌, negsuc, pos, quot}
use osmo_bts.Power.Loop.{tch_f}
use osmo_bts.Meas.Types.{Lchan, Meas, pchan_tch_f, speech_v1}
use osmo_bts.Meas.Frames.{complete_at, translate_tch_meas_rep_fn104, is_meas_complete}
use osmo_bts.Sched.Types.{trxc_idle, same_chan}
use osmo_bts.Sched.Mframe.{
  find_sched_mframe_idx, find_from, trx_sched_is_sacch_fn, sacch_at, sacch_in, is_sacch, chan_of,
  frame_at, pchan_none, pchan_sdcch8, pchan_dynamic, pchan_pdch,
}
use osmo_bts.Sched.Order.{multiframe, IsFollowed, multiframe-IsFollowed, bursts_of}
use osmo_bts.Sched.Alignment.{IsBlockStart, meas_complete-IsBlockStart, phys, index_or}
use osmo_bts.Sched.Loss.{
  Tdma, TdmaLaws, hyperframe, ChanState, trx_sched_ul_burst, not_applicable, trx_sched_noise_meas,
  is_dedic, measured_noise, trx_sched_calc_frame_loss, fill_gap, count_lost, substitute, hand_over,
  handled,
}
use osmo_bts.Sched.Filling.{lost_in}
use osmo_bts.Sched.Recovery.{IsHandedOver, ul_burst-IsRecovered}

find_pdch : find_sched_mframe_idx pchan_pdch 3 ≡ some 18
unfolding find_sched_mframe_idx find_from
find_pdch = refl

-- Frame 32 of SDCCH/8 carries a SACCH in the downlink.
sacch_sdcch8 : trx_sched_is_sacch_fn pchan_sdcch8 1 32 false ≡ some true
unfolding trx_sched_is_sacch_fn sacch_at sacch_in is_sacch chan_of frame_at find_sched_mframe_idx
    find_from
sacch_sdcch8 = refl

-- A configuration without a multiframe, and the entry without frames.
sacch_missing : trx_sched_is_sacch_fn pchan_dynamic 1 32 false ≡ some true
unfolding trx_sched_is_sacch_fn sacch_at find_sched_mframe_idx find_from
sacch_missing = refl

sacch_division : trx_sched_is_sacch_fn pchan_none 1 32 false ≡ none
unfolding trx_sched_is_sacch_fn sacch_at sacch_in find_sched_mframe_idx find_from
sacch_division = refl

busy_12 : same_chan (chan_of true (frame_at (multiframe 6) 12)) trxc_idle ≡ false
unfolding chan_of frame_at multiframe
busy_12 = refl

period_6 : (multiframe 6).period ≡ 104
unfolding multiframe
period_6 = refl

multiframe-IsFollowed_example : IsFollowed (multiframe 6) true 12
multiframe-IsFollowed_example =
    multiframe-IsFollowed 6 true 12 (let p = period_6 in omega arith) busy_12

abbrev meas : Meas
meas = record {
  l1_valid = false;
  res_valid = false;
  ext_valid = false;
  res_nr = 0;
  num_ul_meas = 0;
  uplink = [];
  l1_info = record { ms_pwr = 0; fpc_epc = false; srr_sro = false; ta = 0 };
  ul_res = record { full_rx_lev = 0; full_rx_qual = 0; sub_rx_lev = 0; sub_rx_qual = 0 };
  ms_toa256 = pos 0;
  ul_ci_cb_full = pos 0;
  ul_ci_cb_sub = pos 0;
  last_fn = 0;
  ext = record { toa256_min = pos 0; toa256_max = pos 0; toa256_std_dev = 0 };
}

-- A full rate channel in timeslot 2, which is multiframe 8.
abbrev lchan : Lchan
lchan = record {
  chan_type = tch_f;
  pchan = pchan_tch_f;
  ts_nr = 2;
  nr = 0;
  tch_mode = speech_v1;
  is_data = false;
  meas = meas;
}

meas_complete_142 : is_meas_complete lchan 142 ≡ true
unfolding is_meas_complete complete_at translate_tch_meas_rep_fn104
meas_complete_142 = refl

meas_complete-IsBlockStart_example :
    IsBlockStart pchan_tch_f 0
      (frame_at (multiframe (index_or (find_sched_mframe_idx (phys pchan_tch_f) 2))) 142)
meas_complete-IsBlockStart_example =
    meas_complete-IsBlockStart lchan 142 (omega arith, omega arith) refl meas_complete_142

abbrev tdma : Tdma
tdma = record {
  fn_sum = λ (a b : ℕ). (a + b) % hyperframe;
  fn_sub = λ (a b : ℕ). (a + hyperframe - b) % hyperframe;
}

tdma_laws : TdmaLaws tdma
tdma_laws = record { fn_sum_lem = λ (a b : ℕ). refl; fn_sub_lem = λ (a b : ℕ) h l. refl }

-- A channel whose last burst was in frame 1.
abbrev chan_state : ChanState
chan_state = record {
  active = true;
  has_handler = true;
  ho_rach_detect = false;
  proc_tdma_fs = 1;
  last_tdma_fn = 1;
  lost_tdma_fs = 0;
  interf_avg = pos 0;
}

-- Three bursts of a full rate channel are lost.
lost_bursts : trx_sched_ul_burst tdma 6 (multiframe 6) chan_state 5 (negsuc 59) false ≡ (
  handled,
  (
    record chan_state { last_tdma_fn = 5; proc_tdma_fs = 2 },
    record { fn = 2; bid = 2; nope = true }
        ∷ record { fn = 3; bid = 3; nope = true }
        ∷ record { fn = 4; bid = 0; nope = true }
        ∷ record { fn = 5; bid = 1; nope = false }
        ∷ [],
  ),
)
unfolding trx_sched_ul_burst trx_sched_calc_frame_loss not_applicable fill_gap count_lost substitute
    hand_over frame_at multiframe
lost_bursts = refl

applicable_5 : not_applicable ((frame_at (multiframe 6) 5).ul_chan) ≡ false
unfolding not_applicable frame_at multiframe
applicable_5 = refl

same_5 :
    same_chan ((frame_at (multiframe 6) 1).ul_chan) ((frame_at (multiframe 6) 5).ul_chan) ≡ true
unfolding frame_at multiframe
same_5 = refl

ul_burst-IsRecovered_example :
    IsHandedOver
      (bursts_of ((frame_at (multiframe 6) 5).ul_chan))
      ((frame_at (multiframe 6) 1).ul_bid)
      (lost_in tdma (multiframe 6) ((frame_at (multiframe 6) 5).ul_chan) 1 (tdma.fn_sub 5 1 - 1) 1)
      (record { fn = 5; bid = (frame_at (multiframe 6) 5).ul_bid; nope = false })
      (trx_sched_ul_burst tdma 6 (multiframe 6) chan_state 5 (negsuc 59) false)
ul_burst-IsRecovered_example =
    let p = period_6 in
    ul_burst-IsRecovered tdma tdma_laws 6 6 chan_state 5 (negsuc 59) false (omega arith)
      (omega arith) refl refl refl (omega arith) refl applicable_5 same_5 (omega arith)
      (omega arith) (omega arith) (omega arith)

-- An inactive channel with noise at -60 dBm: the average goes half of the way.
noise :
    trx_sched_ul_burst tdma 6
      (multiframe 6)
      (record chan_state { active = false })
      5
      (negsuc 59)
      true
    ≡ (measured_noise, (record chan_state { active = false; interf_avg = negsuc 29 }, []))
unfolding trx_sched_ul_burst trx_sched_noise_meas is_dedic frame_at multiframe ◌+ℤ◌ ◌-ℤ◌ quot
noise = refl
