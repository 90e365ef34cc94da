-- ===== src/Amr/Loop.antt =====
-- The adaptation of the codec mode, src/osmo-bts-trx/amr_loop.c.
use osmo_bts.Base.{ℕ, ◌+◌, ◌-◌, ◌*◌, ◌%◌, Bool, ◌&&◌, List, get_or, ltb, ◌==◌, if◌then◌else◌}
use osmo_bts.Base.Int.{ℤ, pos, ◌+ℤ◌, ltb_ℤ, quot}
use osmo_bts.Amr.Conf.{AmrMode, no_mode}

-- The fields of struct l1sched_chan_state that the loop reads and writes.
pub record ChanState : Type 0 where
  pub lqual_cb_num : ℕ
  pub lqual_cb_sum : ℤ
  pub ul_ft : ℕ
  pub dl_cmr : ℕ
  pub num_codecs : ℕ  -- codecs

-- THR_MX_Dn of the mode below and THR_MX_Up of the mode, in centibel.
unfoldable pub thresh_lower_cb : List AmrMode → ℕ → ℤ
thresh_lower_cb cfg mi = pos ((get_or cfg (mi - 1) no_mode).threshold * 5)

unfoldable pub thresh_upper_cb : List AmrMode → ℕ → ℤ
thresh_upper_cb cfg mi = let m = get_or cfg mi no_mode in pos (m.threshold * 5 + m.hysteresis * 5)

-- The mode after a decision with the average quality; dl_cmr is an uint8_t.
unfoldable pub decide : List AmrMode → ℕ → ℤ → ℕ → ℕ
decide cfg codecs lqual_cb mi =
    if ltb 0 mi && ltb_ℤ lqual_cb (thresh_lower_cb cfg mi)
    then mi - 1
    else if ltb (mi + 1) codecs && ltb_ℤ (thresh_upper_cb cfg mi) lqual_cb
    then (mi + 1) % 256
    else mi

-- The samples with those of a block added; a block of a half rate channel counts twice.
unfoldable pub add_samples : Bool → ℤ → ChanState → ChanState
add_samples is_tch_h ci_cb s =
    if is_tch_h
    then record s {
      lqual_cb_num = s.lqual_cb_num + 2;
      lqual_cb_sum = s.lqual_cb_sum +ℤ (ci_cb +ℤ ci_cb);
    }
    else record s { lqual_cb_num = s.lqual_cb_num + 1; lqual_cb_sum = s.lqual_cb_sum +ℤ ci_cb }

unfoldable pub adapt : List AmrMode → ChanState → ChanState
adapt cfg s =
    let lqual_cb = quot s.lqual_cb_sum s.lqual_cb_num in
    record s {
      lqual_cb_num = 0;
      lqual_cb_sum = pos 0;
      dl_cmr = decide cfg s.num_codecs lqual_cb s.ul_ft;
    }

unfoldable pub trx_loop_amr_input : Bool → List AmrMode → ℤ → ChanState → ChanState
trx_loop_amr_input is_tch_h cfg ci_cb s =
    let s' = add_samples is_tch_h ci_cb s in
    if s'.ul_ft == s'.dl_cmr then (if ltb s'.lqual_cb_num 48 then s' else adapt cfg s') else s'
