-- ===== src/Sched/Alignment.antt =====
-- The ends of the measurement periods of src/common/measurement.c in the multiframes of
-- src/common/scheduler_mframe.c.
use mathlib.Core.Path.{subst}
use osmo_bts.Base.{
  all_below, all_below_sound, ℕ, ◌+◌, ◌%◌, ◌<◌, ◌≡◌, refl, sym, ◌∙◌, ap, Bool, true, false, ◌&&◌,
  ◌||◌, Option, none, some, ◌==◌, ==_iff, get_or, arith,
}
use osmo_bts.Meas.Types.{
  Lchan, Pchan, pchan_tch_f, pchan_tch_h, sdcch8_sacch8c, sdcch8_sacch8c_cbch, ccch_sdcch4,
  ccch_sdcch4_cbch, other_pchan,
}
use osmo_bts.Meas.Frames.{is_meas_complete, modulus_by_pchan, modulus_by_lchan}
use osmo_bts.Meas.Periods.{IsPlaced, end_frame, is_meas_complete-end_frame}
use osmo_bts.Sched.Types.{
  TrxChan, Frame, number, trxc_tchf, trxc_sacchtf, trxc_tchh_0, trxc_sacchth_0, trxc_sdcch8_0,
  trxc_sacch8_0, trxc_sdcch4_0, trxc_sacch4_0,
}
use osmo_bts.Sched.Mframe.{PhysChan, find_sched_mframe_idx, find_from, frame_at, idle_frame}
use osmo_bts.Sched.Order.{multiframe}

-- The configuration by its name in the scheduler.
abbrev pub phys : Pchan → PhysChan
phys pchan_tch_f = PhysChan.pchan_tch_f
phys pchan_tch_h = PhysChan.pchan_tch_h
phys sdcch8_sacch8c = PhysChan.pchan_sdcch8
phys sdcch8_sacch8c_cbch = PhysChan.pchan_sdcch8_cbch
phys ccch_sdcch4 = PhysChan.pchan_ccch_sdcch4
phys ccch_sdcch4_cbch = PhysChan.pchan_ccch_sdcch4_cbch
phys other_pchan = PhysChan.pchan_dynamic

-- The third subchannel carries the cell broadcasts.
abbrev pub is_cbch : Pchan → ℕ → Bool
is_cbch sdcch8_sacch8c_cbch nr = nr == 2
is_cbch ccch_sdcch4_cbch nr = nr == 2
is_cbch _ nr = false

-- Whether a logical channel is the main or the associated one of a subchannel.
abbrev pub is_own : Pchan → ℕ → TrxChan → Bool
is_own pchan_tch_f nr c = number c == number trxc_tchf || number c == number trxc_sacchtf
is_own pchan_tch_h nr c =
    number c == number trxc_tchh_0 + nr || number c == number trxc_sacchth_0 + nr
is_own sdcch8_sacch8c nr c =
    number c == number trxc_sdcch8_0 + nr || number c == number trxc_sacch8_0 + nr
is_own sdcch8_sacch8c_cbch nr c =
    number c == number trxc_sdcch8_0 + nr || number c == number trxc_sacch8_0 + nr
is_own ccch_sdcch4 nr c =
    number c == number trxc_sdcch4_0 + nr || number c == number trxc_sacch4_0 + nr
is_own ccch_sdcch4_cbch nr c =
    number c == number trxc_sdcch4_0 + nr || number c == number trxc_sacch4_0 + nr
is_own other_pchan nr c = false

abbrev pub index_or : Option ℕ → ℕ
index_or none = 0
index_or (some i) = i

abbrev starts : Pchan → ℕ → ℕ → Bool
starts p ts nr =
    let m = multiframe (index_or (find_sched_mframe_idx (phys p) ts)) in
    let f = get_or (m.frames) (end_frame p ts nr) idle_frame in
    is_cbch p nr || (m.period == modulus_by_pchan p && (f.ul_bid == 0 && is_own p nr (f.ul_chan)))

abbrev table : Pchan → ℕ → Bool
table p b = all_below 8 (λ ts. all_below b (λ nr. starts p ts nr))

tch_f_table : table pchan_tch_f 1 ≡ true
unfolding find_sched_mframe_idx find_from multiframe modulus_by_pchan
tch_f_table = refl

tch_h_table : table pchan_tch_h 2 ≡ true
unfolding find_sched_mframe_idx find_from multiframe modulus_by_pchan
tch_h_table = refl

sdcch8_table : table sdcch8_sacch8c 8 ≡ true
unfolding find_sched_mframe_idx find_from multiframe modulus_by_pchan
sdcch8_table = refl

sdcch8_cbch_table : table sdcch8_sacch8c_cbch 8 ≡ true
unfolding find_sched_mframe_idx find_from multiframe modulus_by_pchan
sdcch8_cbch_table = refl

sdcch4_table : table ccch_sdcch4 4 ≡ true
unfolding find_sched_mframe_idx find_from multiframe modulus_by_pchan
sdcch4_table = refl

sdcch4_cbch_table : table ccch_sdcch4_cbch 4 ≡ true
unfolding find_sched_mframe_idx find_from multiframe modulus_by_pchan
sdcch4_cbch_table = refl

from_table : (p : Pchan) (b ts nr : ℕ) → table p b ≡ true → ts < 8 → nr < b → starts p ts nr ≡ true
from_table p b ts nr h x y =
    let t = all_below_sound 8 (λ ts. all_below b (λ nr. starts p ts nr)) ts h x in
    all_below_sound b (starts p ts) nr t y

starts_lem : (p : Pchan) (ts nr : ℕ) → IsPlaced p ts nr → starts p ts nr ≡ true
starts_lem pchan_tch_f ts nr h = from_table pchan_tch_f 1 ts nr tch_f_table (h.0) (h.1)
starts_lem pchan_tch_h ts nr h = from_table pchan_tch_h 2 ts nr tch_h_table (h.0) (h.1)
starts_lem sdcch8_sacch8c ts nr h = from_table sdcch8_sacch8c 8 ts nr sdcch8_table (h.0) (h.1)
starts_lem sdcch8_sacch8c_cbch ts nr h =
    from_table sdcch8_sacch8c_cbch 8 ts nr sdcch8_cbch_table (h.0) (h.1)
starts_lem ccch_sdcch4 ts nr h = from_table ccch_sdcch4 4 ts nr sdcch4_table (h.0) (h.1)
starts_lem ccch_sdcch4_cbch ts nr h =
    from_table ccch_sdcch4_cbch 4 ts nr sdcch4_cbch_table (h.0) (h.1)
starts_lem other_pchan ts nr h = absurd (omega arith)

-- The uplink burst of a frame is the first of a block of the channel.
abbrev pub IsBlockStart : Pchan → ℕ → Frame → Type 0
IsBlockStart p nr f = (f.ul_bid ≡ 0) × (is_own p nr (f.ul_chan) ≡ true)

split_lem :
    (a : Bool) (n q b : ℕ) (o : Bool)
    → a ≡ false
    → (a || (n == q && (b == 0 && o))) ≡ true
    → (n ≡ q) × ((b ≡ 0) × (o ≡ true))
split_lem a n q b o e h = ground arith

-- When a measurement period of a placed channel ends, other than that of the cell broadcasts, the
-- uplink burst of the scheduler's multiframe at this frame number is the first burst of a block of
-- the same channel.
pub meas_complete-IsBlockStart :
    (lchan : Lchan) (fn : ℕ)
    → IsPlaced (lchan.pchan) (lchan.ts_nr) (lchan.nr)
    → is_cbch (lchan.pchan) (lchan.nr) ≡ false
    → is_meas_complete lchan fn ≡ true
    → IsBlockStart (lchan.pchan) (lchan.nr) (
        frame_at
          (multiframe (index_or (find_sched_mframe_idx (phys (lchan.pchan)) (lchan.ts_nr))))
          fn)
unfolding frame_at modulus_by_lchan
meas_complete-IsBlockStart lchan fn h c d =
    let p = lchan.pchan in
    let m = multiframe (index_or (find_sched_mframe_idx (phys p) (lchan.ts_nr))) in
    let s = starts_lem p (lchan.ts_nr) (lchan.nr) h in
    let e = sym (is_meas_complete-end_frame lchan fn h) ∙ d in
    let n = (==_iff (end_frame p (lchan.ts_nr) (lchan.nr)) (fn % modulus_by_pchan p)).0 e in
    let good : (m.period ≡ modulus_by_pchan p)
        × IsBlockStart p (lchan.nr)
            (get_or (m.frames) (end_frame p (lchan.ts_nr) (lchan.nr)) idle_frame) =
      split_lem (is_cbch p (lchan.nr)) _ _ _ _ c s in
    let k = n ∙ ap (λ q. fn % q) (sym (good.0)) in
    subst (λ i. IsBlockStart p (lchan.nr) (get_or (m.frames) i idle_frame)) k (good.1)
