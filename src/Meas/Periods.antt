-- ===== src/Meas/Periods.antt =====
-- Where the measurement periods end: is_meas_complete of src/common/measurement.c against the
-- tables of 3GPP TS 45.008, sections 8.4.1 and 8.4.2.
use osmo_bts.Base.{
  all_below, all_below_sound, ℕ, ◌+◌, ◌-◌, ◌*◌, ◌%◌, ◌<◌, ◌≡◌, refl, ◌∙◌, ap, Bool, true, false,
  ltb, ◌==◌, if◌then◌else◌, arith,
}
use osmo_bts.Meas.Types.{
  Pchan, pchan_tch_f, pchan_tch_h, sdcch8_sacch8c, sdcch8_sacch8c_cbch, ccch_sdcch4,
  ccch_sdcch4_cbch, other_pchan, Lchan,
}
use osmo_bts.Meas.Frames.{
  complete_at, is_meas_complete, translate_tch_meas_rep_fn104, modulus_by_pchan, modulus_by_lchan,
  entry_is, tchf_meas_rep_fn104_by_ts, tchh0_meas_rep_fn104_by_ts, tchh1_meas_rep_fn104_by_ts,
  sdcch8_meas_rep_fn102_by_ss, sdcch4_meas_rep_fn102_by_ss,
}

-- The channels with as many subchannels as the standard has, in one of the eight timeslots.
abbrev pub IsPlaced : Pchan → ℕ → ℕ → Type 0
IsPlaced pchan_tch_f ts nr = (ts < 8) × (nr < 1)
IsPlaced pchan_tch_h ts nr = (ts < 8) × (nr < 2)
IsPlaced sdcch8_sacch8c ts nr = (ts < 8) × (nr < 8)
IsPlaced sdcch8_sacch8c_cbch ts nr = (ts < 8) × (nr < 8)
IsPlaced ccch_sdcch4 ts nr = (ts < 8) × (nr < 4)
IsPlaced ccch_sdcch4_cbch ts nr = (ts < 8) × (nr < 4)
IsPlaced other_pchan ts nr = 0 < 0

-- The first SACCH block of a traffic channel in the period that begins at 13 frames for each
-- timeslot, a half rate channel being treated as the timeslot of its pair with its number.
abbrev pub tch_end : ℕ → ℕ
tch_end n = (12 + 13 * n) % 104

-- The last block of a signalling channel before frame 12, or frame 37, of the 102-multiframe.
abbrev pub sdcch8_end : ℕ → ℕ
sdcch8_end ss = if ltb ss 4 then 66 + 4 * ss else (98 + 4 * (ss - 4)) % 102

abbrev pub sdcch4_end : ℕ → ℕ
sdcch4_end ss = if ltb ss 2 then 88 + 4 * ss else 6 + 4 * (ss - 2)

abbrev pub end_frame : Pchan → ℕ → ℕ → ℕ
end_frame pchan_tch_f ts nr = tch_end ts
end_frame pchan_tch_h ts nr = tch_end (ts - ts % 2 + nr)
end_frame sdcch8_sacch8c ts nr = sdcch8_end nr
end_frame sdcch8_sacch8c_cbch ts nr = sdcch8_end nr
end_frame ccch_sdcch4 ts nr = sdcch4_end nr
end_frame ccch_sdcch4_cbch ts nr = sdcch4_end nr
end_frame other_pchan ts nr = 0

abbrev same : Bool → Bool → Bool
same true b = b
same false true = false
same false false = true

same_eq : (a b : Bool) → same a b ≡ true → a ≡ b
same_eq a b h = ground arith

abbrev agrees : Pchan → ℕ → ℕ → ℕ → Bool
agrees p ts nr fn = same (complete_at p ts nr fn) (end_frame p ts nr == fn)

-- The test of a whole multiframe of `m` frames on `a` timeslots and `b` subchannels.
abbrev table : Pchan → ℕ → ℕ → ℕ → Bool
table p a b m = all_below a (λ ts. all_below b (λ nr. all_below m (agrees p ts nr)))

from_table :
    (p : Pchan) (a b m ts nr fn : ℕ)
    → table p a b m ≡ true
    → ts < a
    → nr < b
    → fn < m
    → complete_at p ts nr fn ≡ (end_frame p ts nr == fn)
from_table p a b m ts nr fn h x y z =
    let h1 = all_below_sound a (λ ts. all_below b (λ nr. all_below m (agrees p ts nr))) ts h x in
    let h2 = all_below_sound b (λ nr. all_below m (agrees p ts nr)) nr h1 y in
    same_eq _ _ (all_below_sound m (agrees p ts nr) fn h2 z)

tch_f_table : table pchan_tch_f 8 1 104 ≡ true
unfolding complete_at translate_tch_meas_rep_fn104
tch_f_table = refl

tch_h_table : table pchan_tch_h 8 2 104 ≡ true
unfolding complete_at translate_tch_meas_rep_fn104
tch_h_table = refl

sdcch8_table : table sdcch8_sacch8c 8 8 102 ≡ true
unfolding complete_at
sdcch8_table = refl

sdcch4_table : table ccch_sdcch4 8 4 102 ≡ true
unfolding complete_at
sdcch4_table = refl

mod_104 : (n : ℕ) → n % 104 ≡ n % 104 % 104
mod_104 n = omega arith

mod_102 : (n : ℕ) → n % 102 ≡ n % 102 % 102
mod_102 n = omega arith

-- Only the position in the multiframe counts, and the table has all positions.
placed_lem :
    (p : Pchan) (ts nr fn : ℕ)
    → IsPlaced p ts nr
    → complete_at p ts nr fn ≡ (end_frame p ts nr == fn % modulus_by_pchan p)
unfolding complete_at modulus_by_pchan
placed_lem pchan_tch_f ts nr fn h =
    ap (λ k. entry_is tchf_meas_rep_fn104_by_ts ts (translate_tch_meas_rep_fn104 k)) (mod_104 fn)
    ∙ from_table pchan_tch_f 8 1 104 ts nr (fn % 104) tch_f_table (h.0) (h.1) (omega arith)
placed_lem pchan_tch_h ts nr fn h =
    ap
      (λ k.
        entry_is (if nr == 0 then tchh0_meas_rep_fn104_by_ts else tchh1_meas_rep_fn104_by_ts) ts
          (translate_tch_meas_rep_fn104 k))
      (mod_104 fn)
    ∙ from_table pchan_tch_h 8 2 104 ts nr (fn % 104) tch_h_table (h.0) (h.1) (omega arith)
placed_lem sdcch8_sacch8c ts nr fn h =
    ap (entry_is sdcch8_meas_rep_fn102_by_ss nr) (mod_102 fn)
    ∙ from_table sdcch8_sacch8c 8 8 102 ts nr (fn % 102) sdcch8_table (h.0) (h.1) (omega arith)
placed_lem sdcch8_sacch8c_cbch ts nr fn h =
    ap (entry_is sdcch8_meas_rep_fn102_by_ss nr) (mod_102 fn)
    ∙ from_table sdcch8_sacch8c 8 8 102 ts nr (fn % 102) sdcch8_table (h.0) (h.1) (omega arith)
placed_lem ccch_sdcch4 ts nr fn h =
    ap (entry_is sdcch4_meas_rep_fn102_by_ss nr) (mod_102 fn)
    ∙ from_table ccch_sdcch4 8 4 102 ts nr (fn % 102) sdcch4_table (h.0) (h.1) (omega arith)
placed_lem ccch_sdcch4_cbch ts nr fn h =
    ap (entry_is sdcch4_meas_rep_fn102_by_ss nr) (mod_102 fn)
    ∙ from_table ccch_sdcch4 8 4 102 ts nr (fn % 102) sdcch4_table (h.0) (h.1) (omega arith)
placed_lem other_pchan ts nr fn h = absurd (omega arith)

-- A measurement period of a placed channel ends at exactly one frame number of its multiframe,
-- that of the tables of 3GPP TS 45.008.
pub is_meas_complete-end_frame :
    (lchan : Lchan) (fn : ℕ)
    → IsPlaced (lchan.pchan) (lchan.ts_nr) (lchan.nr)
    → is_meas_complete lchan fn
      ≡ (end_frame (lchan.pchan) (lchan.ts_nr) (lchan.nr) == fn % modulus_by_lchan lchan)
unfolding is_meas_complete modulus_by_lchan
is_meas_complete-end_frame lchan fn h = placed_lem (lchan.pchan) (lchan.ts_nr) (lchan.nr) fn h
