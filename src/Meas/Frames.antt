-- ===== src/Meas/Frames.antt =====
-- Which frame numbers belong to the SUB set of a channel and where its measurement period ends: the
-- tables and ts45008_83_is_sub, is_meas_complete and modulus_by_lchan of src/common/measurement.c.
use osmo_bts.Base.{ℕ, ◌%◌, Bool, true, false, ◌||◌, List, [], ◌∷◌, ◌==◌, get_or, if◌then◌else◌}
use osmo_bts.Power.Loop.{ChanType, sdcch, tch_f, tch_h}
use osmo_bts.Meas.Types.{
  Pchan, pchan_tch_f, pchan_tch_h, sdcch8_sacch8c, sdcch8_sacch8c_cbch, ccch_sdcch4,
  ccch_sdcch4_cbch, other_pchan, ChanMode, sign, speech_v1, speech_v1_vamos, speech_efr,
  speech_v2_vamos, speech_amr, Lchan,
}

-- The entries of the table that are 1.
unfoldable pub ts45008_dtx_tchh_speech_fn_map : ℕ → Bool
ts45008_dtx_tchh_speech_fn_map fn104 = (fn104 == 0 || fn104 == 52) || (fn104 == 14 || fn104 == 66)

unfoldable pub ts45008_dtx_tchh_data_fn_map : ℕ → Bool
ts45008_dtx_tchh_data_fn_map fn104 = (fn104 == 52 || fn104 == 60) || (fn104 == 70 || fn104 == 79)

-- A mode of a full rate channel with a subset of its own.
unfoldable pub is_sub_tch_f : ChanMode → Bool → ℕ → Bool
is_sub_tch_f sign is_data fn104 = fn104 == 52
is_sub_tch_f speech_v1 is_data fn104 = fn104 == 52
is_sub_tch_f speech_v1_vamos is_data fn104 = fn104 == 52
is_sub_tch_f speech_efr is_data fn104 = fn104 == 52
is_sub_tch_f speech_v2_vamos is_data fn104 = fn104 == 52
is_sub_tch_f _ is_data fn104 = if is_data then fn104 == 52 else false

unfoldable pub is_sub_tch_h : ChanMode → Bool → ℕ → Bool
is_sub_tch_h speech_v1 is_data fn104 = ts45008_dtx_tchh_speech_fn_map fn104
is_sub_tch_h speech_v1_vamos is_data fn104 = ts45008_dtx_tchh_speech_fn_map fn104
is_sub_tch_h sign is_data fn104 = true
is_sub_tch_h _ is_data fn104 = if is_data then ts45008_dtx_tchh_data_fn_map fn104 else false

-- The switch on the type of the channel.
unfoldable pub is_sub_by_type : ChanType → ChanMode → Bool → ℕ → Bool
is_sub_by_type tch_f mode is_data fn104 = is_sub_tch_f mode is_data fn104
is_sub_by_type tch_h mode is_data fn104 = is_sub_tch_h mode is_data fn104
is_sub_by_type sdcch mode is_data fn104 = true
is_sub_by_type _ mode is_data fn104 = false

-- An AMR channel has no fixed subset.
unfoldable pub is_sub_by_mode : ChanType → ChanMode → Bool → ℕ → Bool
is_sub_by_mode type speech_amr is_data fn104 = false
is_sub_by_mode type mode is_data fn104 = is_sub_by_type type mode is_data fn104

unfoldable pub ts45008_83_is_sub : Lchan → ℕ → Bool
ts45008_83_is_sub lchan fn =
    is_sub_by_mode (lchan.chan_type) (lchan.tch_mode) (lchan.is_data) (fn % 104)

-- 255 stands for an entry out of bounds, which the source does not read.
abbrev pub tchf_meas_rep_fn104_by_ts : List ℕ
tchf_meas_rep_fn104_by_ts = 90 ∷ 103 ∷ 12 ∷ 25 ∷ 38 ∷ 51 ∷ 64 ∷ 77 ∷ []

abbrev pub tchh0_meas_rep_fn104_by_ts : List ℕ
tchh0_meas_rep_fn104_by_ts = 90 ∷ 90 ∷ 12 ∷ 12 ∷ 38 ∷ 38 ∷ 64 ∷ 64 ∷ []

abbrev pub tchh1_meas_rep_fn104_by_ts : List ℕ
tchh1_meas_rep_fn104_by_ts = 103 ∷ 103 ∷ 25 ∷ 25 ∷ 51 ∷ 51 ∷ 77 ∷ 77 ∷ []

abbrev pub sdcch8_meas_rep_fn102_by_ss : List ℕ
sdcch8_meas_rep_fn102_by_ss = 66 ∷ 70 ∷ 74 ∷ 78 ∷ 98 ∷ 0 ∷ 4 ∷ 8 ∷ []

abbrev pub sdcch4_meas_rep_fn102_by_ss : List ℕ
sdcch4_meas_rep_fn102_by_ss = 88 ∷ 92 ∷ 6 ∷ 10 ∷ []

unfoldable pub translate_tch_meas_rep_fn104 : ℕ → ℕ
translate_tch_meas_rep_fn104 fn_mod =
    if fn_mod == 25
    then 103
    else if fn_mod == 38
    then 12
    else if fn_mod == 51
    then 25
    else if fn_mod == 64
    then 38
    else if fn_mod == 77
    then 51
    else if fn_mod == 90
    then 64
    else if fn_mod == 103
    then 77
    else if fn_mod == 12
    then 90
    else 0

-- Whether the entry of the table is the frame number.
abbrev pub entry_is : List ℕ → ℕ → ℕ → Bool
entry_is tbl i fn_mod = get_or tbl i 255 == fn_mod

-- The switch of is_meas_complete, with the numbers of the timeslot and of the channel in it.
unfoldable pub complete_at : Pchan → ℕ → ℕ → ℕ → Bool
complete_at pchan_tch_f ts nr fn =
    entry_is tchf_meas_rep_fn104_by_ts ts (translate_tch_meas_rep_fn104 (fn % 104))
complete_at pchan_tch_h ts nr fn =
    entry_is (if nr == 0 then tchh0_meas_rep_fn104_by_ts else tchh1_meas_rep_fn104_by_ts) ts
      (translate_tch_meas_rep_fn104 (fn % 104))
complete_at sdcch8_sacch8c ts nr fn = entry_is sdcch8_meas_rep_fn102_by_ss nr (fn % 102)
complete_at sdcch8_sacch8c_cbch ts nr fn = entry_is sdcch8_meas_rep_fn102_by_ss nr (fn % 102)
complete_at ccch_sdcch4 ts nr fn = entry_is sdcch4_meas_rep_fn102_by_ss nr (fn % 102)
complete_at ccch_sdcch4_cbch ts nr fn = entry_is sdcch4_meas_rep_fn102_by_ss nr (fn % 102)
complete_at other_pchan ts nr fn = false

-- True for the 1 of the source, false for its 0.
unfoldable pub is_meas_complete : Lchan → ℕ → Bool
is_meas_complete lchan fn = complete_at (lchan.pchan) (lchan.ts_nr) (lchan.nr) fn

unfoldable pub modulus_by_pchan : Pchan → ℕ
modulus_by_pchan pchan_tch_f = 104
modulus_by_pchan pchan_tch_h = 104
modulus_by_pchan other_pchan = 1
modulus_by_pchan _ = 102

unfoldable pub modulus_by_lchan : Lchan → ℕ
modulus_by_lchan lchan = modulus_by_pchan (lchan.pchan)
