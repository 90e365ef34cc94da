-- ===== src/Sched/Mframe.antt =====
-- The table of the multiframes and its look-ups: find_sched_mframe_idx and trx_sched_is_sacch_fn of
-- src/common/scheduler_mframe.c.
use osmo_bts.Base.{
  ℕ, ◌+◌, ◌/◌, ◌%◌, ◌^◌, Bool, true, false, ◌&&◌, Option, none, some, List, [], ◌∷◌, get_or, ◌==◌,
  if◌then◌else◌,
}
use osmo_bts.Sched.Types.{
  TrxChan, Frame, burst, trxc_idle, trxc_sacch4_0, trxc_sacch4_1, trxc_sacch4_2, trxc_sacch4_3,
  trxc_sacch8_0, trxc_sacch8_1, trxc_sacch8_2, trxc_sacch8_3, trxc_sacch8_4, trxc_sacch8_5,
  trxc_sacch8_6, trxc_sacch8_7, trxc_sacchtf, trxc_sacchth_0, trxc_sacchth_1,
}
use osmo_bts.Sched.Bcch.{frame_bcch, frame_bcch_sdcch4}
use osmo_bts.Sched.BcchCbch.{frame_bcch_sdcch4_cbch}
use osmo_bts.Sched.Sdcch.{frame_sdcch8}
use osmo_bts.Sched.SdcchCbch.{frame_sdcch8_cbch}
use osmo_bts.Sched.Tchf01.{frame_tchf_ts0, frame_tchf_ts1}
use osmo_bts.Sched.Tchf23.{frame_tchf_ts2, frame_tchf_ts3}
use osmo_bts.Sched.Tchf45.{frame_tchf_ts4, frame_tchf_ts5}
use osmo_bts.Sched.Tchf67.{frame_tchf_ts6, frame_tchf_ts7}
use osmo_bts.Sched.Tchh03.{frame_tchh_ts01, frame_tchh_ts23}
use osmo_bts.Sched.Tchh47.{frame_tchh_ts45, frame_tchh_ts67}
use osmo_bts.Sched.Pdch.{frame_pdch}

-- enum gsm_phys_chan_config, the values of the table and the others.
pub data PhysChan : Type 0 where
  pchan_none pchan_ccch pchan_ccch_sdcch4 pchan_ccch_sdcch4_cbch pchan_sdcch8 : PhysChan
  pchan_sdcch8_cbch pchan_tch_f pchan_tch_h pchan_pdch pchan_dynamic : PhysChan

abbrev pub pchan_number : PhysChan → ℕ
pchan_number pchan_none = 0
pchan_number pchan_ccch = 1
pchan_number pchan_ccch_sdcch4 = 2
pchan_number pchan_ccch_sdcch4_cbch = 3
pchan_number pchan_sdcch8 = 4
pchan_number pchan_sdcch8_cbch = 5
pchan_number pchan_tch_f = 6
pchan_number pchan_tch_h = 7
pchan_number pchan_pdch = 8
pchan_number pchan_dynamic = 9

-- struct trx_sched_multiframe; the name is only logged.
pub record Multiframe : Type 0 where
  pub pchan : PhysChan
  pub slotmask : ℕ
  pub period : ℕ
  pub frames : List Frame

abbrev mframe : PhysChan → ℕ → ℕ → List Frame → Multiframe
mframe pchan slotmask period frames = record {
  pchan = pchan;
  slotmask = slotmask;
  period = period;
  frames = frames;
}

abbrev pub trx_sched_multiframes : List Multiframe
trx_sched_multiframes =
    mframe pchan_none 255 0 []
    ∷ mframe pchan_ccch 255 51 frame_bcch
    ∷ mframe pchan_ccch_sdcch4 255 102 frame_bcch_sdcch4
    ∷ mframe pchan_ccch_sdcch4_cbch 255 102 frame_bcch_sdcch4_cbch
    ∷ mframe pchan_sdcch8 255 102 frame_sdcch8
    ∷ mframe pchan_sdcch8_cbch 255 102 frame_sdcch8_cbch
    ∷ mframe pchan_tch_f 1 104 frame_tchf_ts0
    ∷ mframe pchan_tch_f 2 104 frame_tchf_ts1
    ∷ mframe pchan_tch_f 4 104 frame_tchf_ts2
    ∷ mframe pchan_tch_f 8 104 frame_tchf_ts3
    ∷ mframe pchan_tch_f 16 104 frame_tchf_ts4
    ∷ mframe pchan_tch_f 32 104 frame_tchf_ts5
    ∷ mframe pchan_tch_f 64 104 frame_tchf_ts6
    ∷ mframe pchan_tch_f 128 104 frame_tchf_ts7
    ∷ mframe pchan_tch_h 3 104 frame_tchh_ts01
    ∷ mframe pchan_tch_h 12 104 frame_tchh_ts23
    ∷ mframe pchan_tch_h 48 104 frame_tchh_ts45
    ∷ mframe pchan_tch_h 192 104 frame_tchh_ts67
    ∷ mframe pchan_pdch 255 104 frame_pdch
    ∷ []

-- Whether an entry serves_slot a channel in a timeslot.
abbrev pub serves_slot : PhysChan → ℕ → Multiframe → Bool
serves_slot pchan tn m = pchan_number m.pchan == pchan_number pchan && m.slotmask / 2 ^ tn % 2 == 1

-- The loop from entry `i` on; none is -1.
unfoldable pub find_from : List Multiframe → ℕ → PhysChan → ℕ → Option ℕ
find_from [] i pchan tn = none
find_from (m ∷ ms) i pchan tn =
    let rest = find_from ms (i + 1) pchan tn in if serves_slot pchan tn m then some i else rest

unfoldable pub find_sched_mframe_idx : PhysChan → ℕ → Option ℕ
find_sched_mframe_idx pchan tn = find_from trx_sched_multiframes 0 pchan tn

abbrev pub no_mframe : Multiframe
no_mframe = mframe pchan_none 255 0 []

abbrev pub idle_frame : Frame
idle_frame = burst trxc_idle 0 trxc_idle 0

-- The frame of a multiframe for a frame number.
unfoldable pub frame_at : Multiframe → ℕ → Frame
frame_at m fn = get_or m.frames (fn % m.period) idle_frame

unfoldable pub is_sacch : TrxChan → Bool
is_sacch trxc_sacch4_0 = true
is_sacch trxc_sacch4_1 = true
is_sacch trxc_sacch4_2 = true
is_sacch trxc_sacch4_3 = true
is_sacch trxc_sacch8_0 = true
is_sacch trxc_sacch8_1 = true
is_sacch trxc_sacch8_2 = true
is_sacch trxc_sacch8_3 = true
is_sacch trxc_sacch8_4 = true
is_sacch trxc_sacch8_5 = true
is_sacch trxc_sacch8_6 = true
is_sacch trxc_sacch8_7 = true
is_sacch trxc_sacchtf = true
is_sacch trxc_sacchth_0 = true
is_sacch trxc_sacchth_1 = true
is_sacch _ = false

-- The channel of a frame in a direction.
unfoldable pub chan_of : Bool → Frame → TrxChan
chan_of uplink f = if uplink then f.ul_chan else f.dl_chan

unfoldable pub bid_of : Bool → Frame → ℕ
bid_of uplink f = if uplink then f.ul_bid else f.dl_bid

-- None for the division by the period 0 of an entry without frames.
unfoldable pub sacch_in : Multiframe → ℕ → Bool → Option Bool
sacch_in m fn uplink =
    if m.period == 0 then none else some (is_sacch (chan_of uplink (frame_at m fn)))

-- The -EINVAL for a missing entry becomes true in the `bool` that is returned.
unfoldable pub sacch_at : Option ℕ → ℕ → Bool → Option Bool
sacch_at none fn uplink = some true
sacch_at (some i) fn uplink = sacch_in (get_or trx_sched_multiframes i no_mframe) fn uplink

unfoldable pub trx_sched_is_sacch_fn : PhysChan → ℕ → ℕ → Bool → Option Bool
trx_sched_is_sacch_fn pchan nr fn uplink = sacch_at (find_sched_mframe_idx pchan nr) fn uplink
