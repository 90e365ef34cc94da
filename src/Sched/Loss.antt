-- ===== src/Sched/Loss.antt =====
-- Uplink bursts and those that got lost: trx_sched_ul_burst and trx_sched_calc_frame_loss of
-- src/common/scheduler.c. The bits of a burst, their decryption and the redirection to a shadow
-- timeslot are left out; what a handler of a
-- channel is called with is a list.
use osmo_bts.Base.{
  ℕ, zero, suc, ◌+◌, ◌-◌, ◌%◌, ◌<◌, ◌≡◌, Bool, true, false, ◌||◌, not, List, [], ◌∷◌, ◌++◌, ltb,
  ◌==◌, if◌then◌else◌,
}
use osmo_bts.Base.Int.{ℤ, ◌+ℤ◌, ◌-ℤ◌, quot}
use osmo_bts.Sched.Types.{
  TrxChan, Frame, same_chan, number, trxc_idle, trxc_rach, trxc_pdtch, trxc_ptcch, trxc_tchf,
}
use osmo_bts.Sched.Mframe.{Multiframe, frame_at}

-- GSM_TDMA_FN_SUM and GSM_TDMA_FN_SUB of libosmogsm: frame numbers modulo the hyperframe.
pub record Tdma : Type 0 where
  pub fn_sum : ℕ → ℕ → ℕ
  pub fn_sub : ℕ → ℕ → ℕ

-- The hyperframe of 3GPP TS 45.002 has 26 * 51 * 2048 frames.
abbrev pub hyperframe : ℕ
hyperframe = 2715648

pub record TdmaLaws (t : Tdma) : Type 0 where
  pub fn_sum_lem : (a b : ℕ) → t.fn_sum a b ≡ (a + b) % hyperframe
  pub fn_sub_lem :
      (a b : ℕ) → a < hyperframe → b < hyperframe → t.fn_sub a b ≡ (a + hyperframe - b) % hyperframe

-- The fields of struct l1sched_chan_state that the functions use, and whether the channel has a
-- handler for uplink bursts.
pub record ChanState : Type 0 where
  pub active : Bool
  pub has_handler : Bool
  pub ho_rach_detect : Bool
  pub proc_tdma_fs : ℕ
  pub last_tdma_fn : ℕ
  pub lost_tdma_fs : ℕ
  pub interf_avg : ℤ

-- struct trx_ul_burst_ind as a handler gets it: `nope` is the flag TRX_BI_F_NOPE_IND.
pub record BurstInd : Type 0 where
  pub fn : ℕ
  pub bid : ℕ
  pub nope : Bool

abbrev pub u32 : ℕ
u32 = 4294967296

unfoldable pub count_lost : Tdma → Multiframe → TrxChan → ℕ → ℕ → ℕ → ℕ → ℕ
count_lost t m c last zero i lost = lost
count_lost t m c last (suc k) i lost =
    count_lost t m c last k (suc i)
      (if same_chan ((frame_at m (t.fn_sum last i)).ul_chan) c then (lost + 1) % u32 else lost)

-- The loop that hands over a dummy for each lost burst; the counter comes with the bursts.
unfoldable pub substitute : Tdma → Multiframe → TrxChan → ℕ → ℕ → ℕ → ℕ → ℕ × List BurstInd
substitute t m c last zero i lost = (lost, [])
substitute t m c last (suc k) i lost =
    let fn_i = t.fn_sum last i in
    let frame = frame_at m fn_i in
    let skipped = substitute t m c last k (suc i) lost in
    let sent = substitute t m c last k (suc i) ((lost + u32 - 1) % u32) in
    if same_chan (frame.ul_chan) c
    then (sent.0, record { fn = fn_i; bid = frame.ul_bid; nope = true } ∷ sent.1)
    else skipped

-- The channels for which the search is left out.
unfoldable pub not_applicable : TrxChan → Bool
not_applicable trxc_idle = true
not_applicable trxc_rach = true
not_applicable trxc_pdtch = true
not_applicable trxc_ptcch = true
not_applicable _ = false

-- The rounds of both loops, from 1 to the number before the elapsed frames.
unfoldable pub fill_gap : Tdma → Multiframe → ChanState → TrxChan → ℕ → ChanState × List BurstInd
fill_gap t m s c rounds =
    let lost = count_lost t m c (s.last_tdma_fn) rounds 1 (s.lost_tdma_fs) in
    let r = substitute t m c (s.last_tdma_fn) rounds 1 lost in
    if lost == 0
    then (record s { lost_tdma_fs = lost }, [])
    else (record s { lost_tdma_fs = r.0 }, r.1)

-- The value returned is not used.
unfoldable pub trx_sched_calc_frame_loss :
    Tdma → Multiframe → ChanState → TrxChan → ℕ → ChanState × List BurstInd
trx_sched_calc_frame_loss t m s c fn =
    let elapsed_fs = t.fn_sub fn (s.last_tdma_fn) in
    if s.proc_tdma_fs == 0 || (not_applicable c || s.ho_rach_detect)
    then (s, [])
    else if ltb (m.period) elapsed_fs
    then (s, [])
    else fill_gap t m s c (elapsed_fs - 1)

-- The average on an inactive channel goes half of the way to a new value.
unfoldable pub trx_sched_noise_meas : ChanState → ℤ → ChanState
trx_sched_noise_meas s rssi = record s {
  interf_avg = s.interf_avg +ℤ quot (rssi -ℤ s.interf_avg) 2;
}

-- What the function does with a burst.
pub data Result : Type 0 where
  failed measured_noise ignored handled : Result

-- TRX_CHAN_IS_DEDIC
unfoldable pub is_dedic : TrxChan → Bool
is_dedic c = not (ltb (number c) (number trxc_tchf))

-- The burst is handed over after the dummies; `s` is the state of the channel of the frame.
unfoldable pub hand_over : ℕ → Frame → Bool → ChanState × List BurstInd → ChanState × List BurstInd
hand_over fn frame nope r = (
  record r.0 { last_tdma_fn = fn; proc_tdma_fs = (r.0.proc_tdma_fs + 1) % u32 },
  r.1 ++ (record { fn = fn; bid = frame.ul_bid; nope = nope } ∷ []),
)

-- `mf_index` is that of the timeslot; without one there is no multiframe.
unfoldable pub trx_sched_ul_burst :
    Tdma → ℕ → Multiframe → ChanState → ℕ → ℤ → Bool → Result × (ChanState × List BurstInd)
trx_sched_ul_burst t mf_index m s fn rssi nope =
    let frame = frame_at m fn in
    let c = frame.ul_chan in
    if mf_index == 0
    then (failed, (s, []))
    else if not (s.active)
    then (if is_dedic c || same_chan c trxc_idle
        then (measured_noise, (trx_sched_noise_meas s rssi, []))
        else (ignored, (s, [])))
    else if not (s.has_handler)
    then (failed, (s, []))
    else (handled, hand_over fn frame nope (trx_sched_calc_frame_loss t m s c fn))
