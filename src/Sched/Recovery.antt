-- ===== src/Sched/Recovery.antt =====
-- The bursts that a channel's handler gets after a loss: trx_sched_ul_burst of src/common/scheduler.c over
-- the multiframes of src/common/scheduler_mframe.c.
use mathlib.Core.Path.{subst}
use osmo_bts.Base.{
  ℕ, ◌+◌, ◌-◌, ◌%◌, ◌≤◌, ◌<◌, ◌≡◌, ◌≢◌, refl, sym, ◌∙◌, ap, Bool, true, false, not, List, [], ◌∷◌,
  ◌++◌, ◌==◌, arith,
}
use osmo_bts.Base.Int.{ℤ}
use osmo_bts.Sched.Types.{TrxChan, Frame, same_chan}
use osmo_bts.Sched.Mframe.{Multiframe, frame_at}
use osmo_bts.Sched.Order.{bursts_of, multiframe, if_false}
use osmo_bts.Sched.Loss.{
  Tdma, TdmaLaws, hyperframe, ChanState, BurstInd, not_applicable, fill_gap,
  trx_sched_calc_frame_loss, Result, handled, hand_over, trx_sched_ul_burst,
}
use osmo_bts.Sched.Filling.{IsChain, lost_in, chain_lem, frame_mod}
use osmo_bts.Sched.Gap.{
  period_dvd, followed_in, applicable-busy, fill_gap_lem, lost_in-nope, dummies,
}

-- The list has the dummies `xs` and then the burst received, and the numbers go on, in blocks of `n`
-- bursts, from the number `b`.
unfoldable pub IsRecovered : ℕ → ℕ → List BurstInd → BurstInd → List BurstInd → Type 0
IsRecovered n b xs y ys = (ys ≡ xs ++ y ∷ []) × (dummies xs ≡ true) × IsChain n b ys

-- The end of the gap, as a frame number.
elapsed_lem :
    (t : Tdma) (laws : TdmaLaws t) (fn last : ℕ)
    → fn < hyperframe
    → last < hyperframe
    → fn ≢ last
    → (0 < t.fn_sub fn last)
      × (t.fn_sub fn last < hyperframe)
      × ((last + t.fn_sub fn last) % hyperframe ≡ fn)
elapsed_lem t laws fn last h l n =
    let e = laws.fn_sub_lem fn last h l in (omega arith, omega arith, omega arith)

-- The search, where it is not left out.
calc_lem :
    (t : Tdma) (m : Multiframe) (s : ChanState) (c : TrxChan) (fn : ℕ)
    → not_applicable c ≡ false
    → s.ho_rach_detect ≡ false
    → 0 < s.proc_tdma_fs
    → t.fn_sub fn (s.last_tdma_fn) ≤ m.period
    → trx_sched_calc_frame_loss t m s c fn ≡ fill_gap t m s c (t.fn_sub fn (s.last_tdma_fn) - 1)
unfolding trx_sched_calc_frame_loss
calc_lem t m s c fn n h p le = ground arith

burst_lem :
    (t : Tdma) (mf_index : ℕ) (m : Multiframe) (s : ChanState) (fn : ℕ) (rssi : ℤ) (nope : Bool)
    → mf_index ≢ 0
    → s.active ≡ true
    → s.has_handler ≡ true
    → trx_sched_ul_burst t mf_index m s fn rssi nope ≡ (
      handled,
      hand_over fn
          (frame_at m fn)
          nope
          (trx_sched_calc_frame_loss t m s ((frame_at m fn).ul_chan) fn),
    )
unfolding trx_sched_ul_burst
burst_lem t i m s fn rssi nope h a b =
    let z : (i == 0) ≡ false = ground arith in
    if_false _ _ z ∙ if_false _ _ (ap not a) ∙ if_false _ _ (ap not b)

-- The frames between the last burst and this one.
gap-IsChain :
    (t : Tdma) (laws : TdmaLaws t) (j last fn : ℕ) (nope : Bool)
    → 0 < (multiframe j).period
    → not_applicable ((frame_at (multiframe j) fn).ul_chan) ≡ false
    → same_chan ((frame_at (multiframe j) last).ul_chan) ((frame_at (multiframe j) fn).ul_chan)
      ≡ true
    → fn < hyperframe
    → last < hyperframe
    → fn ≢ last
    → IsChain
        (bursts_of ((frame_at (multiframe j) fn).ul_chan))
        ((frame_at (multiframe j) last).ul_bid)
        (lost_in t
            (multiframe j)
            ((frame_at (multiframe j) fn).ul_chan)
            last
            (t.fn_sub fn last - 1)
            1
          ++ record { fn = fn; bid = (frame_at (multiframe j) fn).ul_bid; nope = nope } ∷ [])
gap-IsChain t laws j last fn nope p n s h l ne =
    let m = multiframe j in
    let f = frame_at m fn in
    let c = f.ul_chan in
    let d = period_dvd j p in
    let e = elapsed_lem t laws fn last h l ne in
    let y : BurstInd = record { fn = fn; bid = f.ul_bid; nope = nope } in
    let k = t.fn_sub fn last - 1 in
    let g : last + 1 + k ≡ last + t.fn_sub fn last = omega arith in
    let q : frame_at m (last + 1 + k) ≡ f =
      sym (frame_mod m (last + 1 + k) d)
      ∙ ap (λ x. frame_at m (x % hyperframe)) g
      ∙ ap (frame_at m) (e.2) in
    let fo = followed_in j c p (applicable-busy c n) in
    let refl_c : same_chan c c ≡ true = ground arith in
    let yc = subst (λ (q : Frame). same_chan (q.ul_chan) c ≡ true) (sym q) refl_c in
    chain_lem t laws m d c last y fo k 1 (last + 1) (m.period) ((frame_at m last).ul_bid) refl
      (ap (λ (q : Frame). q.ul_bid) (sym q)) yc (fo last s)

-- What the burst `y` leads to, after one with the number `b` and where the bursts `xs` were lost.
unfoldable pub IsHandedOver :
    ℕ → ℕ → List BurstInd → BurstInd → Result × (ChanState × List BurstInd) → Type 0
IsHandedOver n b xs y r =
    (r.0 ≡ handled)
    × ((r.1.0).last_tdma_fn ≡ y.fn)
    × ((r.1.0).lost_tdma_fs ≡ 0)
    × IsRecovered n b xs y (r.1.1)

-- A burst on an active channel with a handler, in a multiframe of the table with a period, at most
-- one period after the last one of the same channel and not in its frame, where the channel is not
-- one the search is left out for, no handover burst is awaited, bursts were processed before and
-- none are counted as lost: the handler gets a dummy for the channel's burst in each of the frames
-- between, in their order, and then the burst, so that the burst numbers go on without a gap in the
-- channel's blocks from that of the last burst; none stay counted as lost, and the burst's frame is
-- the new last one. The frame numbers are below the hyperframe.
pub ul_burst-IsRecovered :
    (t : Tdma) (laws : TdmaLaws t) (mf_index j : ℕ) (s : ChanState) (fn : ℕ) (rssi : ℤ)
    (nope : Bool)
    → mf_index ≢ 0
    → 0 < (multiframe j).period
    → s.active ≡ true
    → s.has_handler ≡ true
    → s.ho_rach_detect ≡ false
    → 0 < s.proc_tdma_fs
    → s.lost_tdma_fs ≡ 0
    → not_applicable ((frame_at (multiframe j) fn).ul_chan) ≡ false
    → same_chan
        ((frame_at (multiframe j) (s.last_tdma_fn)).ul_chan)
        ((frame_at (multiframe j) fn).ul_chan)
      ≡ true
    → fn < hyperframe
    → s.last_tdma_fn < hyperframe
    → fn ≢ s.last_tdma_fn
    → t.fn_sub fn (s.last_tdma_fn) ≤ (multiframe j).period
    → IsHandedOver
        (bursts_of ((frame_at (multiframe j) fn).ul_chan))
        ((frame_at (multiframe j) (s.last_tdma_fn)).ul_bid)
        (lost_in t
          (multiframe j)
          ((frame_at (multiframe j) fn).ul_chan)
          (s.last_tdma_fn)
          (t.fn_sub fn (s.last_tdma_fn) - 1)
          1)
        (record { fn = fn; bid = (frame_at (multiframe j) fn).ul_bid; nope = nope })
        (trx_sched_ul_burst t mf_index (multiframe j) s fn rssi nope)
unfolding hand_over IsHandedOver IsRecovered
ul_burst-IsRecovered t laws i j s fn rssi nope hi p a b ho pr lo n sc h l ne le =
    let m = multiframe j in
    let f = frame_at m fn in
    let c = f.ul_chan in
    let k = t.fn_sub fn (s.last_tdma_fn) - 1 in
    let e = elapsed_lem t laws fn (s.last_tdma_fn) h l ne in
    let r =
      burst_lem t i m s fn rssi nope hi a b
      ∙ ap (λ q. (handled, hand_over fn f nope q))
          (calc_lem t m s c fn n ho pr le ∙ fill_gap_lem t m s c k (omega arith) lo) in
    let y : BurstInd = record { fn = fn; bid = f.ul_bid; nope = nope } in
    subst
      (IsHandedOver (bursts_of c) ((frame_at m (s.last_tdma_fn)).ul_bid)
        (lost_in t m c (s.last_tdma_fn) k 1) y)
      (sym r)
      (
        refl,
        refl,
        refl,
        (
          refl,
          lost_in-nope t m c (s.last_tdma_fn) k 1,
          gap-IsChain t laws j (s.last_tdma_fn) fn nope p n sc h l ne,
        ),
      )
