-- ===== src/Sched/Gap.antt =====
-- What the search for lost bursts of src/common/scheduler.c finds in a multiframe of the table.
use Prim.Native.Nat.{◌∣◌}
use mathlib.Core.Path.{subst}
use native.Mathlib.Nat.{dvd_of_mod-eq-zero}
use osmo_bts.Base.{
  ℕ, zero, suc, ◌+◌, ◌-◌, ◌%◌, ◌<◌, ◌≡◌, refl, sym, ◌∙◌, ap, Bool, true, false, Bool-cases, inl,
  inr, some, ◌||◌, List, [], ◌∷◌, length, all, get_or-all, ◌==◌, if◌then◌else◌, arith,
}
use osmo_bts.Sched.Types.{TrxChan, same_chan, trxc_idle}
use osmo_bts.Sched.Mframe.{Multiframe, trx_sched_multiframes, no_mframe, frame_at, chan_of, bid_of}
use osmo_bts.Sched.Order.{bursts_of, next_burst, multiframe, multiframe-IsFollowed, if_false}
use osmo_bts.Sched.Loss.{
  Tdma, hyperframe, ChanState, BurstInd, count_lost, substitute, not_applicable, fill_gap, u32,
}
use osmo_bts.Sched.Filling.{lost_in, length-lost_in, count_lost_lem, substitute_lem, if_true}

same_chan_eq : (a b : TrxChan) → same_chan a b ≡ true → a ≡ b
same_chan_eq a b h = ground arith

abbrev divides : Multiframe → Bool
divides m = m.period == 0 || hyperframe % m.period == 0

periods_divide : all divides trx_sched_multiframes ≡ true
periods_divide = refl

divides_lem : (m : Multiframe) → 0 < m.period → divides m ≡ true → m.period ∣ hyperframe
divides_lem m p h = let z : hyperframe % m.period ≡ 0 = ground arith in dvd_of_mod-eq-zero _ z

multiframe-divides : (j : ℕ) → divides (multiframe j) ≡ true
unfolding multiframe
multiframe-divides j = get_or-all divides trx_sched_multiframes j no_mframe periods_divide refl

pub period_dvd : (j : ℕ) → 0 < (multiframe j).period → (multiframe j).period ∣ hyperframe
period_dvd j p = divides_lem (multiframe j) p (multiframe-divides j)

-- One frame of the channel is followed by the next one's burst.
pub followed_in :
    (j : ℕ) (c : TrxChan)
    → 0 < (multiframe j).period
    → same_chan c trxc_idle ≡ false
    → (g : ℕ) → same_chan ((frame_at (multiframe j) g).ul_chan) c ≡ true
    → next_burst (multiframe j) true c ((multiframe j).period) (g + 1)
      ≡ some (((frame_at (multiframe j) g).ul_bid + 1) % bursts_of c)
unfolding chan_of bid_of
followed_in j c p n g h =
    let m = multiframe j in
    let f = frame_at m g in
    let e = same_chan_eq (f.ul_chan) c h in
    let Busy = λ (c : TrxChan). same_chan c trxc_idle ≡ false in
    subst (λ c. next_burst m true c (m.period) (g + 1) ≡ some ((f.ul_bid + 1) % bursts_of c)) e
      (multiframe-IsFollowed j true g p (subst Busy (sym e) n))

pub applicable-busy : (c : TrxChan) → not_applicable c ≡ false → same_chan c trxc_idle ≡ false
unfolding not_applicable
applicable-busy c h = ground arith

length-zero : (xs : List BurstInd) → length xs ≡ 0 → xs ≡ []
length-zero [] h = refl
length-zero (x ∷ xs) h = absurd (ground arith)

-- The end of `fill_gap`.
unfoldable gap_result : ChanState → ℕ → ℕ × List BurstInd → ChanState × List BurstInd
gap_result s n q =
    if n == 0 then (record s { lost_tdma_fs = n }, []) else (record s { lost_tdma_fs = q.0 }, q.1)

pub fill_gap_lem :
    (t : Tdma) (m : Multiframe) (s : ChanState) (c : TrxChan) (k : ℕ)
    → k < u32
    → s.lost_tdma_fs ≡ 0
    → fill_gap t m s c k ≡ (record s { lost_tdma_fs = 0 }, lost_in t m c (s.last_tdma_fn) k 1)
unfolding fill_gap gap_result
fill_gap_lem t m s c k h l =
    let last = s.last_tdma_fn in
    let xs = lost_in t m c last k 1 in
    let le = length-lost_in t m c last k 1 in
    let n : count_lost t m c last k 1 (s.lost_tdma_fs) ≡ length xs =
      let r = count_lost_lem t m c last k 1 (s.lost_tdma_fs) (omega arith) in omega arith in
    let r = substitute_lem t m c last k 1 (length xs) (omega arith) (omega arith) in
    let d : length xs - length xs ≡ 0 = omega arith in
    ap (λ n. gap_result s n (substitute t m c last k 1 n)) n
    ∙ ap (gap_result s (length xs)) r
    ∙ elim (Bool-cases (length xs == 0)) [
      | inl e ↦
          let z : length xs ≡ 0 = ground arith in
          if_true _ _ e
          ∙ ap (λ n. (record s { lost_tdma_fs = n }, [])) z
          ∙ ap (λ xs. (record s { lost_tdma_fs = 0 }, xs)) (sym (length-zero xs z))
      | inr e ↦ if_false _ _ e ∙ ap (λ n. (record s { lost_tdma_fs = n }, xs)) d
    ]

abbrev pub dummies : List BurstInd → Bool
dummies xs = all (λ (x : BurstInd). x.nope) xs

dummies_if :
    (b : Bool) (x : BurstInd) (xs : List BurstInd)
    → x.nope ≡ true
    → dummies xs ≡ true
    → dummies (if b then x ∷ xs else xs) ≡ true
dummies_if true x xs h l = ground arith
dummies_if false x xs h l = l

pub lost_in-nope :
    (t : Tdma) (m : Multiframe) (c : TrxChan) (last k i : ℕ)
    → dummies (lost_in t m c last k i) ≡ true
unfolding lost_in
lost_in-nope t m c last zero i = refl
lost_in-nope t m c last (suc k) i =
    dummies_if _ _ (lost_in t m c last k (suc i)) refl (lost_in-nope t m c last k (suc i))
