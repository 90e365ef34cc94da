-- ===== src/Sched/Filling.antt =====
-- What the handler of a channel gets from trx_sched_ul_burst of src/common/scheduler.c when bursts were
-- lost.
use mathlib.Core.Path.{subst}
use native.Mathlib.Nat.{mod-mod_of_dvd}
use Prim.Native.Nat.{◌∣◌}
use osmo_bts.Base.{
  get_or, ℕ, zero, suc, ◌+◌, ◌-◌, ◌%◌, ◌≤◌, ◌<◌, ◌≡◌, sym, ◌∙◌, ap, Bool, true, false, some, List,
  [], ◌∷◌, ◌++◌, length, if◌then◌else◌, arith, Bool-cases, inl, inr,
}
use osmo_bts.Sched.Types.{TrxChan, Frame, same_chan}
use osmo_bts.Sched.Mframe.{Multiframe, idle_frame, frame_at, chan_of, bid_of}
use osmo_bts.Sched.Order.{bursts_of, next_burst, if_false}
use osmo_bts.Sched.Loss.{Tdma, TdmaLaws, hyperframe, BurstInd, count_lost, substitute, u32}

-- The numbers of the bursts, each the next one of a block of `n` bursts after the one before.
unfoldable pub IsChain : ℕ → ℕ → List BurstInd → Type 0
IsChain n b [] = 0 ≤ 0
IsChain n b (x ∷ xs) = (x.bid ≡ (b + 1) % n) × IsChain n (x.bid) xs

-- The lost bursts of `k` frames from the `i`-th after `last` on.
unfoldable pub lost_in : Tdma → Multiframe → TrxChan → ℕ → ℕ → ℕ → List BurstInd
lost_in t m c last zero i = []
lost_in t m c last (suc k) i =
    let fn_i = t.fn_sum last i in
    let rest = lost_in t m c last k (suc i) in
    if same_chan ((frame_at m fn_i).ul_chan) c
    then record { fn = fn_i; bid = (frame_at m fn_i).ul_bid; nope = true } ∷ rest
    else rest

pub length-lost_in :
    (t : Tdma) (m : Multiframe) (c : TrxChan) (last k i : ℕ) → length (lost_in t m c last k i) ≤ k
unfolding lost_in
length-lost_in t m c last zero i = omega arith
length-lost_in t m c last (suc k) i = let r = length-lost_in t m c last k (suc i) in ground arith

pub count_lost_lem :
    (t : Tdma) (m : Multiframe) (c : TrxChan) (last k i lost : ℕ)
    → lost + k < u32
    → count_lost t m c last k i lost ≡ lost + length (lost_in t m c last k i)
unfolding count_lost lost_in
count_lost_lem t m c last zero i lost h = omega arith
count_lost_lem t m c last (suc k) i lost h =
    let r1 = count_lost_lem t m c last k (suc i) ((lost + 1) % u32) (omega arith) in
    let r2 = count_lost_lem t m c last k (suc i) lost (omega arith) in ground arith

pub if_true : {A : Type 0} {b : Bool} (x y : A) → b ≡ true → (if b then x else y) ≡ x
if_true x y h = ground arith

pub substitute_lem :
    (t : Tdma) (m : Multiframe) (c : TrxChan) (last k i lost : ℕ)
    → lost < u32
    → length (lost_in t m c last k i) ≤ lost
    → substitute t m c last k i lost
      ≡ (lost - length (lost_in t m c last k i), lost_in t m c last k i)
unfolding substitute lost_in
substitute_lem t m c last zero i lost h l =
    let n : lost ≡ lost - 0 = omega arith in ap (λ (n : ℕ). (n, [])) n
substitute_lem t m c last (suc k) i lost h l =
    let fn_i = t.fn_sum last i in
    let same = same_chan ((frame_at m fn_i).ul_chan) c in
    let x : BurstInd = record { fn = fn_i; bid = (frame_at m fn_i).ul_bid; nope = true } in
    let rest = lost_in t m c last k (suc i) in
    elim (Bool-cases same) [
      | inl e ↦
          let z = subst (λ (xs : List BurstInd). length xs ≤ lost) (if_true (x ∷ rest) rest e) l in
          let ih =
            substitute_lem t m c last k (suc i) ((lost + u32 - 1) % u32) (omega arith)
              (omega arith) in
          let n : (lost + u32 - 1) % u32 - length rest ≡ lost - suc (length rest) = omega arith in
          if_true _ _ e
          ∙ ap (λ (q : ℕ × List BurstInd). (q.0, x ∷ q.1)) ih
          ∙ ap (λ (n : ℕ). (n, x ∷ rest)) n
          ∙ sym (ap (λ (xs : List BurstInd). (lost - length xs, xs)) (if_true (x ∷ rest) rest e))
      | inr e ↦
          let z = subst (λ (xs : List BurstInd). length xs ≤ lost) (if_false (x ∷ rest) rest e) l in
          let ih = substitute_lem t m c last k (suc i) lost h z in
          if_false _ _ e
          ∙ ih
          ∙ sym (ap (λ (xs : List BurstInd). (lost - length xs, xs)) (if_false (x ∷ rest) rest e))
    ]

pub frame_mod :
    (m : Multiframe) (x : ℕ) → m.period ∣ hyperframe → frame_at m (x % hyperframe) ≡ frame_at m x
unfolding frame_at
frame_mod m x d = ap (λ n. get_or (m.frames) n idle_frame) (mod-mod_of_dvd (m.period) x d)

-- The next burst that the search finds.
found :
    (m : Multiframe) (c : TrxChan) (d g b : ℕ)
    → next_burst m true c d g ≡ some b
    → same_chan ((frame_at m g).ul_chan) c ≡ true
    → (frame_at m g).ul_bid ≡ b
unfolding next_burst chan_of bid_of
found m c zero g b e h = absurd (ground arith)
found m c (suc d) g b e h = ground arith

not_found :
    (m : Multiframe) (c : TrxChan) (d g b : ℕ)
    → next_burst m true c d g ≡ some b
    → same_chan ((frame_at m g).ul_chan) c ≡ false
    → (k : ℕ) × (next_burst m true c k (g + 1) ≡ some b)
unfolding next_burst chan_of bid_of
not_found m c zero g b e h = absurd (ground arith)
not_found m c (suc d) g b e h = (d, sym (if_false _ _ h) ∙ e)

module _ (t : Tdma) (laws : TdmaLaws t) (m : Multiframe) (dvd : m.period ∣ hyperframe) (c : TrxChan)
    (last : ℕ) (y : BurstInd) where
  -- The bursts of the `k` frames from frame `g` on, and then the one of the frame after them.
  pub chain_lem :
      (followed : (g : ℕ)
        → same_chan ((frame_at m g).ul_chan) c ≡ true
        → next_burst m true c (m.period) (g + 1) ≡ some (((frame_at m g).ul_bid + 1) % bursts_of c))
      (k i g d b : ℕ)
      → g ≡ last + i
      → y.bid ≡ (frame_at m (g + k)).ul_bid
      → same_chan ((frame_at m (g + k)).ul_chan) c ≡ true
      → next_burst m true c d g ≡ some ((b + 1) % bursts_of c)
      → IsChain (bursts_of c) b (lost_in t m c last k i ++ y ∷ [])
  unfolding IsChain lost_in
  chain_lem fo zero i g d b gi yb yc e =
      let z : g + zero ≡ g = omega arith in
      let w = subst (λ x. same_chan ((frame_at m x).ul_chan) c ≡ true) z yc in
      (yb ∙ ap (λ x. (frame_at m x).ul_bid) z ∙ found m c d g _ e w, omega arith)
  chain_lem fo (suc k) i g d b gi yb yc e =
      let fn_i = t.fn_sum last i in
      let same = same_chan ((frame_at m fn_i).ul_chan) c in
      let x : BurstInd = record { fn = fn_i; bid = (frame_at m fn_i).ul_bid; nope = true } in
      let rest = lost_in t m c last k (suc i) in
      let f : frame_at m fn_i ≡ frame_at m g =
        ap (frame_at m) (laws.fn_sum_lem last i)
        ∙ frame_mod m (last + i) dvd
        ∙ ap (frame_at m) (sym gi) in
      let n : g + suc k ≡ (g + 1) + k = omega arith in
      let gi2 : g + 1 ≡ last + suc i = omega arith in
      let yb2 = yb ∙ ap (λ x. (frame_at m x).ul_bid) n in
      let yc2 = subst (λ x. same_chan ((frame_at m x).ul_chan) c ≡ true) n yc in
      let Chain = λ (xs : List BurstInd). IsChain (bursts_of c) b (xs ++ y ∷ []) in
      elim (Bool-cases same) [
        | inl h ↦
            let w = subst (λ (q : Frame). same_chan (q.ul_chan) c ≡ true) f h in
            let xb : x.bid ≡ (frame_at m g).ul_bid = ap (λ (q : Frame). q.ul_bid) f in
            let next =
              subst (λ b. next_burst m true c (m.period) (g + 1) ≡ some ((b + 1) % bursts_of c))
                (sym xb) (fo g w) in
            subst Chain (sym (if_true (x ∷ rest) rest h)) (
              xb ∙ found m c d g _ e w,
              chain_lem fo k (suc i) (g + 1) (m.period) (x.bid) gi2 yb2 yc2 next,
            )
        | inr h ↦
            let w = subst (λ (q : Frame). same_chan (q.ul_chan) c ≡ false) f h in
            let r = not_found m c d g _ e w in
            subst Chain (sym (if_false (x ∷ rest) rest h))
              (chain_lem fo k (suc i) (g + 1) (r.0) b gi2 yb2 yc2 (r.1))
      ]
