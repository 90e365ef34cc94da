-- ===== src/Amr/Windows.antt =====
-- The adaptation of src/osmo-bts-trx/amr_loop.c, block by block, with a link of constant quality and
-- a phone that uses the mode it is asked for.
use osmo_bts.Base.{
  ℕ, zero, suc, ◌+◌, ◌*◌, ◌≤◌, ◌<◌, ◌≡◌, refl, sym, ◌∙◌, ap, false, List, ltb, arith, Bool-cases,
  inl, inr,
}
use native.Mathlib.Nat.{suc-add, zero-add}
use osmo_bts.Base.Int.{ℤ, pos, negsuc, ◌+ℤ◌, quot, scale}
use osmo_bts.Amr.Conf.{AmrMode}
use osmo_bts.Amr.Loop.{ChanState, decide, add_samples, adapt, trx_loop_amr_input}
use osmo_bts.Amr.Settling.{decide-lt, decide_three}

-- A block of a full rate channel from a phone that follows the request.
unfoldable pub block : List AmrMode → ℤ → ChanState → ChanState
block cfg q s = trx_loop_amr_input false cfg q (record s { ul_ft = s.dl_cmr })

unfoldable pub blocks : List AmrMode → ℤ → ℕ → ChanState → ChanState
blocks cfg q zero s = s
blocks cfg q (suc n) s = blocks cfg q n (block cfg q s)

-- Full rate blocks: the state with k of the 48 samples of a decision.
abbrev part : ℕ → ℕ → ℤ → ℕ → ℕ → ChanState
part c k q u m = record {
  lqual_cb_num = k;
  lqual_cb_sum = scale k q;
  ul_ft = u;
  dl_cmr = m;
  num_codecs = c;
}

add_sample : (k : ℕ) (q : ℤ) → scale k q +ℤ q ≡ scale (k + 1) q
unfolding scale ◌+ℤ◌
add_sample k (pos a) =
    let e : (k + 1) * a ≡ k * a + a = omega arith in let z : k * 0 ≡ 0 = omega arith in ground arith
add_sample k (negsuc a) =
    let e : (k + 1) * suc a ≡ k * suc a + suc a = omega arith in
    let z : k * 0 ≡ 0 = omega arith in ground arith

zero_samples : (q : ℤ) → pos 0 ≡ scale 0 q
unfolding scale
zero_samples q = ground arith

average : (q : ℤ) → quot (scale 48 q) 48 ≡ q
unfolding quot scale
average q = ground arith

block_sample :
    (cfg : List AmrMode) (q : ℤ) (c k u m : ℕ)
    → k < 47
    → block cfg q (part c k q u m) ≡ part c (k + 1) q m m
unfolding block trx_loop_amr_input add_samples
block_sample cfg q c k u m l = let e = add_sample k q in ground arith

block_decision :
    (cfg : List AmrMode) (q : ℤ) (c u m : ℕ)
    → block cfg q (part c 47 q u m) ≡ part c 0 q m (decide cfg c q m)
unfolding block trx_loop_amr_input add_samples adapt
block_decision cfg q c u m =
    let e : quot (scale 47 q +ℤ q) 48 ≡ q = ap (λ z. quot z 48) (add_sample 47 q) ∙ average q in
    let z : pos 0 ≡ scale 0 q = zero_samples q in ground arith

-- The rest of a window of 48 samples.
window :
    (cfg : List AmrMode) (q : ℤ) (c n k u m : ℕ)
    → k + n ≡ 47
    → blocks cfg q (suc n) (part c k q u m) ≡ part c 0 q m (decide cfg c q m)
unfolding blocks
window cfg q c zero k u m e =
    ap (λ k. block cfg q (part c k q u m)) (omega arith) ∙ block_decision cfg q c u m
window cfg q c (suc n) k u m e =
    ap (blocks cfg q (suc n)) (block_sample cfg q c k u m (omega arith))
    ∙ window cfg q c n (k + 1) m m (omega arith)

blocks-add :
    (cfg : List AmrMode) (q : ℤ) (a b : ℕ) (s : ChanState)
    → blocks cfg q (a + b) s ≡ blocks cfg q b (blocks cfg q a s)
unfolding blocks
blocks-add cfg q zero b s = ap (λ n. blocks cfg q n s) (zero-add b)
blocks-add cfg q (suc a) b s =
    ap (λ n. blocks cfg q n s) (suc-add a b) ∙ blocks-add cfg q a b (block cfg q s)

-- A mode that a decision keeps stays.
stays :
    (cfg : List AmrMode) (q : ℤ) (c n k u m : ℕ)
    → k < 48
    → decide cfg c q m ≡ m
    → (blocks cfg q n (part c k q u m)).dl_cmr ≡ m
unfolding blocks
stays cfg q c zero k u m l e = refl
stays cfg q c (suc n) k u m l e = elim (Bool-cases (ltb k 47)) [
  | inl b ↦
      ap (λ s. (blocks cfg q n s).dl_cmr) (block_sample cfg q c k u m (ground arith))
      ∙ stays cfg q c n (k + 1) m m (ground arith) e
  | inr b ↦
      (let f : k ≡ 47 = ground arith in
        let d = block_decision cfg q c u m in
        ap (λ k. (blocks cfg q n (block cfg q (part c k q u m))).dl_cmr) f
        ∙ ap (λ s. (blocks cfg q n s).dl_cmr) d
        ∙ ap (λ m'. (blocks cfg q n (part c 0 q m m')).dl_cmr) e
        ∙ stays cfg q c n 0 m m (omega arith) e)
]

three_windows :
    (cfg : List AmrMode) (q : ℤ) (c u m n : ℕ)
    → blocks cfg q (144 + n) (part c 0 q u m)
      ≡ blocks cfg q n (
          part c 0 q
            (decide cfg c q (decide cfg c q m))
            (decide cfg c q (decide cfg c q (decide cfg c q m))))
three_windows cfg q c u m n =
    let d = decide cfg c q in
    let w1 = window cfg q c 47 0 u m refl in
    let w2 = window cfg q c 47 0 m (d m) refl in
    let w3 = window cfg q c 47 0 (d m) (d (d m)) refl in
    blocks-add cfg q 144 n (part c 0 q u m)
    ∙ ap (blocks cfg q n) (
        blocks-add cfg q 48 96 (part c 0 q u m)
        ∙ ap (blocks cfg q 96) w1
        ∙ blocks-add cfg q 48 48 (part c 0 q m (d m))
        ∙ ap (blocks cfg q 48) w2
        ∙ w3)

-- On a full rate channel with one to four codecs and a mode among them, with no samples yet, a link of constant
-- quality and a phone that uses the mode it is asked for, the mode is a codec after 144 blocks and never changes after
-- that.
pub blocks-settle :
    (cfg : List AmrMode) (q : ℤ) (s : ChanState) (n : ℕ)
    → s.lqual_cb_num ≡ 0
    → s.lqual_cb_sum ≡ pos 0
    → s.dl_cmr < s.num_codecs
    → s.num_codecs ≤ 4
    → ((blocks cfg q (144 + n) s).dl_cmr ≡ (blocks cfg q 144 s).dl_cmr)
      × ((blocks cfg q 144 s).dl_cmr < s.num_codecs)
blocks-settle cfg q s n z y l b =
    let c = s.num_codecs in
    let u = s.ul_ft in
    let m = s.dl_cmr in
    let d = decide cfg c q in
    let x = zero_samples q in
    let e : s ≡ part c 0 q u m = ground arith in
    let r0 : (blocks cfg q 144 s).dl_cmr ≡ d (d (d m)) =
      ap (λ s. (blocks cfg q 144 s).dl_cmr) e
      ∙ ap (λ s. s.dl_cmr) (three_windows cfg q c u m 0)
      ∙ stays cfg q c 0 0 (d (d m)) (d (d (d m))) (omega arith) (decide_three cfg c q m l b) in
    let rn : (blocks cfg q (144 + n) s).dl_cmr ≡ d (d (d m)) =
      ap (λ s. (blocks cfg q (144 + n) s).dl_cmr) e
      ∙ ap (λ s. s.dl_cmr) (three_windows cfg q c u m n)
      ∙ stays cfg q c n 0 (d (d m)) (d (d (d m))) (omega arith) (decide_three cfg c q m l b) in
    let l1 = decide-lt cfg c q m l b in
    let l2 = decide-lt cfg c q (d m) l1 b in
    let l3 = decide-lt cfg c q (d (d m)) l2 b in (rn ∙ sym r0, ground arith)
