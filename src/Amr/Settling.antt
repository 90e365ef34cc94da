-- ===== src/Amr/Settling.antt =====
-- The decisions of src/osmo-bts-trx/amr_loop.c, one after the other, for a link of constant quality.
use osmo_bts.Base.{
  ℕ, zero, suc, ◌+◌, ◌-◌, ◌≤◌, ◌<◌, ◌≡◌, refl, sym, ◌∙◌, ap, Bool, true, false, ◌&&◌, List, get_or,
  ltb, if◌then◌else◌, arith, Bool-cases, inl, inr, ◌||◌, not,
}
use osmo_bts.Base.Int.{ℤ, ltb_ℤ}
use osmo_bts.Amr.Conf.{AmrMode, no_mode}
use osmo_bts.Amr.Loop.{thresh_lower_cb, thresh_upper_cb, decide}

pub decide-lt : (cfg : List AmrMode) (c : ℕ) (q : ℤ) (m : ℕ) → m < c → c ≤ 4 → decide cfg c q m < c
unfolding decide
decide-lt cfg c q m l h = ground arith

-- Decisions by the tests of the two thresholds, of which at most one of two neighbours holds.
module _ (low up : ℕ → Bool) (c : ℕ) (h : (i : ℕ) → (low (suc i) && up i) ≡ false) where
  unfoldable next_mode : ℕ → ℕ
  next_mode m = if ltb 0 m && low m then m - 1 else (if ltb (m + 1) c && up m then m + 1 else m)

  unfoldable iter : ℕ → ℕ → ℕ
  iter zero m = m
  iter (suc n) m = iter n (next_mode m)

  iter_fixed : (n m : ℕ) → next_mode m ≡ m → iter n m ≡ m
  unfolding iter
  iter_fixed zero m e = refl
  iter_fixed (suc n) m e = ap (iter n) e ∙ iter_fixed n m e

  settled : (n m : ℕ) → next_mode m ≡ m → next_mode (iter n m) ≡ iter n m
  settled n m e = ap next_mode (iter_fixed n m e) ∙ e ∙ sym (iter_fixed n m e)

  -- Without a reason to go down, the mode rises up to the last one.
  rise : (n m : ℕ) → (ltb 0 m && low m) ≡ false → c ≤ m + n + 1 → next_mode (iter n m) ≡ iter n m
  unfolding next_mode iter
  rise zero m l b = ground arith
  rise (suc n) m l b = elim (Bool-cases (ltb (m + 1) c && up m)) [
    | inl u ↦
        (let x = h m in
          let e : next_mode m ≡ suc m = ground arith in
          let r = rise n (suc m) (ground arith) (omega arith) in
          ap (λ k. next_mode (iter n k)) e ∙ r ∙ ap (iter n) (sym e))
    | inr u ↦ settled (suc n) m (ground arith)
  ]

  -- With a reason to go down or none to go up, it falls down to the first one.
  fall :
      (n m : ℕ)
      → ((ltb 0 m && low m) || not (ltb (m + 1) c && up m)) ≡ true
      → m ≤ n
      → next_mode (iter n m) ≡ iter n m
  unfolding next_mode iter
  fall n zero l b = settled n zero (ground arith)
  fall zero (suc m) l b = absurd (omega arith)
  fall (suc n) (suc m) l b = elim (Bool-cases (low (suc m))) [
    | inl d ↦
        (let x = h m in
          let e : next_mode (suc m) ≡ m = ground arith in
          let r = fall n m (ground arith) (omega arith) in
          ap (λ k. next_mode (iter n k)) e ∙ r ∙ ap (iter n) (sym e))
    | inr d ↦ settled (suc n) (suc m) (ground arith)
  ]

  settles : (m : ℕ) → m < 4 → c ≤ 4 → next_mode (iter 3 m) ≡ iter 3 m
  settles m l b = elim (Bool-cases (ltb 0 m && low m)) [
    | inl e ↦ fall 3 m (ground arith) (omega arith)
    | inr e ↦ rise 3 m e (omega arith)
  ]

-- The tests of the two thresholds.
abbrev is_low : List AmrMode → ℤ → ℕ → Bool
is_low cfg q m = ltb_ℤ q (thresh_lower_cb cfg m)

abbrev is_high : List AmrMode → ℤ → ℕ → Bool
is_high cfg q m = ltb_ℤ (thresh_upper_cb cfg m) q

not_both : (cfg : List AmrMode) (q : ℤ) (i : ℕ) → (is_low cfg q (suc i) && is_high cfg q i) ≡ false
unfolding thresh_lower_cb thresh_upper_cb
not_both cfg q i =
    let e : suc i - 1 ≡ i = omega arith in
    let f = ap (λ k. (get_or cfg k no_mode).threshold) e in ground arith

decide_lem :
    (cfg : List AmrMode) (c : ℕ) (q : ℤ) (m : ℕ)
    → c ≤ 4
    → decide cfg c q m ≡ next_mode (is_low cfg q) (is_high cfg q) c (not_both cfg q) m
unfolding decide next_mode
decide_lem cfg c q m l = ground arith

pub decide_three :
    (cfg : List AmrMode) (c : ℕ) (q : ℤ) (m : ℕ)
    → m < c
    → c ≤ 4
    → decide cfg c q (decide cfg c q (decide cfg c q (decide cfg c q m)))
      ≡ decide cfg c q (decide cfg c q (decide cfg c q m))
unfolding iter
decide_three cfg c q m l b =
    let next = next_mode (is_low cfg q) (is_high cfg q) c (not_both cfg q) in
    let s = settles (is_low cfg q) (is_high cfg q) c (not_both cfg q) m (omega arith) b in
    let e0 = decide_lem cfg c q m b in
    let e1 = decide_lem cfg c q (next m) b in
    let e2 = decide_lem cfg c q (next (next m)) b in
    let e3 = decide_lem cfg c q (next (next (next m))) b in cc
