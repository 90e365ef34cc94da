-- ===== src/Power/Interval.antt =====
-- The control interval of src/common/power_control.c: how many SACCH blocks a loop skips.
use mathlib.Core.Path.{subst}
use osmo_bts.Base.{
  ℕ, zero, suc, ◌-◌, ◌*◌, ◌≤◌, ◌≡◌, refl, ap, sym, ◌∙◌, Bool, true, false, ◌&&◌, arith,
}
use osmo_bts.Base.Int.{ℤ, pos, ◌≤ℤ◌, ◌-ℤ◌, -ℤ_parts, eq_of_parts}
use osmo_bts.Power.Types.{Params, CtrlState}
use osmo_bts.Power.Filter.{ctrl_interval_skip_block}

-- The state after `n` blocks.
unfoldable pub after_blocks : ℕ → Params → CtrlState → CtrlState
after_blocks zero p s = s
after_blocks (suc n) p s = after_blocks n p ((ctrl_interval_skip_block p s).1)

-- Whether the first `n` blocks are all skipped.
unfoldable pub all_skipped : ℕ → Params → CtrlState → Bool
all_skipped zero p s = true
all_skipped (suc n) p s =
    (ctrl_interval_skip_block p s).0 && all_skipped n p ((ctrl_interval_skip_block p s).1)

-- A loop that acts at this block skips the blocks up to the one before the `k`-th, and acts there.
abbrev pub IsPeriod : ℕ → Params → CtrlState → Type 0
IsPeriod k p s =
    ((ctrl_interval_skip_block p s).0 ≡ false)
    × (all_skipped (k - 1) p (after_blocks 1 p s) ≡ true)
    × ((ctrl_interval_skip_block p (after_blocks k p s)).0 ≡ false)

skip_lem :
    (n : ℕ) (p : Params) (s : CtrlState)
    → s.skip_block_num ≡ pos (suc n)
    → ((ctrl_interval_skip_block p s).0 ≡ true)
      × ((ctrl_interval_skip_block p s).1.skip_block_num ≡ pos n)
unfolding ctrl_interval_skip_block ◌-ℤ◌
skip_lem n p s e = ground arith

act_lem :
    (p : Params) (s : CtrlState)
    → s.skip_block_num ≤ℤ pos 0
    → ((ctrl_interval_skip_block p s).0 ≡ false)
      × ((ctrl_interval_skip_block p s).1.skip_block_num ≡ pos (p.ctrl_interval * 2) -ℤ pos 1)
unfolding ctrl_interval_skip_block
act_lem p s h = ground arith

counted_down :
    (n : ℕ) (p : Params) (s : CtrlState)
    → s.skip_block_num ≡ pos n
    → (all_skipped n p s ≡ true) × ((after_blocks n p s).skip_block_num ≡ pos 0)
unfolding all_skipped after_blocks
counted_down zero p s e = (refl, e)
counted_down (suc n) p s e =
    let k = skip_lem n p s e in
    let h = counted_down n p ((ctrl_interval_skip_block p s).1) (k.1) in
    (ap (λ (b : Bool). b && all_skipped n p ((ctrl_interval_skip_block p s).1)) (k.0) ∙ h.0, h.1)

after_blocks-IsPeriod :
    (n : ℕ) (p : Params) (s : CtrlState)
    → p.ctrl_interval * 2 ≡ suc n
    → s.skip_block_num ≤ℤ pos 0
    → IsPeriod (suc n) p s
unfolding after_blocks
after_blocks-IsPeriod n p s e le =
    let a = act_lem p s le in
    let t = (ctrl_interval_skip_block p s).1 in
    let h = counted_down n p t (a.1 ∙ left n (p.ctrl_interval * 2) e) in
    (
      a.0,
      subst (λ (k : ℕ). all_skipped k p t ≡ true) (pred n) (h.0),
      (act_lem p (after_blocks n p t) (at_zero _ (h.1))).0,
    )
  where
    pred : (n : ℕ) → n ≡ suc n - 1
    pred n = omega arith

    left : (n m : ℕ) → m ≡ suc n → pos m -ℤ pos 1 ≡ pos n
    left n m e = let h = -ℤ_parts (pos m) (pos 1) in eq_of_parts _ _ (omega arith)

    at_zero : (z : ℤ) → z ≡ pos 0 → z ≤ℤ pos 0
    at_zero z e = ground arith

-- A loop whose interval is not 0 and that acts at this block skips all the blocks before the one
-- that stands twice the interval after it, and acts again at that one.
pub ctrl_interval-IsPeriod :
    (p : Params) (s : CtrlState)
    → 1 ≤ p.ctrl_interval
    → s.skip_block_num ≤ℤ pos 0
    → IsPeriod (p.ctrl_interval * 2) p s
ctrl_interval-IsPeriod p s pos_interval le =
    subst (λ (k : ℕ). IsPeriod k p s) (suc_pred _ (omega arith))
      (after_blocks-IsPeriod (p.ctrl_interval * 2 - 1) p s (sym (suc_pred _ (omega arith))) le)
  where
    suc_pred : (m : ℕ) → 1 ≤ m → suc (m - 1) ≡ m
    suc_pred m h = omega arith
