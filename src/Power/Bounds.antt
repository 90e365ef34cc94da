-- ===== src/Power/Bounds.antt =====
-- The steps of the downlink power control loop of src/common/power_control.c.
use mathlib.Core.Path.{subst}
use osmo_bts.Base.{
  ℕ, ◌+◌, ◌≤◌, ◌<◌, ◌≡◌, ◌∙◌, sym, ap, ◌&&◌, leb, refl, Bool, Option, some, arith, ltb,
  if◌then◌else◌, if_elim,
}
use osmo_bts.Base.Int.{ℤ, pos, ◌-ℤ◌, to_u8, to_u8-pos, pos_part, -ℤ_parts, neg_part}
use osmo_bts.Power.Types.{Params, CtrlState}
use osmo_bts.Power.Filter.{calc_delta_rxlev, clamp_delta, ctrl_interval_skip_block, calc_target}
use osmo_bts.Power.Loop.{
  bs_wanted, bs_clamp, bs_store, bs_decide, bs_with, lchan_bs_pwr_ctrl, MeasRes,
}

-- A change from one step down to one step up.
abbrev pub IsDelta : Params → ℤ → Type 0
IsDelta p d =
    (neg_part d ≤ pos_part d + p.red_step_size_db) × (pos_part d ≤ p.inc_step_size_db + neg_part d)

clamp_delta_bounds : (p : Params) (d : ℤ) → IsDelta p (clamp_delta p d)
unfolding clamp_delta
clamp_delta_bounds p d = ground arith

-- One round of the loop changes the level by one step of its direction at most.
pub calc_delta_rxlev_bounds : (p : Params) (l : ℕ) → IsDelta p (calc_delta_rxlev p l)
unfolding calc_delta_rxlev
calc_delta_rxlev_bounds p l =
    if_elim (IsDelta p) (leb (p.rxlev_meas.lower_thresh) l && leb l (p.rxlev_meas.upper_thresh))
      (pos 0) (clamp_delta p (pos (calc_target (p.rxlev_meas)) -ℤ pos l)) (λ e. ground arith)
      (λ e. clamp_delta_bounds p (pos (calc_target (p.rxlev_meas)) -ℤ pos l))

-- Where an attenuation may go in one round from `old`.
abbrev pub IsBsStep : Params → ℕ → ℕ → ℕ → Type 0
IsBsStep p max old new =
    (new ≤ max) × (old ≤ new + p.inc_step_size_db) × (new ≤ old + p.red_step_size_db)

abbrev IsNear : Params → ℕ → ℤ → Type 0
IsNear p old a =
    (old + neg_part a ≤ pos_part a + p.inc_step_size_db)
    × (pos_part a ≤ old + p.red_step_size_db + neg_part a)

bs_wanted-IsNear : (p : Params) (old q l : ℕ) → IsNear p old (bs_wanted p old q l)
unfolding bs_wanted
bs_wanted-IsNear p old q l =
    let h = calc_delta_rxlev_bounds p l in
    let i = -ℤ_parts (pos old) (pos (p.inc_step_size_db)) in
    let j = -ℤ_parts (pos old) (calc_delta_rxlev p l) in
    if_elim (IsNear p old) (ltb (p.rxqual_meas.lower_thresh) q)
      (pos old -ℤ pos (p.inc_step_size_db))
      (if ltb q (p.rxqual_meas.upper_thresh)
        then pos (old + p.red_step_size_db)
        else pos old -ℤ calc_delta_rxlev p l)
      (λ e. (omega arith, omega arith))
      (λ e.
        if_elim (IsNear p old) (ltb q (p.rxqual_meas.upper_thresh)) (pos (old + p.red_step_size_db))
          (pos old -ℤ calc_delta_rxlev p l) (λ f. (omega arith, omega arith))
          (λ f. (omega arith, omega arith)))

bs_clamp-IsBsStep :
    (p : Params) (max old : ℕ) (a : ℤ)
    → old ≤ max
    → IsNear p old a
    → (bs_clamp max a ≡ pos (pos_part (bs_clamp max a)))
      × IsBsStep p max old (pos_part (bs_clamp max a))
unfolding bs_clamp
bs_clamp-IsBsStep p max old a le (h, i) = ground arith

stay : (p : Params) {max old : ℕ} → old ≤ max → IsBsStep p max old old
stay p le = (le, omega arith, omega arith)

bs_store-IsBsStep :
    (p : Params) (s : CtrlState) (a : ℤ)
    → s.current ≤ s.max
    → s.max < 256
    → IsNear p (s.current) a
    → IsBsStep p (s.max) (s.current) ((bs_store s (bs_clamp (s.max) a)).0.current)
unfolding bs_store
bs_store-IsBsStep p s a le lt near =
    let h = bs_clamp-IsBsStep p (s.max) (s.current) a le near in
    let e = ap to_u8 (h.0) ∙ to_u8-pos (pos_part (bs_clamp (s.max) a)) (omega arith) in
    if_elim (λ (r : CtrlState × ℕ). IsBsStep p (s.max) (s.current) (r.0.current)) _ _ _
      (λ t. stay p le) (λ t. subst (IsBsStep p (s.max) (s.current)) (sym e) (h.1))

bs_decide-IsBsStep :
    (p : Params) (s : CtrlState) (l q : ℕ)
    → s.current ≤ s.max
    → s.max < 256
    → IsBsStep p (s.max) (s.current) ((bs_decide p s l q).0.current)
unfolding bs_decide
bs_decide-IsBsStep p s l q le lt = bs_store-IsBsStep p _ _ le lt (bs_wanted-IsNear p _ _ _)

pub ctrl_interval_keeps :
    (p : Params) (s : CtrlState)
    → ((ctrl_interval_skip_block p s).1.current ≡ s.current)
      × ((ctrl_interval_skip_block p s).1.max ≡ s.max)
unfolding ctrl_interval_skip_block
ctrl_interval_keeps p s =
    if_elim (λ (r : Bool × CtrlState). (r.1.current ≡ s.current) × (r.1.max ≡ s.max)) _ _ _
      (λ e. (refl, refl)) (λ e. (refl, refl))

bs_after-IsBsStep :
    (p : Params) (s t : CtrlState) (l q : ℕ)
    → (t.current ≡ s.current) × (t.max ≡ s.max)
    → s.current ≤ s.max
    → s.max < 256
    → IsBsStep p (s.max) (s.current) ((bs_decide p t l q).0.current)
bs_after-IsBsStep p s t l q (e, f) le lt =
    let h = bs_decide-IsBsStep p t l q (omega arith) (omega arith) in
    (omega arith, omega arith, omega arith)

-- With control parameters `p` and an attenuation that is permitted, a round of the loop for the
-- downlink leaves it at most `max`, lowers it by at most one step up in power and raises it by
-- at most one step down in power, whatever is measured.
pub lchan_bs_pwr_ctrl-IsBsStep :
    (p : Params) (s : CtrlState) (dl : Bool) (mr : MeasRes)
    → s.dpc_params ≡ some p
    → s.current ≤ s.max
    → s.max < 256
    → IsBsStep p (s.max) (s.current) ((lchan_bs_pwr_ctrl s dl mr).0.current)
unfolding lchan_bs_pwr_ctrl bs_with
lchan_bs_pwr_ctrl-IsBsStep p s dl mr e le lt =
    let k = ctrl_interval_keeps p s in
    let b = ctrl_interval_skip_block p s in
    let Good = λ (r : CtrlState × ℕ). IsBsStep p (s.max) (s.current) (r.0.current) in
    subst (λ (o : Option Params). Good (bs_with o s dl mr)) (sym e)
      (if_elim Good (b.0) (b.1, 0)
        (if dl
          then bs_decide p (b.1) (mr.rxlev_sub) (mr.rxqual_sub)
          else bs_decide p (b.1) (mr.rxlev_full) (mr.rxqual_full))
        (λ t. subst (IsBsStep p (s.max) (s.current)) (sym (k.0)) (stay p le))
        (λ t.
          if_elim Good dl (bs_decide p (b.1) (mr.rxlev_sub) (mr.rxqual_sub))
            (bs_decide p (b.1) (mr.rxlev_full) (mr.rxqual_full))
            (λ d. bs_after-IsBsStep p s (b.1) (mr.rxlev_sub) (mr.rxqual_sub) k le lt)
            (λ d. bs_after-IsBsStep p s (b.1) (mr.rxlev_full) (mr.rxqual_full) k le lt)))
