-- ===== src/Power/MsBounds.antt =====
-- What the power control loop for the phone, in src/common/power_control.c, may request.
use mathlib.Core.Path.{subst}
use osmo_bts.Base.{
  ℕ, ◌≡◌, ◌⊎◌, inl, inr, refl, Bool, true, false, Option, some, none, arith, if_elim, ◌||◌, ◌&&◌,
}
use osmo_bts.Base.Int.{ℤ, pos, ◌≤ℤ◌, to_i8, ltb_ℤ, eqb_ℤ, pos_part}
use osmo_bts.Power.Types.{Params, CtrlState, MeasParams}
use osmo_bts.Power.Filter.{ctrl_interval_skip_block}
use osmo_bts.Power.Bounds.{ctrl_interval_keeps}
use osmo_bts.Power.Loop.{
  Levels, MsLchan, Outcome, ChanType, other_chan, kept, ms_clamp, ms_store, ms_averages, ms_decide,
  ms_for, ms_measured, ms_with, lchan_ms_pwr_ctrl, get_ci_thresholds, sdcch, pdtch, tch_f, tch_h,
}

-- The outcome keeps the level and tells nobody, or it requests the level of a power of `d` dBm.
abbrev pub IsMsOutcome : Levels → ℕ → ℕ → Outcome → Type 0
IsMsOutcome lv current max o =
    ((o.rc ≡ 0) × (o.adjst_ms_pwr ≡ false) × (o.ctrl.current ≡ current))
    ⊎ ((o.rc ≡ 1)
        × (o.adjst_ms_pwr ≡ true)
        × ((d : ℤ) × (pos 0 ≤ℤ d)
            × (d ≤ℤ to_i8 (lv.ms_pwr_dbm max))
            × (pos (o.ctrl.current) ≡ to_i8 (lv.ms_pwr_ctl_lvl d))))

-- The result is missing for a channel type that the assertion rejects, and only then.
abbrev pub IsMsResult : Levels → ChanType → ℕ → ℕ → Option Outcome → Type 0
IsMsResult lv t current max none = t ≡ other_chan
IsMsResult lv t current max (some o) = IsMsOutcome lv current max o

ms_clamp_bounds : (m d : ℤ) → pos 0 ≤ℤ m → (pos 0 ≤ℤ ms_clamp m d) × (ms_clamp m d ≤ℤ m)
unfolding ms_clamp
ms_clamp_bounds m d h = ground arith

kept-IsMsOutcome : (lv : Levels) (max : ℕ) (s : CtrlState) → IsMsOutcome lv (s.current) max (kept s)
unfolding kept
kept-IsMsOutcome lv max s = inl (refl, refl, refl)

ms_store-IsMsOutcome :
    (lv : Levels) (s : CtrlState) (ms d : ℤ)
    → pos 0 ≤ℤ d
    → d ≤ℤ to_i8 (lv.ms_pwr_dbm (s.max))
    → IsMsOutcome lv (s.current) (s.max) (ms_store lv s ms d)
unfolding ms_store kept
ms_store-IsMsOutcome lv s ms d lo hi =
    let lvl = to_i8 (lv.ms_pwr_ctl_lvl d) in
    let cur = to_i8 (lv.ms_pwr_dbm (s.current)) in
    if_elim (IsMsOutcome lv (s.current) (s.max))
      (ltb_ℤ lvl (pos 0) || (eqb_ℤ (pos (s.current)) lvl || (eqb_ℤ ms d && ltb_ℤ cur ms))) (kept s)
      (record { rc = 1; ctrl = record s { current = pos_part lvl }; adjst_ms_pwr = true })
      (λ e. inl (refl, refl, refl)) (λ e. inr (refl, refl, (d, lo, hi, from_part _ lvl e)))
  where
    from_part : (b : Bool) (l : ℤ) → (ltb_ℤ l (pos 0) || b) ≡ false → pos (pos_part l) ≡ l
    from_part b l e = ground arith

ms_for-IsMsResult :
    (lv : Levels) (p : Params) (t : ChanType) (ci : MeasParams) (s : CtrlState) (r q ms : ℤ)
    → pos 0 ≤ℤ to_i8 (lv.ms_pwr_dbm (s.max))
    → IsMsResult lv t
        (s.current)
        (s.max)
        (ms_for lv p (some ci) s r q ms (to_i8 (lv.ms_pwr_dbm (s.max))))
unfolding ms_for ms_decide ms_averages
ms_for-IsMsResult lv p t ci s r q ms h =
    let b = ms_clamp_bounds (to_i8 (lv.ms_pwr_dbm (s.max))) _ h in
    ms_store-IsMsOutcome lv _ ms _ (b.0) (b.1)

ms_typed-IsMsResult :
    (lv : Levels) (p : Params) (t : ChanType) (amr : Bool) (s : CtrlState) (r q ms : ℤ)
    → pos 0 ≤ℤ to_i8 (lv.ms_pwr_dbm (s.max))
    → IsMsResult lv t
        (s.current)
        (s.max)
        (ms_for lv p (get_ci_thresholds t amr p) s r q ms (to_i8 (lv.ms_pwr_dbm (s.max))))
unfolding get_ci_thresholds ms_for
ms_typed-IsMsResult lv p other_chan amr s r q ms h = refl
ms_typed-IsMsResult lv p sdcch amr s r q ms h = ms_for-IsMsResult lv p sdcch _ s r q ms h
ms_typed-IsMsResult lv p pdtch amr s r q ms h = ms_for-IsMsResult lv p pdtch _ s r q ms h
ms_typed-IsMsResult lv p tch_f amr s r q ms h = ms_for-IsMsResult lv p tch_f _ s r q ms h
ms_typed-IsMsResult lv p tch_h amr s r q ms h = ms_for-IsMsResult lv p tch_h _ s r q ms h

ms_measured-IsMsResult :
    (lv : Levels) (l : MsLchan) (p : Params) (s : CtrlState) (n : ℕ) (r q : ℤ)
    → IsMsResult lv (l.chan_type) (s.current) (s.max) (ms_measured lv l p s n r q)
unfolding ms_measured
ms_measured-IsMsResult lv l p s n r q =
    let ms = to_i8 (lv.ms_pwr_dbm n) in
    let max = to_i8 (lv.ms_pwr_dbm (s.max)) in
    if_elim (IsMsResult lv (l.chan_type) (s.current) (s.max))
      (ltb_ℤ ms (pos 0) || ltb_ℤ max (pos 0)) (some (kept s))
      (ms_for lv p (get_ci_thresholds (l.chan_type) (l.speech_amr) p) s r q ms max)
      (λ e. kept-IsMsOutcome lv (s.max) s)
      (λ e. ms_typed-IsMsResult lv p (l.chan_type) (l.speech_amr) s r q ms (right _ max e))
  where
    right : (b : Bool) (m : ℤ) → (b || ltb_ℤ m (pos 0)) ≡ false → pos 0 ≤ℤ m
    right b m e = ground arith

ms_after-IsMsResult :
    (lv : Levels) (l : MsLchan) (p : Params) (s t : CtrlState) (n : ℕ) (r q : ℤ)
    → (t.current ≡ s.current) × (t.max ≡ s.max)
    → IsMsResult lv (l.chan_type) (s.current) (s.max) (ms_measured lv l p t n r q)
ms_after-IsMsResult lv l p s t n r q (e, f) =
    subst (λ (c : ℕ). IsMsResult lv (l.chan_type) c (s.max) (ms_measured lv l p t n r q)) e
      (subst (λ (m : ℕ). IsMsResult lv (l.chan_type) (t.current) m (ms_measured lv l p t n r q)) f
        (ms_measured-IsMsResult lv l p t n r q))

ms_with-IsMsResult :
    (lv : Levels) (l : MsLchan) (o : Option Params) (n : ℕ) (r q : ℤ)
    → IsMsResult lv
        (l.chan_type)
        (l.ms_power_ctrl.current)
        (l.ms_power_ctrl.max)
        (ms_with lv l o n r q)
unfolding ms_with
ms_with-IsMsResult lv l none n r q = kept-IsMsOutcome lv _ (l.ms_power_ctrl)
ms_with-IsMsResult lv l (some p) n r q =
    let s = l.ms_power_ctrl in
    let b = ctrl_interval_skip_block p s in
    let k = ctrl_interval_keeps p s in
    if_elim (IsMsResult lv (l.chan_type) (s.current) (s.max)) (b.0) (some (kept (b.1)))
      (ms_measured lv l p (b.1) n r q)
      (λ e.
        subst (λ (c : ℕ). IsMsOutcome lv c (s.max) (kept (b.1))) (k.0)
          (kept-IsMsOutcome lv (s.max) (b.1)))
      (λ e. ms_after-IsMsResult lv l p s (b.1) n r q k)

-- For every channel and report, the loop for the phone either keeps the level and tells nobody,
-- or it requests the level of a power that is neither negative nor above the maximum of the BSC,
-- and tells the phy; it fails for a channel type without thresholds only.
pub lchan_ms_pwr_ctrl-IsMsResult :
    (lv : Levels) (l : MsLchan) (n : ℕ) (r q : ℤ)
    → IsMsResult lv
        (l.chan_type)
        (l.ms_power_ctrl.current)
        (l.ms_power_ctrl.max)
        (lchan_ms_pwr_ctrl lv l n r q)
unfolding lchan_ms_pwr_ctrl
lchan_ms_pwr_ctrl-IsMsResult lv l n r q =
    let s = l.ms_power_ctrl in
    if_elim (IsMsResult lv (l.chan_type) (s.current) (s.max)) (l.is_osmo)
      (ms_with lv l (s.dpc_params) n r q) (some (kept s))
      (λ e. ms_with-IsMsResult lv l (s.dpc_params) n r q) (λ e. kept-IsMsOutcome lv (s.max) s)
