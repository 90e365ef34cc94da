-- ===== src/TxPower/Progress.antt =====
-- How a ramp of src/common/tx_power.c proceeds: the timer fires, the phy completes the change,
-- and the next step is scheduled.
use mathlib.Core.Path.{subst}
use osmo_bts.Base.{
  ℕ, zero, suc, ◌+◌, ◌-◌, ◌*◌, ◌≤◌, ◌≡◌, refl, sym, ◌∙◌, Bool, true, false, not, ◌&&◌, arith,
  if◌then◌else◌, if_elim, Bool-cases, inl, inr, ◌⊎◌,
}
use osmo_bts.Base.Int.{
  ℤ, pos, negsuc, ◌+ℤ◌, ◌-ℤ◌, ◌≤ℤ◌, ltb_ℤ, eqb_ℤ, pos_part, neg_part, -ℤ_parts, eq_of_parts,
}
use osmo_bts.TxPower.Types.{Trx}
use osmo_bts.TxPower.Levels.{get_p_actual_mdbm}
use osmo_bts.TxPower.Ramp.{
  Effect, no_effect, completed, we_are_ramping_up, set_timer, set_attenuation, power_ramp_timer_cb,
  step_attenuation, power_ramp_do_step, power_trx_change_compl,
}

-- The timer of the ramp has expired.
unfoldable pub fire : Trx → Trx
fire t = (power_ramp_timer_cb (set_timer t false)).0

-- The timer expires and the phy completes the change with the power `p`.
unfoldable pub round : Trx → ℤ → Trx × Effect
round t p = power_trx_change_compl (fire t) p

unfoldable pub rounds : ℕ → Trx → ℤ → Trx
rounds zero t p = t
rounds (suc n) t p = rounds n ((round t p).0) p

-- How far the ramp is from its target.
unfoldable pub distance : ℤ → ℕ
distance a = pos_part a + neg_part a

-- `b` lies between `a` and 0.
abbrev pub IsBetween : ℤ → ℤ → Type 0
IsBetween a b = ((pos 0 ≤ℤ b) × (b ≤ℤ a)) ⊎ ((a ≤ℤ b) × (b ≤ℤ pos 0))

step_up : (a s : ℕ) → step_attenuation true (pos a) s ≡ pos (a - s)
unfolding step_attenuation ◌-ℤ◌
step_up a s = ground arith

step_down :
    (a : ℤ) (s : ℕ)
    → a ≤ℤ pos 0
    → (step_attenuation false a s ≤ℤ pos 0)
      × (distance (step_attenuation false a s) ≡ distance a - s)
      × (a ≤ℤ step_attenuation false a s)
unfolding step_attenuation ◌+ℤ◌ distance
step_down a s h = ground arith

up_iff : (tgt a : ℤ) → ltb_ℤ (tgt -ℤ a) tgt ≡ ltb_ℤ (pos 0) a
up_iff tgt a = let h = -ℤ_parts tgt a in ground arith

-- What one step does to an attenuation: it comes nearer to 0 by the step size.
abbrev pub IsNearer : ℤ → ℕ → ℤ → Type 0
IsNearer a s b = (distance b ≡ distance a - s) × IsBetween a b

gap : (n s : ℕ) → IsNearer (pos n) s (pos (n - s))
unfolding distance
gap n s = (omega arith, inl (omega arith, omega arith))

still : (a : ℤ) (s : ℕ) → eqb_ℤ a (pos 0) ≡ true → IsNearer a s a
unfolding distance
still (pos zero) s e = (omega arith, inl (omega arith, omega arith))
still (pos (suc n)) s e = absurd (ground arith)
still (negsuc n) s e = absurd (ground arith)

step-IsNearer : (a : ℤ) (s : ℕ) → IsNearer a s (step_attenuation (ltb_ℤ (pos 0) a) a s)
step-IsNearer a s = elim (Bool-cases (ltb_ℤ (pos 0) a)) [
  | inl e ↦ subst (λ (b : Bool). IsNearer a s (step_attenuation b a s)) (sym e) (above a s e)
  | inr e ↦ subst (λ (b : Bool). IsNearer a s (step_attenuation b a s)) (sym e) (below a s e)
]
  where
    above : (a : ℤ) (s : ℕ) → ltb_ℤ (pos 0) a ≡ true → IsNearer a s (step_attenuation true a s)
    above (pos n) s e = subst (IsNearer (pos n) s) (sym (step_up n s)) (gap n s)
    above (negsuc n) s e = absurd (ground arith)

    at_most : (a : ℤ) → ltb_ℤ (pos 0) a ≡ false → a ≤ℤ pos 0
    at_most a e = ground arith

    below : (a : ℤ) (s : ℕ) → ltb_ℤ (pos 0) a ≡ false → IsNearer a s (step_attenuation false a s)
    below a s e = let h = step_down a s (at_most a e) in (h.1, inr (h.2, h.0))

-- A round leaves the target, the step size and the callback, and the attenuation comes nearer.
abbrev pub IsRound : Trx → Trx → Type 0
IsRound t u =
    IsNearer (t.ramp.attenuation_mdb) (t.ramp.step_size_mdb) (u.ramp.attenuation_mdb)
    × (u.ramp.step_size_mdb ≡ t.ramp.step_size_mdb)
    × (u.p_total_tgt_mdbm ≡ t.p_total_tgt_mdbm)
    × (u.ramp.compl_cb ≡ t.ramp.compl_cb)

-- In every round the attenuation of the ramp comes nearer to 0 by the step size, without passing
-- it, on the way up and on the way down; target, step size and callback stay.
pub round-IsRound : (t : Trx) (p : ℤ) → IsRound t ((round t p).0)
unfolding round power_trx_change_compl power_ramp_do_step fire power_ramp_timer_cb get_p_actual_mdbm
    we_are_ramping_up
round-IsRound t p =
    let a = t.ramp.attenuation_mdb in
    let s = t.ramp.step_size_mdb in
    let b = step_attenuation (ltb_ℤ (t.p_total_tgt_mdbm -ℤ a) (t.p_total_tgt_mdbm)) a s in
    if_elim (λ (r : Trx × Effect). IsRound t (r.0)) (not false && eqb_ℤ a (pos 0))
      (fire t, if t.ramp.compl_cb then completed else no_effect)
      (set_timer (set_attenuation (fire t) b) true, no_effect)
      (λ e. (still a s e, refl, refl, refl))
      (λ e. (
        subst (λ (u : Bool). IsNearer a s (step_attenuation u a s)) (sym (up_iff _ a))
            (step-IsNearer a s),
        refl,
        refl,
        refl,
      ))

rounds-distance :
    (n : ℕ) (t : Trx) (p : ℤ)
    → (distance ((rounds n t p).ramp.attenuation_mdb)
        ≡ distance (t.ramp.attenuation_mdb) - n * t.ramp.step_size_mdb)
      × ((rounds n t p).p_total_tgt_mdbm ≡ t.p_total_tgt_mdbm)
      × ((rounds n t p).ramp.compl_cb ≡ t.ramp.compl_cb)
unfolding rounds
rounds-distance zero t p = (omega arith, refl, refl)
rounds-distance (suc n) t p =
    let r = round-IsRound t p in
    let h = rounds-distance n ((round t p).0) p in
    (together _ _ _ _ n (h.0) (r.0.0) (r.1), h.1 ∙ r.2, h.2 ∙ r.3)
  where
    together : (d e f k n : ℕ) {s : ℕ} → d ≡ e - n * k → e ≡ f - s → k ≡ s → d ≡ f - suc n * s
    together d e f k n h i j = grind arith

-- The transceiver has reached its target: the timer finds the target power, and the phy's
-- completion of the change ends the ramp, with a call of the callback if one is set.
abbrev pub HasArrived : Trx → ℤ → Type 0
HasArrived t p =
    ((fire t).p_total_cur_mdbm ≡ t.p_total_tgt_mdbm)
    × ((round t p).0 ≡ fire t)
    × ((round t p).1 ≡ (if t.ramp.compl_cb then completed else no_effect))

arrived : (t : Trx) (p : ℤ) → distance (t.ramp.attenuation_mdb) ≡ 0 → HasArrived t p
unfolding round power_trx_change_compl power_ramp_do_step fire power_ramp_timer_cb get_p_actual_mdbm
    distance we_are_ramping_up
arrived t p e =
    let a = t.ramp.attenuation_mdb in
    let b =
      step_attenuation (ltb_ℤ (t.p_total_tgt_mdbm -ℤ a) (t.p_total_tgt_mdbm)) a
        (t.ramp.step_size_mdb) in
    let ended = (if t.ramp.compl_cb then completed else no_effect) in
    let r =
      if_elim (λ (r : Trx × Effect). (r.0 ≡ fire t) × (r.1 ≡ ended)) (not false && eqb_ℤ a (pos 0))
        (fire t, ended) (set_timer (set_attenuation (fire t) b) true, no_effect) (λ z. (refl, refl))
        (λ z. absurd (ground arith)) in
    (same (t.p_total_tgt_mdbm) a e, r.0, r.1)
  where
    same : (g a : ℤ) → pos_part a + neg_part a ≡ 0 → g -ℤ a ≡ g
    same g a e = let h = -ℤ_parts g a in eq_of_parts _ _ (omega arith)

-- A ramp reaches its target: after a number of rounds whose steps make up the distance to it, the
-- timer finds the target that was set, and the next completion ends the ramp with its callback.
pub rounds-HasArrived :
    (n : ℕ) (t : Trx) (p : ℤ)
    → distance (t.ramp.attenuation_mdb) ≤ n * t.ramp.step_size_mdb
    → HasArrived (rounds n t p) p × ((rounds n t p).p_total_tgt_mdbm ≡ t.p_total_tgt_mdbm)
rounds-HasArrived n t p le =
    let h = rounds-distance n t p in (arrived (rounds n t p) p (omega arith), h.1)
