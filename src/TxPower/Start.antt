-- ===== src/TxPower/Start.antt =====
-- How a ramp of src/common/tx_power.c begins.
use osmo_bts.Base.{
  leb→le, Option, none, some, ℕ, ◌+◌, ◌≡◌, ◌⊎◌, inl, inr, refl, Bool, true, false, not, ◌&&◌, arith,
  if◌then◌else◌, if_elim,
}
use osmo_bts.Base.Int.{
  ℤ, pos, ◌+ℤ◌, ◌-ℤ◌, ◌≤ℤ◌, ltb_ℤ, leb_ℤ, pos_part, neg_part, -ℤ_parts, +ℤ_parts,
}
use osmo_bts.TxPower.Types.{Trx}
use osmo_bts.TxPower.Levels.{get_p_actual_mdbm, get_p_nominal_mdbm}
use osmo_bts.TxPower.Ramp.{
  Effect, we_are_ramping_up, power_ramp_timer_cb, step_attenuation, power_ramp_do_step, jump,
  begin_ramp, shortcut, ramp_to, with_target, power_ramp_start, power_ramp_abort,
}

-- The power that the transceiver has once the pending step is made.
unfoldable pub next_power : Trx → ℤ
next_power t = get_p_actual_mdbm t (t.p_total_tgt_mdbm)

-- A power `p` that is at most one step above `cur`, or at most the maximum initial power.
abbrev pub IsGentle : Trx → ℤ → Type 0
IsGentle t p =
    (p ≤ℤ t.p_total_cur_mdbm +ℤ pos (t.ramp.step_size_mdb)) ⊎ (p ≤ℤ t.ramp.max_initial_pout_mdbm)

step_up-ge : (a : ℤ) (s : ℕ) → a ≤ℤ step_attenuation true a s +ℤ pos s
unfolding step_attenuation
step_up-ge a s =
    if_elim (λ (b : ℤ). a ≤ℤ b +ℤ pos s) (leb_ℤ (a -ℤ pos s) (pos 0)) (pos 0) (a -ℤ pos s)
      (λ e. let h = -ℤ_parts a (pos s) in let i = +ℤ_parts (pos 0) (pos s) in low _ _ a s e h i)
      (λ e. let h = -ℤ_parts a (pos s) in let i = +ℤ_parts (a -ℤ pos s) (pos s) in omega arith)
  where
    low :
        (d u a : ℤ) (s : ℕ)
        → leb_ℤ d (pos 0) ≡ true
        → pos_part d + neg_part a + s ≡ neg_part d + pos_part a + 0
        → pos_part u + 0 + 0 ≡ neg_part u + 0 + s
        → a ≤ℤ u
    low d u a s e h i = ground arith

step_down-ge : (a : ℤ) (s : ℕ) → a ≤ℤ pos 0 → a ≤ℤ step_attenuation false a s +ℤ pos s
unfolding step_attenuation
step_down-ge a s le =
    if_elim (λ (b : ℤ). a ≤ℤ b +ℤ pos s) (leb_ℤ (pos 0) (a +ℤ pos s)) (pos 0) (a +ℤ pos s)
      (λ e. let i = +ℤ_parts (pos 0) (pos s) in omega arith)
      (λ e. let h = +ℤ_parts a (pos s) in let i = +ℤ_parts (a +ℤ pos s) (pos s) in omega arith)

step-ge :
    (a : ℤ) (s : ℕ) (up : Bool) → (up ≡ false → a ≤ℤ pos 0) → a ≤ℤ step_attenuation up a s +ℤ pos s
step-ge a s true h = step_up-ge a s
step-ge a s false h = step_down-ge a s (h refl)

-- The power after the first step, from `cur` towards `tgt`.
first_step :
    (tgt cur : ℤ) (s : ℕ) → tgt -ℤ step_attenuation (ltb_ℤ cur tgt) (tgt -ℤ cur) s ≤ℤ cur +ℤ pos s
first_step tgt cur s =
    let b = step_attenuation (ltb_ℤ cur tgt) (tgt -ℤ cur) s in
    let g = step-ge (tgt -ℤ cur) s (ltb_ℤ cur tgt) (λ e. down e) in
    let h = -ℤ_parts tgt cur in
    let i = -ℤ_parts tgt b in
    let j = +ℤ_parts b (pos s) in let k = +ℤ_parts cur (pos s) in omega arith
  where
    below :
        (c t d : ℤ)
        → ltb_ℤ c t ≡ false
        → pos_part d + neg_part t + pos_part c ≡ neg_part d + pos_part t + neg_part c
        → d ≤ℤ pos 0
    below c t d e h = ground arith

    down : ltb_ℤ cur tgt ≡ false → tgt -ℤ cur ≤ℤ pos 0
    down e = let h = -ℤ_parts tgt cur in below cur tgt (tgt -ℤ cur) e h

-- The outcome of a start: its target is `tgt` and its first power is gentle.
abbrev pub IsStart : Trx → ℤ → Trx → Type 0
IsStart t tgt u = (u.p_total_tgt_mdbm ≡ tgt) × IsGentle t (next_power u)

gentle_jump :
    (t : Trx)
    → t.p_total_tgt_mdbm ≤ℤ t.ramp.max_initial_pout_mdbm
    → IsStart t (t.p_total_tgt_mdbm) ((jump t).0)
unfolding jump power_ramp_timer_cb next_power get_p_actual_mdbm
gentle_jump t le = let h = -ℤ_parts (t.p_total_tgt_mdbm) (pos 0) in (refl, inr (omega arith))

-- The first step from the present power.
begun :
    (t : Trx)
    → ((begin_ramp t).0.p_total_tgt_mdbm ≡ t.p_total_tgt_mdbm)
      × (next_power ((begin_ramp t).0) ≤ℤ t.p_total_cur_mdbm +ℤ pos (t.ramp.step_size_mdb))
unfolding begin_ramp power_ramp_do_step next_power get_p_actual_mdbm we_are_ramping_up
begun t = (refl, first_step (t.p_total_tgt_mdbm) (t.p_total_cur_mdbm) (t.ramp.step_size_mdb))

gentle_shortcut : (t : Trx) → IsStart t (t.p_total_tgt_mdbm) ((begin_ramp (shortcut t)).0)
unfolding shortcut
gentle_shortcut t =
    let m = t.ramp.max_initial_pout_mdbm in
    let s = t.ramp.step_size_mdb in
    let u = record t { p_total_cur_mdbm = m -ℤ pos s } in
    if_elim (λ (v : Trx). IsStart t (t.p_total_tgt_mdbm) ((begin_ramp v).0))
      (ltb_ℤ (t.p_total_cur_mdbm +ℤ pos s) m) u t
      (λ e.
        let b = begun u in
        let h = -ℤ_parts m (pos s) in
        let i = +ℤ_parts (m -ℤ pos s) (pos s) in (b.0, inr (omega arith)))
      (λ e. let b = begun t in (b.0, inl (b.1)))

ramp_to-IsStart : (t : Trx) → IsStart t (t.p_total_tgt_mdbm) ((ramp_to t false).0)
unfolding ramp_to
ramp_to-IsStart t =
    let Good = λ (r : Trx × Effect). IsStart t (t.p_total_tgt_mdbm) (r.0) in
    let near = leb_ℤ (t.p_total_tgt_mdbm) (t.ramp.max_initial_pout_mdbm) in
    if_elim Good (we_are_ramping_up t) (if near then jump t else begin_ramp (shortcut t))
      (begin_ramp t)
      (λ e.
        if_elim Good near (jump t) (begin_ramp (shortcut t)) (λ f. gentle_jump t (leb→le _ _ f))
          (λ f. gentle_shortcut t))
      (λ e. let b = begun t in (b.0, inl (b.1)))

-- The result of a start without a jump to the target: it is refused when the target exceeds the
-- nominal power and the check is not bypassed, and else the ramp has the target, and its
-- first power is at most one step above the present power or at most the maximum initial power.
abbrev pub IsStartResult : Trx → ℤ → Bool → Option (Trx × Effect) → Type 0
IsStartResult t tgt bypass none = (bypass ≡ false) × (ltb_ℤ (get_p_nominal_mdbm t) tgt ≡ true)
IsStartResult t tgt bypass (some r) =
    ((bypass ≡ true) ⊎ (tgt ≤ℤ get_p_nominal_mdbm t)) × IsStart t tgt (r.0)

-- A start of a ramp, without a jump to the target, is refused exactly for a target above the
-- nominal power whose check is not bypassed; else the ramp gets the target, and its first power
-- is at most one step above the present power or at most the maximum initial power.
pub power_ramp_start-IsStartResult :
    (t : Trx) (tgt : ℤ) (bypass cb : Bool)
    → IsStartResult t tgt bypass (power_ramp_start t tgt bypass cb false)
unfolding power_ramp_start with_target next_power power_ramp_abort get_p_actual_mdbm
power_ramp_start-IsStartResult t tgt bypass cb =
    if_elim (IsStartResult t tgt bypass) (not bypass && ltb_ℤ (get_p_nominal_mdbm t) tgt) none
      (some (ramp_to (with_target t tgt cb) false)) (λ e. refused bypass e)
      (λ e. (allowed bypass e, with_target-IsStart))
  where
    refused : (b : Bool) {c : Bool} → (not b && c) ≡ true → (b ≡ false) × (c ≡ true)
    refused b e = ground arith

    allowed :
        (b : Bool)
        → (not b && ltb_ℤ (get_p_nominal_mdbm t) tgt) ≡ false
        → (b ≡ true) ⊎ (tgt ≤ℤ get_p_nominal_mdbm t)
    allowed true e = inl refl
    allowed false e = inr (ground arith)

    with_target-IsStart : IsStart t tgt ((ramp_to (with_target t tgt cb) false).0)
    with_target-IsStart = ramp_to-IsStart (with_target t tgt cb)
