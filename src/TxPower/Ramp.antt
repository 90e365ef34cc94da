-- ===== src/TxPower/Ramp.antt =====
-- The ramp of the output power: the second half of src/common/tx_power.c.
use osmo_bts.Base.{ℕ, Bool, true, false, Option, none, some, ◌&&◌, not, if◌then◌else◌}
use osmo_bts.Base.Int.{ℤ, pos, ◌+ℤ◌, ◌-ℤ◌, ltb_ℤ, leb_ℤ, eqb_ℤ}
use osmo_bts.TxPower.Types.{Trx}
use osmo_bts.TxPower.Levels.{get_p_actual_mdbm, get_p_trxout_eff_mdbm, get_p_nominal_mdbm}

-- What an operation does besides changing the transceiver: it asks the phy for a power by
-- bts_model_change_power, it calls the callback of the ramp, or neither.
pub data Effect : Type 0 where
  no_effect completed : Effect
  change_power : ℤ → Effect

unfoldable pub we_are_ramping_up : Trx → Bool
we_are_ramping_up trx = ltb_ℤ (trx.p_total_cur_mdbm) (trx.p_total_tgt_mdbm)

abbrev pub set_attenuation : Trx → ℤ → Trx
set_attenuation trx a = record trx { ramp = record (trx.ramp) { attenuation_mdb = a } }

abbrev pub set_timer : Trx → Bool → Trx
set_timer trx b = record trx { ramp = record (trx.ramp) { step_timer = b } }

unfoldable pub power_ramp_timer_cb : Trx → Trx × Effect
power_ramp_timer_cb trx =
    let t = record trx { p_total_cur_mdbm = get_p_actual_mdbm trx (trx.p_total_tgt_mdbm) } in
    (t, change_power (get_p_trxout_eff_mdbm t (t.p_total_tgt_mdbm)))

-- The attenuation after one more step: down to 0 on the way up, up to 0 on the way down.
unfoldable pub step_attenuation : Bool → ℤ → ℕ → ℤ
step_attenuation up a step =
    if up
    then (let b = a -ℤ pos step in if leb_ℤ b (pos 0) then pos 0 else b)
    else (let b = a +ℤ pos step in if leb_ℤ (pos 0) b then pos 0 else b)

unfoldable pub power_ramp_do_step : Trx → Bool → Trx × Effect
power_ramp_do_step trx first =
    let a =
      step_attenuation (we_are_ramping_up trx) (trx.ramp.attenuation_mdb)
        (trx.ramp.step_size_mdb) in
    if not first && eqb_ℤ (trx.ramp.attenuation_mdb) (pos 0)
    then (trx, (if trx.ramp.compl_cb then completed else no_effect))
    else (set_timer (set_attenuation trx a) true, no_effect)

-- The power that the phy reports is compared for the log only.
unfoldable pub power_trx_change_compl : Trx → ℤ → Trx × Effect
power_trx_change_compl trx p_trxout_cur = power_ramp_do_step trx false

unfoldable pub power_ramp_abort : Trx → Trx
power_ramp_abort trx = set_timer trx false

-- The direct way to the target.
unfoldable pub jump : Trx → Trx × Effect
jump trx =
    power_ramp_timer_cb
      (record (set_attenuation trx (pos 0)) { p_total_cur_mdbm = trx.p_total_tgt_mdbm })

-- The attenuation that keeps the present power, then the first step.
unfoldable pub begin_ramp : Trx → Trx × Effect
begin_ramp trx =
    power_ramp_do_step (set_attenuation trx (trx.p_total_tgt_mdbm -ℤ trx.p_total_cur_mdbm)) true

-- The present power, raised to one step below the maximum initial power.
unfoldable pub shortcut : Trx → Trx
shortcut trx =
    let m = trx.ramp.max_initial_pout_mdbm in
    if ltb_ℤ (trx.p_total_cur_mdbm +ℤ pos (trx.ramp.step_size_mdb)) m
    then record trx { p_total_cur_mdbm = m -ℤ pos (trx.ramp.step_size_mdb) }
    else trx

unfoldable pub ramp_to : Trx → Bool → Trx × Effect
ramp_to trx skip_ramping =
    if skip_ramping
    then jump trx
    else if we_are_ramping_up trx
    then (if leb_ℤ (trx.p_total_tgt_mdbm) (trx.ramp.max_initial_pout_mdbm)
        then jump trx
        else begin_ramp (shortcut trx))
    else begin_ramp trx

-- The new target and callback, any pending step being cancelled.
unfoldable pub with_target : Trx → ℤ → Bool → Trx
with_target trx tgt cb =
    let t = power_ramp_abort trx in
    record t { p_total_tgt_mdbm = tgt; ramp = record (t.ramp) { compl_cb = cb } }

-- None for -ERANGE, which changes nothing.
unfoldable pub power_ramp_start : Trx → ℤ → Bool → Bool → Bool → Option (Trx × Effect)
power_ramp_start trx tgt bypass cb skip_ramping =
    if not bypass && ltb_ℤ (get_p_nominal_mdbm trx) tgt
    then none
    else some (ramp_to (with_target trx tgt cb) skip_ramping)
