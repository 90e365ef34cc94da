-- ===== src/Shutdown/Tests.antt =====
-- Shutdowns of a station with two transceivers, and instances of the theorems on them.
use osmo_bts.Base.{ℕ, true, false, List, [], ◌∷◌}
use osmo_bts.Base.Int.{ℤ, pos, negsuc}
use osmo_bts.TxPower.Types.{PowerAmp, Trx}
use osmo_bts.Shutdown.{
  Transceiver, action, on_enter, timer_cb, wait_ramp_down_compl, trx_ramp_compl,
}
use osmo_bts.Shutdown.Proofs.{IsAllowed, transitions-IsAllowed}

abbrev flat : PowerAmp
flat = record { nominal_gain_mdb = pos 0; delta_mdb = λ (n : ℕ). pos 0 }

-- A transceiver at `p` thousandths of a dBm.
abbrev at_power : ℤ → Trx
at_power p = record {
  max_power_red = 0;
  arfcn = 871;
  trx_p_max_out_mdbm = pos 23000;
  p_total_tgt_mdbm = negsuc 9999;
  p_total_cur_mdbm = p;
  thermal_attenuation_mdb = pos 0;
  user_gain_mdb = pos 0;
  pa = flat;
  user_pa = flat;
  ramp = record {
    max_initial_pout_mdbm = pos 0;
    attenuation_mdb = pos 0;
    step_size_mdb = 2000;
    step_interval_sec = 1;
    step_timer = true;
    compl_cb = true;
  };
}

-- One transceiver is down, the other is still above the target of its ramp.
abbrev station : List Transceiver
station =
    record { enabled = true; power = at_power (negsuc 9999) }
    ∷ record { enabled = true; power = at_power (negsuc 999) }
    ∷ []

transitions-IsAllowed_example :
    IsAllowed wait_ramp_down_compl ((action wait_ramp_down_compl trx_ramp_compl station).next)
    × IsAllowed wait_ramp_down_compl ((on_enter wait_ramp_down_compl true false station).next)
    × IsAllowed wait_ramp_down_compl (timer_cb wait_ramp_down_compl)
transitions-IsAllowed_example =
    transitions-IsAllowed wait_ramp_down_compl trx_ramp_compl true false station
