-- ===== src/TxPower/Tests.antt =====
-- Ramps at concrete inputs, and instances of the theorems on ramps.
use osmo_bts.Base.{ℕ, ◌≡◌, arith, true, false}
use osmo_bts.Base.Int.{pos}
use osmo_bts.TxPower.Types.{PowerAmp, Trx}
use osmo_bts.TxPower.Ramp.{power_ramp_start}
use osmo_bts.TxPower.Progress.{rounds, distance, HasArrived, rounds-HasArrived}
use osmo_bts.TxPower.Start.{IsStartResult, power_ramp_start-IsStartResult}

abbrev amp : PowerAmp
amp = record { nominal_gain_mdb = pos 10000; delta_mdb = λ (n : ℕ). pos 0 }

-- A transceiver of 23 dBm that is 10 dB below its target and steps by 2 dB.
abbrev trx : Trx
trx = record {
  max_power_red = 0;
  arfcn = 871;
  trx_p_max_out_mdbm = pos 23000;
  p_total_tgt_mdbm = pos 23000;
  p_total_cur_mdbm = pos 11000;
  thermal_attenuation_mdb = pos 0;
  user_gain_mdb = pos 0;
  pa = amp;
  user_pa = amp;
  ramp = record {
    max_initial_pout_mdbm = pos 0;
    attenuation_mdb = pos 10000;
    step_size_mdb = 2000;
    step_interval_sec = 1;
    step_timer = true;
    compl_cb = true;
  };
}

rounds-HasArrived_example :
    HasArrived (rounds 5 trx (pos 3000)) (pos 3000)
    × ((rounds 5 trx (pos 3000)).p_total_tgt_mdbm ≡ pos 23000)
unfolding distance
rounds-HasArrived_example = rounds-HasArrived 5 trx (pos 3000) (omega arith)

power_ramp_start-IsStartResult_example :
    IsStartResult trx (pos 20000) false (power_ramp_start trx (pos 20000) false true false)
power_ramp_start-IsStartResult_example = power_ramp_start-IsStartResult trx (pos 20000) false true
