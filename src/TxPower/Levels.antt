-- ===== src/TxPower/Levels.antt =====
-- The power levels of a transceiver: the first half of src/common/tx_power.c.
use osmo_bts.Base.{ℕ, ◌*◌, leb, if◌then◌else◌}
use osmo_bts.Base.Int.{ℤ, pos, negsuc, ◌+ℤ◌, ◌-ℤ◌}
use osmo_bts.TxPower.Types.{PowerAmp, Trx}

unfoldable pub to_mdb : ℕ → ℤ
to_mdb x = pos (x * 1000)

-- INT_MIN for an ARFCN outside of the table.
unfoldable pub get_pa_drive_level_mdbm : PowerAmp → ℤ → ℕ → ℤ
get_pa_drive_level_mdbm pa desired arfcn =
    if leb 1024 arfcn
    then negsuc 2147483647
    else desired -ℤ pa.nominal_gain_mdb -ℤ pa.delta_mdb arfcn

unfoldable pub get_p_max_out_mdbm : Trx → ℤ
get_p_max_out_mdbm trx =
    trx.trx_p_max_out_mdbm +ℤ trx.user_gain_mdb +ℤ trx.pa.nominal_gain_mdb
    +ℤ trx.user_pa.nominal_gain_mdb

unfoldable pub get_p_nominal_mdbm : Trx → ℤ
get_p_nominal_mdbm trx = get_p_max_out_mdbm trx -ℤ to_mdb (trx.max_power_red)

unfoldable pub get_p_target_mdbm : Trx → ℕ → ℤ
get_p_target_mdbm trx bs_power_red = get_p_nominal_mdbm trx -ℤ to_mdb bs_power_red

unfoldable pub get_p_actual_mdbm : Trx → ℤ → ℤ
get_p_actual_mdbm trx p_target = p_target -ℤ trx.ramp.attenuation_mdb

unfoldable pub get_p_eff_mdbm : Trx → ℤ → ℤ
get_p_eff_mdbm trx p_target = p_target -ℤ trx.ramp.attenuation_mdb -ℤ trx.thermal_attenuation_mdb

-- The drive level of the internal amplifier for an output of `p` less the gain of the user.
unfoldable pub trx_drive : Trx → ℤ → ℤ
trx_drive trx p =
    get_pa_drive_level_mdbm (trx.pa)
      (get_pa_drive_level_mdbm (trx.user_pa) (p -ℤ trx.user_gain_mdb) (trx.arfcn)) (trx.arfcn)

unfoldable pub get_p_trxout_eff_mdbm : Trx → ℤ → ℤ
get_p_trxout_eff_mdbm trx p_target = trx_drive trx (get_p_eff_mdbm trx p_target)

unfoldable pub get_p_trxout_target_mdbm : Trx → ℕ → ℤ
get_p_trxout_target_mdbm trx bs_power_red = trx_drive trx (get_p_target_mdbm trx bs_power_red)

unfoldable pub power_ramp_initial_power_mdbm : Trx → ℤ
power_ramp_initial_power_mdbm trx = get_p_trxout_eff_mdbm trx (trx.ramp.max_initial_pout_mdbm)
