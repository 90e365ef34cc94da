-- ===== src/Meas/Result.antt =====
-- The MEASUREMENT RESULT for the BSC: rsl_tx_meas_res of src/common/rsl.c, with the two helpers of
-- src/common/measurement.c for its timing offset.
use osmo_bts.Base.{
  ℕ, ◌*◌, ◌/◌, Bool, false, ◌&&◌, ◌||◌, Option, none, some, List, [], ◌∷◌, length, leb,
  if◌then◌else◌,
}
use osmo_bts.Base.Int.{ℤ, pos, negsuc, ◌+ℤ◌, ◌-ℤ◌, leb_ℤ, eqb_ℤ, to_i16, to_u8}
use osmo_bts.Meas.Types.{RepUnidir, L1Info, Meas}

-- struct osmo_bts_supp_meas_info
pub record SuppMeasInfo : Type 0 where
  pub toa256_mean : ℤ
  pub toa256_min : ℤ
  pub toa256_max : ℤ
  pub toa256_std_dev : ℕ

-- The information elements of the message; the one of the uplink has the octets of libosmogsm and
-- the supplementary part.
pub record MeasResMsg : Type 0 where
  pub meas_res_nr : ℕ
  pub uplink_meas : Option (List ℕ × Option SuppMeasInfo)
  pub bs_power : ℕ
  pub l1_info : Option L1Info
  pub l3_info : Option (List ℕ)
  pub ms_timing_offset : Option ℕ

-- What the function asks of the rest: gsm0858_rsl_ul_meas_enc, whether a buffer is allocated, and
-- whether abis_bts_rsl_sendmsg returns 0.
pub record Rsl : Type 0 where
  pub ul_meas_enc : RepUnidir → Bool → List ℕ
  pub alloc_ok : Bool
  pub send_ok : Bool
  pub supp_meas_toa256 : Bool

unfoldable pub supp_meas_info : Meas → SuppMeasInfo
supp_meas_info m =
    let ta256 = to_i16 (pos (m.l1_info.ta * 256)) in
    record {
      toa256_mean = to_i16 (ta256 +ℤ m.ms_toa256);
      toa256_min = to_i16 (ta256 +ℤ m.ext.toa256_min);
      toa256_max = to_i16 (ta256 +ℤ m.ext.toa256_max);
      toa256_std_dev = m.ext.toa256_std_dev;
    }

unfoldable pub uplink_meas_of : Rsl → Meas → Bool → Option (List ℕ × Option SuppMeasInfo)
uplink_meas_of rsl m dl_active =
    let octets = rsl.ul_meas_enc (m.ul_res) dl_active in
    if leb 3 (length octets)
    then some
        (octets, if rsl.supp_meas_toa256 && m.ext_valid then some (supp_meas_info m) else none)
    else none

-- The layer 3 information and the timing offset; an empty one is left out.
unfoldable pub l3_of : Option (List ℕ) → Option (List ℕ)
l3_of none = none
l3_of (some []) = none
l3_of (some (x ∷ xs)) = some (x ∷ xs)

unfoldable pub offset_of : Option (List ℕ) → ℤ → Option ℕ
offset_of none timing_offset = none
offset_of (some l3) timing_offset =
    if eqb_ℤ timing_offset (negsuc 0) then none else some (to_u8 timing_offset)

-- The message that is sent, none where the function returns an error before.
unfoldable pub rsl_tx_meas_res : Rsl → Meas → ℕ → Bool → Option (List ℕ) → ℤ → Option MeasResMsg
rsl_tx_meas_res rsl m bs_power_current dl_active l3 timing_offset =
    if m.res_valid && rsl.alloc_ok
    then some (record {
      meas_res_nr = m.res_nr;
      uplink_meas = uplink_meas_of rsl m dl_active;
      bs_power = bs_power_current / 2;
      l1_info = if m.l1_valid then some (m.l1_info) else none;
      l3_info = l3_of l3;
      ms_timing_offset = offset_of (l3_of l3) timing_offset;
    })
    else none

-- Whether the value returned is 0.
unfoldable pub is_sent : Rsl → Option MeasResMsg → Bool
is_sent rsl none = false
is_sent rsl (some msg) = rsl.send_ok

-- The result is a uint8_t.
unfoldable pub ms_to2rsl : ℤ → ℤ → ℕ → ℕ
ms_to2rsl ms_t_offs p_offs ta =
    if leb_ℤ (pos 0) ms_t_offs then to_u8 ms_t_offs else to_u8 (p_offs -ℤ pos ta)

unfoldable pub ms_to_valid : ℤ → ℤ → Bool
ms_to_valid ms_t_offs p_offs = leb_ℤ (pos 0) ms_t_offs || leb_ℤ (pos 0) p_offs
