-- ===== src/Meas/Compute.antt =====
-- The results of a measurement period: lchan_meas_check_compute and lchan_meas_compute_extended of
-- src/common/measurement.c, with the storing of a sample and the reset.
use osmo_bts.Base.{
  ℕ, zero, suc, ◌+◌, ◌-◌, ◌*◌, ◌/◌, ◌%◌, Bool, true, false, Option, none, some, ltb, leb, ◌==◌,
  if◌then◌else◌, get_or, set, replicate,
}
use osmo_bts.Base.Int.{ℤ, pos, negsuc, ◌+ℤ◌, ◌-ℤ◌, quot, ltb_ℤ, pos_part, neg_part, neg, to_i16}
use osmo_bts.Meas.Types.{
  UlMeas, Pchan, pchan_tch_f, pchan_tch_h, other_pchan, ChanMode, sign, speech_v1, speech_v1_vamos,
  speech_efr, speech_v2_vamos, Meas, Lchan, max_num_ul_meas,
}
use osmo_bts.Meas.Frames.{ts45008_83_is_sub, is_meas_complete}

-- A constant of the source: a sample that got lost.
abbrev pub measurement_dummy : UlMeas
measurement_dummy = record {
  ber10k = 10000;
  ta_offs_256bits = pos 0;
  ci_cb = pos 0;
  is_sub = false;
  inv_rssi = 109;
}

-- The sample as it is stored: marked SUB by the caller or by the tables.
unfoldable pub as_stored : Lchan → UlMeas → ℕ → UlMeas
as_stored lchan ulm fn =
    if ulm.is_sub then ulm else record ulm { is_sub = ts45008_83_is_sub lchan fn }

-- False for the -ENOSPC of the source.
unfoldable pub lchan_new_ul_meas : Lchan → UlMeas → ℕ → Bool × Lchan
lchan_new_ul_meas lchan ulm fn =
    let m = lchan.meas in
    if leb max_num_ul_meas (m.num_ul_meas) then (false, lchan) else (
      true,
      record lchan {
        meas = record m {
          num_ul_meas = m.num_ul_meas + 1;
          uplink = set (m.uplink) (m.num_ul_meas) (as_stored lchan ulm fn);
          last_fn = fn;
        };
      },
    )

unfoldable pub ber10k_to_rxqual : ℕ → ℕ
ber10k_to_rxqual ber10k =
    if ltb ber10k 20
    then 0
    else if ltb ber10k 40
    then 1
    else if ltb ber10k 80
    then 2
    else if ltb ber10k 160
    then 3
    else if ltb ber10k 320
    then 4
    else if ltb ber10k 640
    then 5
    else if ltb ber10k 1280
    then 6
    else 7

unfoldable pub expected_by : Pchan → ChanMode → ℕ → ℕ
expected_by pchan_tch_f mode num = 25
expected_by pchan_tch_h sign num = 13
expected_by pchan_tch_h _ num = 25
expected_by other_pchan mode num = num
expected_by _ mode num = 3

unfoldable pub lchan_meas_num_expected : Lchan → ℕ
lchan_meas_num_expected lchan = expected_by (lchan.pchan) (lchan.tch_mode) (lchan.meas.num_ul_meas)

unfoldable pub sub_expected_tch_f : ChanMode → ℤ
sub_expected_tch_f sign = pos 2
sub_expected_tch_f speech_v1 = pos 2
sub_expected_tch_f speech_v1_vamos = pos 2
sub_expected_tch_f speech_efr = pos 2
sub_expected_tch_f speech_v2_vamos = pos 2
sub_expected_tch_f _ = negsuc 0

unfoldable pub sub_expected_tch_h : ChanMode → ℤ
sub_expected_tch_h sign = pos 13
sub_expected_tch_h speech_v1 = pos 3
sub_expected_tch_h speech_v1_vamos = pos 3
sub_expected_tch_h _ = negsuc 0

unfoldable pub sub_expected_by : Pchan → ChanMode → Bool → ℤ
sub_expected_by pchan_tch_f mode is_data = if is_data then pos 2 else sub_expected_tch_f mode
sub_expected_by pchan_tch_h mode is_data = if is_data then pos 3 else sub_expected_tch_h mode
sub_expected_by other_pchan mode is_data = pos 0
sub_expected_by _ mode is_data = pos 3

unfoldable pub lchan_meas_sub_num_expected : Lchan → ℤ
lchan_meas_sub_num_expected lchan = sub_expected_by (lchan.pchan) (lchan.tch_mode) (lchan.is_data)

-- The samples in excess of those expected, which are the oldest.
unfoldable pub excess : ℕ → ℕ → ℕ
excess num expect = if ltb expect num then num - expect else 0

-- The variables that the loop over the samples adds up.
pub record Sums : Type 0 where
  pub ber_full : ℕ
  pub irssi_full : ℕ
  pub ci_full : ℤ
  pub ber_sub : ℕ
  pub irssi_sub : ℕ
  pub ci_sub : ℤ
  pub ta256b : ℤ
  pub num_sub : ℕ
  pub num_sub_actual : ℕ
  pub num_actual : ℕ

abbrev pub no_sums : Sums
no_sums = record {
  ber_full = 0;
  irssi_full = 0;
  ci_full = pos 0;
  ber_sub = 0;
  irssi_sub = 0;
  ci_sub = pos 0;
  ta256b = pos 0;
  num_sub = 0;
  num_sub_actual = 0;
  num_actual = 0;
}

-- A sample of the buffer.
unfoldable pub add_received : UlMeas → Sums → Sums
add_received m s =
    let t = record s {
      ber_full = s.ber_full + m.ber10k;
      irssi_full = s.irssi_full + m.inv_rssi;
      ci_full = s.ci_full +ℤ m.ci_cb;
      ta256b = s.ta256b +ℤ m.ta_offs_256bits;
      num_actual = s.num_actual + 1;
    } in
    if m.is_sub
    then record t {
      irssi_sub = s.irssi_sub + m.inv_rssi;
      ci_sub = s.ci_sub +ℤ m.ci_cb;
      ber_sub = s.ber_sub + m.ber10k;
      num_sub = s.num_sub + 1;
      num_sub_actual = s.num_sub_actual + 1;
    }
    else t

-- A sample that is missing; it counts as SUB while there are fewer than an exact number expected.
unfoldable pub add_dummy : ℤ → Sums → Sums
add_dummy sub_expect s =
    let t = record s { ber_full = s.ber_full + measurement_dummy.ber10k } in
    if ltb_ℤ (pos (s.num_sub)) sub_expect
    then record t { ber_sub = s.ber_sub + measurement_dummy.ber10k; num_sub = s.num_sub + 1 }
    else t

-- The loop from the `i`-th of `k` more rounds on.
unfoldable pub add_up : Meas → ℕ → ℤ → ℕ → ℕ → Sums → Sums
add_up m exc sub_expect zero i s = s
add_up m exc sub_expect (suc k) i s = add_up m exc sub_expect k (suc i) (
    if ltb i (m.num_ul_meas)
    then add_received (get_or (m.uplink) (i + exc) measurement_dummy) s
    else add_dummy sub_expect s)

-- The means; `n` is the number of samples expected.
unfoldable pub mean_irssi_full : Sums → ℕ
mean_irssi_full s =
    if s.irssi_full == 0 then measurement_dummy.inv_rssi else s.irssi_full / s.num_actual

unfoldable pub mean_ta256b : Meas → Sums → ℤ
mean_ta256b m s = if s.num_actual == 0 then m.ms_toa256 else quot (s.ta256b) (s.num_actual)

unfoldable pub mean_ci_full : Meas → Sums → ℤ
mean_ci_full m s = if s.num_actual == 0 then m.ul_ci_cb_full else quot (s.ci_full) (s.num_actual)

unfoldable pub mean_ber_sub : Sums → ℕ
mean_ber_sub s = if s.num_sub == 0 then measurement_dummy.ber10k else s.ber_sub / s.num_sub

unfoldable pub mean_irssi_sub : Sums → ℕ
mean_irssi_sub s =
    if s.num_sub_actual == 0 then measurement_dummy.inv_rssi else s.irssi_sub / s.num_sub_actual

unfoldable pub mean_ci_sub : Meas → Sums → ℤ
mean_ci_sub m s =
    if s.num_sub_actual == 0 then m.ul_ci_cb_sub else quot (s.ci_sub) (s.num_sub_actual)

-- The results of a period of `n` samples; `dbm2rxlev` is that of libosmogsm.
unfoldable pub results : (ℤ → ℕ) → ℕ → Meas → Sums → Meas
results dbm2rxlev n m s = record m {
  ul_res = record {
    full_rx_lev = dbm2rxlev (neg (mean_irssi_full s)) % 256;
    full_rx_qual = ber10k_to_rxqual (s.ber_full / n);
    sub_rx_lev = dbm2rxlev (neg (mean_irssi_sub s)) % 256;
    sub_rx_qual = ber10k_to_rxqual (mean_ber_sub s);
  };
  ms_toa256 = to_i16 (mean_ta256b m s);
  ul_ci_cb_full = to_i16 (mean_ci_full m s);
  ul_ci_cb_sub = to_i16 (mean_ci_sub m s);
  res_valid = true;
}

-- The square of a difference, as a uint32_t.
unfoldable pub diff_squared : ℤ → ℤ → ℕ
diff_squared a b = let d = a -ℤ b in let n = pos_part d + neg_part d in n * n % 4294967296

-- The loop of the extended measurements: the sum of the squares, the minimum and the maximum.
-- None for the assertion on the index.
unfoldable pub spread : Meas → ℕ → ℕ → ℕ → ℕ × (ℤ × ℤ) → Option (ℕ × (ℤ × ℤ))
spread m exc zero i acc = some acc
spread m exc (suc k) i acc =
    let t = (get_or (m.uplink) (i + exc) measurement_dummy).ta_offs_256bits in
    let sum = acc.0 + diff_squared t (m.ms_toa256) in
    let most = if ltb_ℤ (acc.1.1) t then t else acc.1.1 in
    let least = if ltb_ℤ t (acc.1.0) then t else acc.1.0 in
    let rest = spread m exc k (suc i) (sum, (least, most)) in
    if ltb i (m.num_ul_meas) then rest else none

-- The variance and the store of the results, from the sum; none for the assertion on the variance.
unfoldable pub store_extended : (ℕ → ℕ) → Meas → ℕ → Option (ℕ × (ℤ × ℤ)) → Option Meas
store_extended isqrt m n none = none
store_extended isqrt m n (some acc) =
    if leb (acc.0 / n) 4294967295
    then some (record m {
      ext = record {
        toa256_min = acc.1.0;
        toa256_max = acc.1.1;
        toa256_std_dev = isqrt (acc.0 / n) % 65536;
      };
      ext_valid = true;
    })
    else none

-- `isqrt` is osmo_isqrt32 of libosmocore, `expect` the number of samples expected.
unfoldable pub lchan_meas_compute_extended : (ℕ → ℕ) → ℕ → Meas → Option Meas
lchan_meas_compute_extended isqrt expect m =
    let n = if ltb expect (m.num_ul_meas) then expect else m.num_ul_meas in
    if m.num_ul_meas == 0
    then some m
    else store_extended isqrt m n
        (spread m (excess (m.num_ul_meas) expect) n 0 (0, (pos 32767, negsuc 32767)))

-- The functions of the libraries.
pub record Conversions : Type 0 where
  pub dbm2rxlev : ℤ → ℕ
  pub isqrt : ℕ → ℕ

-- The results of a complete period, before the buffer is emptied.
unfoldable pub computed : Conversions → Lchan → Option Meas
computed conv lchan =
    let m = lchan.meas in
    let expect = lchan_meas_num_expected lchan in
    let s =
      add_up m (excess (m.num_ul_meas) expect) (lchan_meas_sub_num_expected lchan) expect 0
        no_sums in
    lchan_meas_compute_extended (conv.isqrt) expect (results (conv.dbm2rxlev) expect m s)

-- The buffer is empty again; none for an assertion that failed.
unfoldable pub next_period : Lchan → Option Meas → Option (Bool × Lchan)
next_period lchan none = none
next_period lchan (some m) = some (true, record lchan { meas = record m { num_ul_meas = 0 } })

-- True for the 1 of the source: a period is over.
unfoldable pub lchan_meas_check_compute : Conversions → Lchan → ℕ → Option (Bool × Lchan)
lchan_meas_check_compute conv lchan fn =
    if is_meas_complete lchan fn
    then next_period lchan (computed conv lchan)
    else some (false, lchan)

unfoldable pub lchan_meas_process_measurement :
    Conversions → Lchan → UlMeas → ℕ → Option (Bool × Lchan)
lchan_meas_process_measurement conv lchan ulm fn =
    lchan_meas_check_compute conv ((lchan_new_ul_meas lchan ulm fn).1) fn

abbrev no_sample : UlMeas
no_sample = record {
  ber10k = 0;
  ta_offs_256bits = pos 0;
  ci_cb = pos 0;
  is_sub = false;
  inv_rssi = 0;
}

-- All bytes are zero but for the frame number, LCHAN_FN_DUMMY.
unfoldable pub lchan_meas_reset : Lchan → Lchan
lchan_meas_reset lchan = record lchan {
  meas = record {
    l1_valid = false;
    res_valid = false;
    ext_valid = false;
    res_nr = 0;
    num_ul_meas = 0;
    uplink = replicate max_num_ul_meas no_sample;
    l1_info = record { ms_pwr = 0; fpc_epc = false; srr_sro = false; ta = 0 };
    ul_res = record { full_rx_lev = 0; full_rx_qual = 0; sub_rx_lev = 0; sub_rx_qual = 0 };
    ms_toa256 = pos 0;
    ul_ci_cb_full = pos 0;
    ul_ci_cb_sub = pos 0;
    last_fn = 4294967295;
    ext = record { toa256_min = pos 0; toa256_max = pos 0; toa256_std_dev = 0 };
  };
}
