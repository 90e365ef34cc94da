-- ===== src/Meas/Reports.antt =====
-- What a measured sample leaves behind: lchan_meas_process_measurement of src/common/measurement.c on
-- every path.
use mathlib.Core.Path.{subst}
use native.Mathlib.Nat.{div-le_of_le-mul}
use osmo_bts.Base.{
  ℕ, zero, ◌+◌, ◌-◌, ◌*◌, ◌/◌, ◌%◌, ◌≤◌, ◌<◌, ◌≡◌, refl, sym, ◌∙◌, ap, Bool, true, false, ltb, leb,
  ◌==◌, if◌then◌else◌, take, drop, length, arith, Option, some, length-set, length-drop,
  length-take_le, if_elim,
}
use osmo_bts.Base.Int.{ℤ, pos, negsuc, ◌≤ℤ◌, quot, to_i16, to_i16_id}
use osmo_bts.Meas.Types.{UlMeas, RepUnidir, Meas, Lchan, max_num_ul_meas, Pchan, ChanMode}
use osmo_bts.Meas.Frames.{is_meas_complete}
use osmo_bts.Meas.Compute.{
  no_sums, add_up, excess, as_stored, lchan_new_ul_meas, lchan_meas_num_expected, expected_by,
  lchan_meas_sub_num_expected, mean_ta256b, mean_ber_sub, results, ber10k_to_rxqual, store_extended,
  lchan_meas_compute_extended, Conversions, computed, next_period, lchan_meas_check_compute,
  lchan_meas_process_measurement,
}
use osmo_bts.Meas.Totals.{
  used, total_ℤ, with_samples, with_missing, add_up-used, if_true, if_false, zero_+ℤ, smaller,
  used_lem,
}
use osmo_bts.Meas.Means.{
  AllBetween, AllBetween-drop, AllBetween-take, AllBetween-set, mean-between, spread_list,
  spread_lem, spread-AllBetween, spread-sum,
}

abbrev pub lowest : ℤ
lowest = negsuc 32767

abbrev pub highest : ℤ
highest = pos 32767

-- The buffer has its size, and the times of arrival are int16_t.
abbrev pub IsValid : Meas → Type 0
IsValid m = (length (m.uplink) ≡ 104) × (m.num_ul_meas ≤ 104) × AllBetween lowest highest (m.uplink)

-- The results after a period: the buffer is empty, the quality has one of its eight levels, and
-- the mean time of arrival lies between the least and the greatest.
abbrev pub IsReport : Meas → Type 0
IsReport m =
    (m.num_ul_meas ≡ 0)
    × (m.res_valid ≡ true)
    × (m.ext_valid ≡ true)
    × (m.ul_res.full_rx_qual ≤ 7)
    × (m.ul_res.sub_rx_qual ≤ 7)
    × (m.ext.toa256_min ≤ℤ m.ms_toa256)
    × (m.ms_toa256 ≤ℤ m.ext.toa256_max)

-- The call succeeds; it has reported if the period is complete, and collects otherwise.
abbrev pub IsOutcome : Bool → Meas → Type 0
IsOutcome true m = IsReport m
IsOutcome false m = 1 ≤ m.num_ul_meas

abbrev pub IsProcessed : Bool → Option (Bool × Lchan) → Type 0
IsProcessed b o = (l : Lchan) × (o ≡ some (b, l)) × IsValid (l.meas) × IsOutcome b (l.meas)

rxqual_le : (ber : ℕ) → ber10k_to_rxqual ber ≤ 7
unfolding ber10k_to_rxqual
rxqual_le ber = ground arith

expected_pos : (p : Pchan) (mode : ChanMode) (num : ℕ) → 0 < num → 0 < expected_by p mode num
unfolding expected_by
expected_pos p mode num h = ground arith

excess_eq : (num expect : ℕ) → excess num expect ≡ num - expect
unfolding excess
excess_eq num expect = ground arith

length-used :
    (m : Meas) (expect : ℕ)
    → m.num_ul_meas ≤ length (m.uplink)
    → length (used m expect) ≡ smaller (m.num_ul_meas) expect
unfolding used
length-used m expect h =
    let d = length-drop (excess (m.num_ul_meas) expect) (take (m.num_ul_meas) (m.uplink)) in
    let t = length-take_le (m.num_ul_meas) (m.uplink) h in
    let e = excess_eq (m.num_ul_meas) expect in ground arith

not_zero : (n : ℕ) → 0 < n → (n == 0) ≡ false
not_zero n h = ground arith

-- The mean of the loop is that of the list.
mean_lem :
    (m : Meas) (expect : ℕ) (e : ℤ)
    → m.num_ul_meas ≤ length (m.uplink)
    → 0 < length (used m expect)
    → mean_ta256b m (add_up m (excess (m.num_ul_meas) expect) e expect 0 no_sums)
      ≡ quot (total_ℤ (λ u. u.ta_offs_256bits) (used m expect)) (length (used m expect))
unfolding mean_ta256b with_samples with_missing
mean_lem m expect e h p =
    let us = used m expect in
    let z : 0 + length us ≡ length us = omega arith in
    ap (mean_ta256b m) (add_up-used m expect e h)
    ∙ if_false _ _ (not_zero (0 + length us) (omega arith))
    ∙ ap (λ t. quot t (0 + length us)) (zero_+ℤ (total_ℤ (λ u. u.ta_offs_256bits) us))
    ∙ ap (quot (total_ℤ (λ u. u.ta_offs_256bits) us)) z

variance_le : (n a l : ℕ) → l ≡ n → a ≤ 0 + l * 4294967295 → a / n ≤ 4294967295
variance_le n a l e h = div-le_of_le-mul n (omega arith)

le→leb : (a b : ℕ) → a ≤ b → leb a b ≡ true
le→leb a b h = ground arith

-- The extended measurements never fail, and they enclose the samples that count.
abbrev IsExtended : Meas → ℕ → Option Meas → Type 0
IsExtended m expect o =
    (x : Meas) × (o ≡ some x)
    × (x.num_ul_meas ≡ m.num_ul_meas)
    × (x.uplink ≡ m.uplink)
    × (x.ul_res ≡ m.ul_res)
    × (x.ms_toa256 ≡ m.ms_toa256)
    × (x.res_valid ≡ m.res_valid)
    × (x.ext_valid ≡ true)
    × AllBetween (x.ext.toa256_min) (x.ext.toa256_max) (used m expect)

extended_lem :
    (isqrt : ℕ → ℕ) (expect : ℕ) (m : Meas)
    → m.num_ul_meas ≤ length (m.uplink)
    → 0 < m.num_ul_meas
    → 0 < expect
    → IsExtended m expect (lchan_meas_compute_extended isqrt expect m)
unfolding lchan_meas_compute_extended store_extended
extended_lem isqrt expect m h p q =
    let num = m.num_ul_meas in
    let exc = excess num expect in
    let n = if ltb expect num then expect else num in
    let n_eq : n ≡ smaller num expect = ground arith in
    let us = take n (drop (zero + exc) (m.uplink)) in
    let e : us ≡ used m expect =
      ap (λ n. take n (drop (zero + exc) (m.uplink))) n_eq ∙ used_lem m expect in
    let start : ℕ × (ℤ × ℤ) = (0, (highest, lowest)) in
    let acc = spread_list (m.ms_toa256) us start in
    let len : length us ≡ n = ap length e ∙ length-used m expect h ∙ sym n_eq in
    let pn : 0 < n = ground arith in
    let ee = excess_eq num expect in
    let sum = spread-sum (m.ms_toa256) us start in
    let var : acc.0 / n ≤ 4294967295 = variance_le n (acc.0) (length us) len sum in
    (
      record m {
        ext = record {
          toa256_min = acc.1.0;
          toa256_max = acc.1.1;
          toa256_std_dev = isqrt (acc.0 / n) % 65536;
        };
        ext_valid = true;
      },
      if_false _ _ (not_zero num p)
          ∙ ap (store_extended isqrt m n) (spread_lem m exc n 0 start (ground arith) (ground arith))
          ∙ if_true _ _ (le→leb (acc.0 / n) 4294967295 var),
      refl,
      refl,
      refl,
      refl,
      refl,
      refl,
      subst (AllBetween (acc.1.0) (acc.1.1)) e (spread-AllBetween (m.ms_toa256) us start),
    )

-- A complete period with a sample.
computed_lem :
    (conv : Conversions) (lchan : Lchan)
    → IsValid (lchan.meas)
    → 1 ≤ lchan.meas.num_ul_meas
    → IsProcessed true (next_period lchan (computed conv lchan))
unfolding computed results next_period lchan_meas_num_expected used
computed_lem conv lchan v p =
    let m = lchan.meas in
    let num = m.num_ul_meas in
    let expect = lchan_meas_num_expected lchan in
    let pe : 0 < expect = expected_pos (lchan.pchan) (lchan.tch_mode) num p in
    let e = lchan_meas_sub_num_expected lchan in
    let s = add_up m (excess num expect) e expect 0 no_sums in
    let r = results (conv.dbm2rxlev) expect m s in
    let ext = extended_lem (conv.isqrt) expect r (omega arith) p pe in
    let x = ext.0 in
    let us = used m expect in
    let l : 0 < length us = let n = length-used m expect (omega arith) in ground arith in
    let q = quot (total_ℤ (λ u. u.ta_offs_256bits) us) (length us) in
    let valid : AllBetween lowest highest us =
      AllBetween-drop lowest highest (excess num expect) (take num (m.uplink))
        (AllBetween-take lowest highest num (m.uplink) (v.2)) in
    let wide = mean-between lowest highest us l valid in
    let mean = mean-between (x.ext.toa256_min) (x.ext.toa256_max) us l (ext.8) in
    let toa : x.ms_toa256 ≡ q =
      ext.5 ∙ ap to_i16 (mean_lem m expect e (omega arith) l) ∙ to_i16_id q (wide.0) (wide.1) in
    (
      record lchan { meas = record x { num_ul_meas = 0 } },
      ap (next_period lchan) (ext.1),
      (ap length (ext.3) ∙ v.0, omega arith, subst (AllBetween lowest highest) (sym (ext.3)) (v.2)),
      (
        refl,
        ext.6,
        ext.7,
        subst (λ (u : RepUnidir). u.full_rx_qual ≤ 7) (sym (ext.4))
            (rxqual_le (s.ber_full / expect)),
        subst (λ (u : RepUnidir). u.sub_rx_qual ≤ 7) (sym (ext.4)) (rxqual_le (mean_ber_sub s)),
        subst (λ z. x.ext.toa256_min ≤ℤ z) (sym toa) (mean.0),
        subst (λ z. z ≤ℤ x.ext.toa256_max) (sym toa) (mean.1),
      ),
    )

as_stored_ta :
    (lchan : Lchan) (ulm : UlMeas) (fn : ℕ)
    → (as_stored lchan ulm fn).ta_offs_256bits ≡ ulm.ta_offs_256bits
unfolding as_stored
as_stored_ta lchan ulm fn = ground arith

as_stored_complete :
    (lchan : Lchan) (ulm : UlMeas) (fn : ℕ)
    → is_meas_complete ((lchan_new_ul_meas lchan ulm fn).1) fn ≡ is_meas_complete lchan fn
unfolding lchan_new_ul_meas is_meas_complete
as_stored_complete lchan ulm fn =
    if_elim (λ (o : Bool × Lchan). is_meas_complete (o.1) fn ≡ is_meas_complete lchan fn) _ _ _
      (λ h. refl) (λ h. refl)

-- The buffer has room or is full; either way it holds a sample.
as_stored_lem :
    (lchan : Lchan) (ulm : UlMeas) (fn : ℕ)
    → IsValid (lchan.meas)
    → lowest ≤ℤ ulm.ta_offs_256bits
    → ulm.ta_offs_256bits ≤ℤ highest
    → IsValid (((lchan_new_ul_meas lchan ulm fn).1).meas)
      × (1 ≤ ((lchan_new_ul_meas lchan ulm fn).1).meas.num_ul_meas)
unfolding lchan_new_ul_meas
as_stored_lem lchan ulm fn v lo hi =
    let m = lchan.meas in
    let i = m.num_ul_meas in
    let u = as_stored lchan ulm fn in
    let t = as_stored_ta lchan ulm fn in
    let n = length-set (m.uplink) i u in
    let lo_u = subst (λ z. lowest ≤ℤ z) (sym t) lo in
    let hi_u = subst (λ z. z ≤ℤ highest) (sym t) hi in
    let a = AllBetween-set lowest highest u i (m.uplink) lo_u hi_u (v.2) in
    if_elim (λ (o : Bool × Lchan). IsValid (o.1.meas) × (1 ≤ o.1.meas.num_ul_meas))
      (leb max_num_ul_meas i) _ _ (λ h. (v, ground arith))
      (λ h. ((n ∙ v.0, ground arith, a), omega arith))

process_lem :
    (conv : Conversions) (lchan : Lchan) (fn : ℕ) (b : Bool)
    → is_meas_complete lchan fn ≡ b
    → IsValid (lchan.meas)
    → 1 ≤ lchan.meas.num_ul_meas
    → IsProcessed b (lchan_meas_check_compute conv lchan fn)
unfolding lchan_meas_check_compute
process_lem conv lchan fn true h v p =
    subst (IsProcessed true) (sym (if_true _ _ h)) (computed_lem conv lchan v p)
process_lem conv lchan fn false h v p =
    subst (IsProcessed false) (sym (if_false _ _ h)) (lchan, refl, v, p)

-- A sample never makes an assertion fail. If the frame ends the measurement period, the results
-- are reported: the buffer is empty, both qualities are at most 7 and the mean time of arrival lies
-- between the least and the greatest of the period. Otherwise the buffer holds a sample. The
-- buffer stays within its 104 entries.
pub process_measurement-IsProcessed :
    (conv : Conversions) (lchan : Lchan) (ulm : UlMeas) (fn : ℕ)
    → IsValid (lchan.meas)
    → lowest ≤ℤ ulm.ta_offs_256bits
    → ulm.ta_offs_256bits ≤ℤ highest
    → IsProcessed (is_meas_complete lchan fn) (lchan_meas_process_measurement conv lchan ulm fn)
unfolding lchan_meas_process_measurement
process_measurement-IsProcessed conv lchan ulm fn v lo hi =
    let s = as_stored_lem lchan ulm fn v lo hi in
    let l = (lchan_new_ul_meas lchan ulm fn).1 in
    process_lem conv l fn (is_meas_complete lchan fn) (as_stored_complete lchan ulm fn) (s.0) (s.1)
