-- ===== src/Power/TaBounds.antt =====
-- The timing advance loop of src/common/ta_control.c, and the range and the steps of the advance.
use osmo_bts.Base.{ℕ, ◌+◌, ◌*◌, ◌≤◌, arith, if_elim}
use osmo_bts.Base.Int.{ℤ, pos, negsuc, ◌≤ℤ◌, ◌+ℤ◌, ◌-ℤ◌, quot, scale, to_i16, to_u8, ltb_ℤ}
use osmo_bts.Power.Advance.{TaState, clamp_ta, new_ta, delta_ta, lchan_ms_ta_ctrl}

delta_ta-pos : (n : ℕ) → (pos 0 ≤ℤ delta_ta (pos n)) × (delta_ta (pos n) ≤ℤ pos 2)
unfolding delta_ta quot ◌-ℤ◌ ◌+ℤ◌ scale
delta_ta-pos n = ground arith

delta_ta-negsuc : (n : ℕ) → (negsuc 1 ≤ℤ delta_ta (negsuc n)) × (delta_ta (negsuc n) ≤ℤ pos 0)
unfolding delta_ta quot ◌-ℤ◌ ◌+ℤ◌ scale
delta_ta-negsuc n = ground arith

delta_ta_bounds : (t : ℤ) → (negsuc 1 ≤ℤ delta_ta t) × (delta_ta t ≤ℤ pos 2)
delta_ta_bounds (pos n) = let h = delta_ta-pos n in (omega arith, omega arith)
delta_ta_bounds (negsuc n) = let h = delta_ta-negsuc n in (omega arith, omega arith)

-- A burst that is late by one more than three quarters of a bit, or early by as much, counts.
delta_ta_late : (n : ℕ) → 193 ≤ n → pos 1 ≤ℤ delta_ta (pos n)
unfolding delta_ta quot ◌-ℤ◌ ◌+ℤ◌ scale
delta_ta_late n h = ground arith

delta_ta_early : (n : ℕ) → 192 ≤ n → delta_ta (negsuc n) ≤ℤ negsuc 0
unfolding delta_ta quot ◌-ℤ◌ ◌+ℤ◌ scale
delta_ta_early n h = ground arith

-- Where the advance that is asked of a phone with advance `ms` lies.
abbrev pub IsTaStep : ℕ → ℕ → Type 0
IsTaStep ms n = (n ≤ 63) × (n ≤ ms + 2) × (ms ≤ n + 2)

new_ta-IsTaStep :
    (ms : ℕ) (d : ℤ)
    → ms ≤ 63
    → (negsuc 1 ≤ℤ d) × (d ≤ℤ pos 2)
    → IsTaStep ms (to_u8 (clamp_ta (to_i16 (pos ms +ℤ d))))
unfolding to_u8 to_i16 clamp_ta ◌+ℤ◌
new_ta-IsTaStep ms d le h = ground arith

-- When a block is not skipped, the timing advance asked of the phone is at most 63 and differs by
-- at most two from the one that it reports, which is at most 63, for every time of arrival.
pub lchan_ms_ta_ctrl-IsTaStep :
    (k : ℕ) (s : TaState) (ms : ℕ) (toa256 : ℤ)
    → s.skip_block_num ≤ℤ pos 0
    → ms ≤ 63
    → IsTaStep ms ((lchan_ms_ta_ctrl k s ms toa256).current)
unfolding lchan_ms_ta_ctrl new_ta
lchan_ms_ta_ctrl-IsTaStep k s ms toa256 go le =
    if_elim (λ (r : TaState). IsTaStep ms (r.current)) (ltb_ℤ (pos 0) (s.skip_block_num))
      (record s { skip_block_num = s.skip_block_num -ℤ pos 1 })
      (record { skip_block_num = pos (k * 2) -ℤ pos 1; current = to_u8 (new_ta ms toa256) })
      (λ e. ground arith) (λ e. new_ta-IsTaStep ms (delta_ta toa256) le (delta_ta_bounds toa256))
