-- ===== src/Power/Advance.antt =====
-- The timing advance loop: lchan_ms_ta_ctrl of src/common/ta_control.c.
use osmo_bts.Base.{ℕ, ◌*◌, if◌then◌else◌}
use osmo_bts.Base.Int.{ℤ, pos, negsuc, ◌+ℤ◌, ◌-ℤ◌, quot, scale, ltb_ℤ, to_i16, to_u8}

-- struct lchan_ta_ctrl_state
pub record TaState : Type 0 where
  pub skip_block_num : ℤ
  pub current : ℕ

-- The change of the timing advance for a time of arrival, in bits.
unfoldable pub delta_ta : ℤ → ℤ
delta_ta toa256 =
    let q = quot toa256 256 in
    let r = toa256 -ℤ scale 256 q in
    if ltb_ℤ toa256 (pos 0)
    then (let d = if ltb_ℤ r (negsuc 191) then q -ℤ pos 1 else q in
        if ltb_ℤ d (negsuc 1) then negsuc 1 else d)
    else (let d = if ltb_ℤ (pos 192) r then q +ℤ pos 1 else q in
        if ltb_ℤ (pos 2) d then pos 2 else d)

-- The limits TA_MIN and TA_MAX.
unfoldable pub clamp_ta : ℤ → ℤ
clamp_ta n = let m = if ltb_ℤ n (pos 0) then pos 0 else n in if ltb_ℤ (pos 63) m then pos 63 else m

-- `new_ta` is an int16_t.
unfoldable pub new_ta : ℕ → ℤ → ℤ
new_ta ms_tx_ta toa256 = clamp_ta (to_i16 (pos ms_tx_ta +ℤ delta_ta toa256))

unfoldable pub lchan_ms_ta_ctrl : ℕ → TaState → ℕ → ℤ → TaState
lchan_ms_ta_ctrl ta_ctrl_interval s ms_tx_ta toa256 =
    if ltb_ℤ (pos 0) (s.skip_block_num)
    then record s { skip_block_num = s.skip_block_num -ℤ pos 1 }
    else record {
      skip_block_num = pos (ta_ctrl_interval * 2) -ℤ pos 1;
      current = to_u8 (new_ta ms_tx_ta toa256);
    }
