-- ===== src/Sched/SdcchCbch.antt =====
-- Multiframe tables of src/common/scheduler_mframe.c: seven dedicated control channels and cell broadcast.
use osmo_bts.Base.{List, [], ◌∷◌}
use osmo_bts.Sched.Types.{
  Frame, burst, trxc_idle, trxc_cbch, trxc_sdcch8_0, trxc_sdcch8_1, trxc_sdcch8_3, trxc_sdcch8_4,
  trxc_sdcch8_5, trxc_sdcch8_6, trxc_sdcch8_7, trxc_sacch8_0, trxc_sacch8_1, trxc_sacch8_3,
  trxc_sacch8_4, trxc_sacch8_5, trxc_sacch8_6, trxc_sacch8_7,
}

abbrev pub frame_sdcch8_cbch : List Frame
frame_sdcch8_cbch =
    burst trxc_sdcch8_0 0 trxc_sacch8_5 0
    ∷ burst trxc_sdcch8_0 1 trxc_sacch8_5 1
    ∷ burst trxc_sdcch8_0 2 trxc_sacch8_5 2
    ∷ burst trxc_sdcch8_0 3 trxc_sacch8_5 3
    ∷ burst trxc_sdcch8_1 0 trxc_sacch8_6 0
    ∷ burst trxc_sdcch8_1 1 trxc_sacch8_6 1
    ∷ burst trxc_sdcch8_1 2 trxc_sacch8_6 2
    ∷ burst trxc_sdcch8_1 3 trxc_sacch8_6 3
    ∷ burst trxc_cbch 0 trxc_sacch8_7 0
    ∷ burst trxc_cbch 1 trxc_sacch8_7 1
    ∷ burst trxc_cbch 2 trxc_sacch8_7 2
    ∷ burst trxc_cbch 3 trxc_sacch8_7 3
    ∷ burst trxc_sdcch8_3 0 trxc_idle 0
    ∷ burst trxc_sdcch8_3 1 trxc_idle 0
    ∷ burst trxc_sdcch8_3 2 trxc_idle 0
    ∷ burst trxc_sdcch8_3 3 trxc_sdcch8_0 0
    ∷ burst trxc_sdcch8_4 0 trxc_sdcch8_0 1
    ∷ burst trxc_sdcch8_4 1 trxc_sdcch8_0 2
    ∷ burst trxc_sdcch8_4 2 trxc_sdcch8_0 3
    ∷ burst trxc_sdcch8_4 3 trxc_sdcch8_1 0
    ∷ burst trxc_sdcch8_5 0 trxc_sdcch8_1 1
    ∷ burst trxc_sdcch8_5 1 trxc_sdcch8_1 2
    ∷ burst trxc_sdcch8_5 2 trxc_sdcch8_1 3
    ∷ burst trxc_sdcch8_5 3 trxc_idle 0
    ∷ burst trxc_sdcch8_6 0 trxc_idle 1
    ∷ burst trxc_sdcch8_6 1 trxc_idle 2
    ∷ burst trxc_sdcch8_6 2 trxc_idle 3
    ∷ burst trxc_sdcch8_6 3 trxc_sdcch8_3 0
    ∷ burst trxc_sdcch8_7 0 trxc_sdcch8_3 1
    ∷ burst trxc_sdcch8_7 1 trxc_sdcch8_3 2
    ∷ burst trxc_sdcch8_7 2 trxc_sdcch8_3 3
    ∷ burst trxc_sdcch8_7 3 trxc_sdcch8_4 0
    ∷ burst trxc_sacch8_0 0 trxc_sdcch8_4 1
    ∷ burst trxc_sacch8_0 1 trxc_sdcch8_4 2
    ∷ burst trxc_sacch8_0 2 trxc_sdcch8_4 3
    ∷ burst trxc_sacch8_0 3 trxc_sdcch8_5 0
    ∷ burst trxc_sacch8_1 0 trxc_sdcch8_5 1
    ∷ burst trxc_sacch8_1 1 trxc_sdcch8_5 2
    ∷ burst trxc_sacch8_1 2 trxc_sdcch8_5 3
    ∷ burst trxc_sacch8_1 3 trxc_sdcch8_6 0
    ∷ burst trxc_idle 0 trxc_sdcch8_6 1
    ∷ burst trxc_idle 1 trxc_sdcch8_6 2
    ∷ burst trxc_idle 2 trxc_sdcch8_6 3
    ∷ burst trxc_idle 3 trxc_sdcch8_7 0
    ∷ burst trxc_sacch8_3 0 trxc_sdcch8_7 1
    ∷ burst trxc_sacch8_3 1 trxc_sdcch8_7 2
    ∷ burst trxc_sacch8_3 2 trxc_sdcch8_7 3
    ∷ burst trxc_sacch8_3 3 trxc_sacch8_0 0
    ∷ burst trxc_idle 0 trxc_sacch8_0 1
    ∷ burst trxc_idle 0 trxc_sacch8_0 2
    ∷ burst trxc_idle 0 trxc_sacch8_0 3
    ∷ burst trxc_sdcch8_0 0 trxc_sacch8_1 0
    ∷ burst trxc_sdcch8_0 1 trxc_sacch8_1 1
    ∷ burst trxc_sdcch8_0 2 trxc_sacch8_1 2
    ∷ burst trxc_sdcch8_0 3 trxc_sacch8_1 3
    ∷ burst trxc_sdcch8_1 0 trxc_idle 0
    ∷ burst trxc_sdcch8_1 1 trxc_idle 1
    ∷ burst trxc_sdcch8_1 2 trxc_idle 2
    ∷ burst trxc_sdcch8_1 3 trxc_idle 3
    ∷ burst trxc_cbch 0 trxc_sacch8_3 0
    ∷ burst trxc_cbch 1 trxc_sacch8_3 1
    ∷ burst trxc_cbch 2 trxc_sacch8_3 2
    ∷ burst trxc_cbch 3 trxc_sacch8_3 3
    ∷ burst trxc_sdcch8_3 0 trxc_idle 0
    ∷ burst trxc_sdcch8_3 1 trxc_idle 0
    ∷ burst trxc_sdcch8_3 2 trxc_idle 0
    ∷ burst trxc_sdcch8_3 3 trxc_sdcch8_0 0
    ∷ burst trxc_sdcch8_4 0 trxc_sdcch8_0 1
    ∷ burst trxc_sdcch8_4 1 trxc_sdcch8_0 2
    ∷ burst trxc_sdcch8_4 2 trxc_sdcch8_0 3
    ∷ burst trxc_sdcch8_4 3 trxc_sdcch8_1 0
    ∷ burst trxc_sdcch8_5 0 trxc_sdcch8_1 1
    ∷ burst trxc_sdcch8_5 1 trxc_sdcch8_1 2
    ∷ burst trxc_sdcch8_5 2 trxc_sdcch8_1 3
    ∷ burst trxc_sdcch8_5 3 trxc_idle 0
    ∷ burst trxc_sdcch8_6 0 trxc_idle 1
    ∷ burst trxc_sdcch8_6 1 trxc_idle 2
    ∷ burst trxc_sdcch8_6 2 trxc_idle 3
    ∷ burst trxc_sdcch8_6 3 trxc_sdcch8_3 0
    ∷ burst trxc_sdcch8_7 0 trxc_sdcch8_3 1
    ∷ burst trxc_sdcch8_7 1 trxc_sdcch8_3 2
    ∷ burst trxc_sdcch8_7 2 trxc_sdcch8_3 3
    ∷ burst trxc_sdcch8_7 3 trxc_sdcch8_4 0
    ∷ burst trxc_sacch8_4 0 trxc_sdcch8_4 1
    ∷ burst trxc_sacch8_4 1 trxc_sdcch8_4 2
    ∷ burst trxc_sacch8_4 2 trxc_sdcch8_4 3
    ∷ burst trxc_sacch8_4 3 trxc_sdcch8_5 0
    ∷ burst trxc_sacch8_5 0 trxc_sdcch8_5 1
    ∷ burst trxc_sacch8_5 1 trxc_sdcch8_5 2
    ∷ burst trxc_sacch8_5 2 trxc_sdcch8_5 3
    ∷ burst trxc_sacch8_5 3 trxc_sdcch8_6 0
    ∷ burst trxc_sacch8_6 0 trxc_sdcch8_6 1
    ∷ burst trxc_sacch8_6 1 trxc_sdcch8_6 2
    ∷ burst trxc_sacch8_6 2 trxc_sdcch8_6 3
    ∷ burst trxc_sacch8_6 3 trxc_sdcch8_7 0
    ∷ burst trxc_sacch8_7 0 trxc_sdcch8_7 1
    ∷ burst trxc_sacch8_7 1 trxc_sdcch8_7 2
    ∷ burst trxc_sacch8_7 2 trxc_sdcch8_7 3
    ∷ burst trxc_sacch8_7 3 trxc_sacch8_4 0
    ∷ burst trxc_idle 0 trxc_sacch8_4 1
    ∷ burst trxc_idle 0 trxc_sacch8_4 2
    ∷ burst trxc_idle 0 trxc_sacch8_4 3
    ∷ []
