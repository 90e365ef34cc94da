-- ===== src/Sched/Bcch.antt =====
-- Multiframe tables of src/common/scheduler_mframe.c: the broadcast channel, alone and with four dedicated control channels.
use osmo_bts.Base.{List, [], ◌∷◌}
use osmo_bts.Sched.Types.{
  Frame, burst, trxc_idle, trxc_fcch, trxc_sch, trxc_bcch, trxc_rach, trxc_ccch, trxc_sdcch4_0,
  trxc_sdcch4_1, trxc_sdcch4_2, trxc_sdcch4_3, trxc_sacch4_0, trxc_sacch4_1, trxc_sacch4_2,
  trxc_sacch4_3,
}

abbrev pub frame_bcch : List Frame
frame_bcch =
    burst trxc_fcch 0 trxc_rach 0
    ∷ burst trxc_sch 0 trxc_rach 0
    ∷ burst trxc_bcch 0 trxc_rach 0
    ∷ burst trxc_bcch 1 trxc_rach 0
    ∷ burst trxc_bcch 2 trxc_rach 0
    ∷ burst trxc_bcch 3 trxc_rach 0
    ∷ burst trxc_ccch 0 trxc_rach 0
    ∷ burst trxc_ccch 1 trxc_rach 0
    ∷ burst trxc_ccch 2 trxc_rach 0
    ∷ burst trxc_ccch 3 trxc_rach 0
    ∷ burst trxc_fcch 0 trxc_rach 0
    ∷ burst trxc_sch 0 trxc_rach 0
    ∷ burst trxc_ccch 0 trxc_rach 0
    ∷ burst trxc_ccch 1 trxc_rach 0
    ∷ burst trxc_ccch 2 trxc_rach 0
    ∷ burst trxc_ccch 3 trxc_rach 0
    ∷ burst trxc_ccch 0 trxc_rach 0
    ∷ burst trxc_ccch 1 trxc_rach 0
    ∷ burst trxc_ccch 2 trxc_rach 0
    ∷ burst trxc_ccch 3 trxc_rach 0
    ∷ burst trxc_fcch 0 trxc_rach 0
    ∷ burst trxc_sch 0 trxc_rach 0
    ∷ burst trxc_ccch 0 trxc_rach 0
    ∷ burst trxc_ccch 1 trxc_rach 0
    ∷ burst trxc_ccch 2 trxc_rach 0
    ∷ burst trxc_ccch 3 trxc_rach 0
    ∷ burst trxc_ccch 0 trxc_rach 0
    ∷ burst trxc_ccch 1 trxc_rach 0
    ∷ burst trxc_ccch 2 trxc_rach 0
    ∷ burst trxc_ccch 3 trxc_rach 0
    ∷ burst trxc_fcch 0 trxc_rach 0
    ∷ burst trxc_sch 0 trxc_rach 0
    ∷ burst trxc_ccch 0 trxc_rach 0
    ∷ burst trxc_ccch 1 trxc_rach 0
    ∷ burst trxc_ccch 2 trxc_rach 0
    ∷ burst trxc_ccch 3 trxc_rach 0
    ∷ burst trxc_ccch 0 trxc_rach 0
    ∷ burst trxc_ccch 1 trxc_rach 0
    ∷ burst trxc_ccch 2 trxc_rach 0
    ∷ burst trxc_ccch 3 trxc_rach 0
    ∷ burst trxc_fcch 0 trxc_rach 0
    ∷ burst trxc_sch 0 trxc_rach 0
    ∷ burst trxc_ccch 0 trxc_rach 0
    ∷ burst trxc_ccch 1 trxc_rach 0
    ∷ burst trxc_ccch 2 trxc_rach 0
    ∷ burst trxc_ccch 3 trxc_rach 0
    ∷ burst trxc_ccch 0 trxc_rach 0
    ∷ burst trxc_ccch 1 trxc_rach 0
    ∷ burst trxc_ccch 2 trxc_rach 0
    ∷ burst trxc_ccch 3 trxc_rach 0
    ∷ burst trxc_idle 0 trxc_rach 0
    ∷ []

abbrev pub frame_bcch_sdcch4 : List Frame
frame_bcch_sdcch4 =
    burst trxc_fcch 0 trxc_sdcch4_3 0
    ∷ burst trxc_sch 0 trxc_sdcch4_3 1
    ∷ burst trxc_bcch 0 trxc_sdcch4_3 2
    ∷ burst trxc_bcch 1 trxc_sdcch4_3 3
    ∷ burst trxc_bcch 2 trxc_rach 0
    ∷ burst trxc_bcch 3 trxc_rach 0
    ∷ burst trxc_ccch 0 trxc_sacch4_2 0
    ∷ burst trxc_ccch 1 trxc_sacch4_2 1
    ∷ burst trxc_ccch 2 trxc_sacch4_2 2
    ∷ burst trxc_ccch 3 trxc_sacch4_2 3
    ∷ burst trxc_fcch 0 trxc_sacch4_3 0
    ∷ burst trxc_sch 0 trxc_sacch4_3 1
    ∷ burst trxc_ccch 0 trxc_sacch4_3 2
    ∷ burst trxc_ccch 1 trxc_sacch4_3 3
    ∷ burst trxc_ccch 2 trxc_rach 0
    ∷ burst trxc_ccch 3 trxc_rach 0
    ∷ burst trxc_ccch 0 trxc_rach 0
    ∷ burst trxc_ccch 1 trxc_rach 0
    ∷ burst trxc_ccch 2 trxc_rach 0
    ∷ burst trxc_ccch 3 trxc_rach 0
    ∷ burst trxc_fcch 0 trxc_rach 0
    ∷ burst trxc_sch 0 trxc_rach 0
    ∷ burst trxc_sdcch4_0 0 trxc_rach 0
    ∷ burst trxc_sdcch4_0 1 trxc_rach 0
    ∷ burst trxc_sdcch4_0 2 trxc_rach 0
    ∷ burst trxc_sdcch4_0 3 trxc_rach 0
    ∷ burst trxc_sdcch4_1 0 trxc_rach 0
    ∷ burst trxc_sdcch4_1 1 trxc_rach 0
    ∷ burst trxc_sdcch4_1 2 trxc_rach 0
    ∷ burst trxc_sdcch4_1 3 trxc_rach 0
    ∷ burst trxc_fcch 0 trxc_rach 0
    ∷ burst trxc_sch 0 trxc_rach 0
    ∷ burst trxc_sdcch4_2 0 trxc_rach 0
    ∷ burst trxc_sdcch4_2 1 trxc_rach 0
    ∷ burst trxc_sdcch4_2 2 trxc_rach 0
    ∷ burst trxc_sdcch4_2 3 trxc_rach 0
    ∷ burst trxc_sdcch4_3 0 trxc_rach 0
    ∷ burst trxc_sdcch4_3 1 trxc_sdcch4_0 0
    ∷ burst trxc_sdcch4_3 2 trxc_sdcch4_0 1
    ∷ burst trxc_sdcch4_3 3 trxc_sdcch4_0 2
    ∷ burst trxc_fcch 0 trxc_sdcch4_0 3
    ∷ burst trxc_sch 0 trxc_sdcch4_1 0
    ∷ burst trxc_sacch4_0 0 trxc_sdcch4_1 1
    ∷ burst trxc_sacch4_0 1 trxc_sdcch4_1 2
    ∷ burst trxc_sacch4_0 2 trxc_sdcch4_1 3
    ∷ burst trxc_sacch4_0 3 trxc_rach 0
    ∷ burst trxc_sacch4_1 0 trxc_rach 0
    ∷ burst trxc_sacch4_1 1 trxc_sdcch4_2 0
    ∷ burst trxc_sacch4_1 2 trxc_sdcch4_2 1
    ∷ burst trxc_sacch4_1 3 trxc_sdcch4_2 2
    ∷ burst trxc_idle 0 trxc_sdcch4_2 3
    ∷ burst trxc_fcch 0 trxc_sdcch4_3 0
    ∷ burst trxc_sch 0 trxc_sdcch4_3 1
    ∷ burst trxc_bcch 0 trxc_sdcch4_3 2
    ∷ burst trxc_bcch 1 trxc_sdcch4_3 3
    ∷ burst trxc_bcch 2 trxc_rach 0
    ∷ burst trxc_bcch 3 trxc_rach 0
    ∷ burst trxc_ccch 0 trxc_sacch4_0 0
    ∷ burst trxc_ccch 1 trxc_sacch4_0 1
    ∷ burst trxc_ccch 2 trxc_sacch4_0 2
    ∷ burst trxc_ccch 3 trxc_sacch4_0 3
    ∷ burst trxc_fcch 0 trxc_sacch4_1 0
    ∷ burst trxc_sch 0 trxc_sacch4_1 1
    ∷ burst trxc_ccch 0 trxc_sacch4_1 2
    ∷ burst trxc_ccch 1 trxc_sacch4_1 3
    ∷ burst trxc_ccch 2 trxc_rach 0
    ∷ burst trxc_ccch 3 trxc_rach 0
    ∷ burst trxc_ccch 0 trxc_rach 0
    ∷ burst trxc_ccch 1 trxc_rach 0
    ∷ burst trxc_ccch 2 trxc_rach 0
    ∷ burst trxc_ccch 3 trxc_rach 0
    ∷ burst trxc_fcch 0 trxc_rach 0
    ∷ burst trxc_sch 0 trxc_rach 0
    ∷ burst trxc_sdcch4_0 0 trxc_rach 0
    ∷ burst trxc_sdcch4_0 1 trxc_rach 0
    ∷ burst trxc_sdcch4_0 2 trxc_rach 0
    ∷ burst trxc_sdcch4_0 3 trxc_rach 0
    ∷ burst trxc_sdcch4_1 0 trxc_rach 0
    ∷ burst trxc_sdcch4_1 1 trxc_rach 0
    ∷ burst trxc_sdcch4_1 2 trxc_rach 0
    ∷ burst trxc_sdcch4_1 3 trxc_rach 0
    ∷ burst trxc_fcch 0 trxc_rach 0
    ∷ burst trxc_sch 0 trxc_rach 0
    ∷ burst trxc_sdcch4_2 0 trxc_rach 0
    ∷ burst trxc_sdcch4_2 1 trxc_rach 0
    ∷ burst trxc_sdcch4_2 2 trxc_rach 0
    ∷ burst trxc_sdcch4_2 3 trxc_rach 0
    ∷ burst trxc_sdcch4_3 0 trxc_rach 0
    ∷ burst trxc_sdcch4_3 1 trxc_sdcch4_0 0
    ∷ burst trxc_sdcch4_3 2 trxc_sdcch4_0 1
    ∷ burst trxc_sdcch4_3 3 trxc_sdcch4_0 2
    ∷ burst trxc_fcch 0 trxc_sdcch4_0 3
    ∷ burst trxc_sch 0 trxc_sdcch4_1 0
    ∷ burst trxc_sacch4_2 0 trxc_sdcch4_1 1
    ∷ burst trxc_sacch4_2 1 trxc_sdcch4_1 2
    ∷ burst trxc_sacch4_2 2 trxc_sdcch4_1 3
    ∷ burst trxc_sacch4_2 3 trxc_rach 0
    ∷ burst trxc_sacch4_3 0 trxc_rach 0
    ∷ burst trxc_sacch4_3 1 trxc_sdcch4_2 0
    ∷ burst trxc_sacch4_3 2 trxc_sdcch4_2 1
    ∷ burst trxc_sacch4_3 3 trxc_sdcch4_2 2
    ∷ burst trxc_idle 0 trxc_sdcch4_2 3
    ∷ []
