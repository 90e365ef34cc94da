-- ===== src/Sched/Tchf67.antt =====
-- Multiframe tables of src/common/scheduler_mframe.c: a full rate traffic channel in the timeslots 6 and 7.
use osmo_bts.Base.{List, [], ◌∷◌}
use osmo_bts.Sched.Types.{Frame, burst, trxc_idle, trxc_tchf, trxc_sacchtf}

abbrev pub frame_tchf_ts6 : List Frame
frame_tchf_ts6 =
    burst trxc_tchf 0 trxc_tchf 0
    ∷ burst trxc_tchf 1 trxc_tchf 1
    ∷ burst trxc_tchf 2 trxc_tchf 2
    ∷ burst trxc_tchf 3 trxc_tchf 3
    ∷ burst trxc_tchf 0 trxc_tchf 0
    ∷ burst trxc_tchf 1 trxc_tchf 1
    ∷ burst trxc_tchf 2 trxc_tchf 2
    ∷ burst trxc_tchf 3 trxc_tchf 3
    ∷ burst trxc_tchf 0 trxc_tchf 0
    ∷ burst trxc_tchf 1 trxc_tchf 1
    ∷ burst trxc_tchf 2 trxc_tchf 2
    ∷ burst trxc_tchf 3 trxc_tchf 3
    ∷ burst trxc_sacchtf 1 trxc_sacchtf 1
    ∷ burst trxc_tchf 0 trxc_tchf 0
    ∷ burst trxc_tchf 1 trxc_tchf 1
    ∷ burst trxc_tchf 2 trxc_tchf 2
    ∷ burst trxc_tchf 3 trxc_tchf 3
    ∷ burst trxc_tchf 0 trxc_tchf 0
    ∷ burst trxc_tchf 1 trxc_tchf 1
    ∷ burst trxc_tchf 2 trxc_tchf 2
    ∷ burst trxc_tchf 3 trxc_tchf 3
    ∷ burst trxc_tchf 0 trxc_tchf 0
    ∷ burst trxc_tchf 1 trxc_tchf 1
    ∷ burst trxc_tchf 2 trxc_tchf 2
    ∷ burst trxc_tchf 3 trxc_tchf 3
    ∷ burst trxc_idle 0 trxc_idle 0
    ∷ burst trxc_tchf 0 trxc_tchf 0
    ∷ burst trxc_tchf 1 trxc_tchf 1
    ∷ burst trxc_tchf 2 trxc_tchf 2
    ∷ burst trxc_tchf 3 trxc_tchf 3
    ∷ burst trxc_tchf 0 trxc_tchf 0
    ∷ burst trxc_tchf 1 trxc_tchf 1
    ∷ burst trxc_tchf 2 trxc_tchf 2
    ∷ burst trxc_tchf 3 trxc_tchf 3
    ∷ burst trxc_tchf 0 trxc_tchf 0
    ∷ burst trxc_tchf 1 trxc_tchf 1
    ∷ burst trxc_tchf 2 trxc_tchf 2
    ∷ burst trxc_tchf 3 trxc_tchf 3
    ∷ burst trxc_sacchtf 2 trxc_sacchtf 2
    ∷ burst trxc_tchf 0 trxc_tchf 0
    ∷ burst trxc_tchf 1 trxc_tchf 1
    ∷ burst trxc_tchf 2 trxc_tchf 2
    ∷ burst trxc_tchf 3 trxc_tchf 3
    ∷ burst trxc_tchf 0 trxc_tchf 0
    ∷ burst trxc_tchf 1 trxc_tchf 1
    ∷ burst trxc_tchf 2 trxc_tchf 2
    ∷ burst trxc_tchf 3 trxc_tchf 3
    ∷ burst trxc_tchf 0 trxc_tchf 0
    ∷ burst trxc_tchf 1 trxc_tchf 1
    ∷ burst trxc_tchf 2 trxc_tchf 2
    ∷ burst trxc_tchf 3 trxc_tchf 3
    ∷ burst trxc_idle 0 trxc_idle 0
    ∷ burst trxc_tchf 0 trxc_tchf 0
    ∷ burst trxc_tchf 1 trxc_tchf 1
    ∷ burst trxc_tchf 2 trxc_tchf 2
    ∷ burst trxc_tchf 3 trxc_tchf 3
    ∷ burst trxc_tchf 0 trxc_tchf 0
    ∷ burst trxc_tchf 1 trxc_tchf 1
    ∷ burst trxc_tchf 2 trxc_tchf 2
    ∷ burst trxc_tchf 3 trxc_tchf 3
    ∷ burst trxc_tchf 0 trxc_tchf 0
    ∷ burst trxc_tchf 1 trxc_tchf 1
    ∷ burst trxc_tchf 2 trxc_tchf 2
    ∷ burst trxc_tchf 3 trxc_tchf 3
    ∷ burst trxc_sacchtf 3 trxc_sacchtf 3
    ∷ burst trxc_tchf 0 trxc_tchf 0
    ∷ burst trxc_tchf 1 trxc_tchf 1
    ∷ burst trxc_tchf 2 trxc_tchf 2
    ∷ burst trxc_tchf 3 trxc_tchf 3
    ∷ burst trxc_tchf 0 trxc_tchf 0
    ∷ burst trxc_tchf 1 trxc_tchf 1
    ∷ burst trxc_tchf 2 trxc_tchf 2
    ∷ burst trxc_tchf 3 trxc_tchf 3
    ∷ burst trxc_tchf 0 trxc_tchf 0
    ∷ burst trxc_tchf 1 trxc_tchf 1
    ∷ burst trxc_tchf 2 trxc_tchf 2
    ∷ burst trxc_tchf 3 trxc_tchf 3
    ∷ burst trxc_idle 0 trxc_idle 0
    ∷ burst trxc_tchf 0 trxc_tchf 0
    ∷ burst trxc_tchf 1 trxc_tchf 1
    ∷ burst trxc_tchf 2 trxc_tchf 2
    ∷ burst trxc_tchf 3 trxc_tchf 3
    ∷ burst trxc_tchf 0 trxc_tchf 0
    ∷ burst trxc_tchf 1 trxc_tchf 1
    ∷ burst trxc_tchf 2 trxc_tchf 2
    ∷ burst trxc_tchf 3 trxc_tchf 3
    ∷ burst trxc_tchf 0 trxc_tchf 0
    ∷ burst trxc_tchf 1 trxc_tchf 1
    ∷ burst trxc_tchf 2 trxc_tchf 2
    ∷ burst trxc_tchf 3 trxc_tchf 3
    ∷ burst trxc_sacchtf 0 trxc_sacchtf 0
    ∷ burst trxc_tchf 0 trxc_tchf 0
    ∷ burst trxc_tchf 1 trxc_tchf 1
    ∷ burst trxc_tchf 2 trxc_tchf 2
    ∷ burst trxc_tchf 3 trxc_tchf 3
    ∷ burst trxc_tchf 0 trxc_tchf 0
    ∷ burst trxc_tchf 1 trxc_tchf 1
    ∷ burst trxc_tchf 2 trxc_tchf 2
    ∷ burst trxc_tchf 3 trxc_tchf 3
    ∷ burst trxc_tchf 0 trxc_tchf 0
    ∷ burst trxc_tchf 1 trxc_tchf 1
    ∷ burst trxc_tchf 2 trxc_tchf 2
    ∷ burst trxc_tchf 3 trxc_tchf 3
    ∷ burst trxc_idle 0 trxc_idle 0
    ∷ []

abbrev pub frame_tchf_ts7 : List Frame
frame_tchf_ts7 =
    burst trxc_tchf 0 trxc_tchf 0
    ∷ burst trxc_tchf 1 trxc_tchf 1
    ∷ burst trxc_tchf 2 trxc_tchf 2
    ∷ burst trxc_tchf 3 trxc_tchf 3
    ∷ burst trxc_tchf 0 trxc_tchf 0
    ∷ burst trxc_tchf 1 trxc_tchf 1
    ∷ burst trxc_tchf 2 trxc_tchf 2
    ∷ burst trxc_tchf 3 trxc_tchf 3
    ∷ burst trxc_tchf 0 trxc_tchf 0
    ∷ burst trxc_tchf 1 trxc_tchf 1
    ∷ burst trxc_tchf 2 trxc_tchf 2
    ∷ burst trxc_tchf 3 trxc_tchf 3
    ∷ burst trxc_idle 0 trxc_idle 0
    ∷ burst trxc_tchf 0 trxc_tchf 0
    ∷ burst trxc_tchf 1 trxc_tchf 1
    ∷ burst trxc_tchf 2 trxc_tchf 2
    ∷ burst trxc_tchf 3 trxc_tchf 3
    ∷ burst trxc_tchf 0 trxc_tchf 0
    ∷ burst trxc_tchf 1 trxc_tchf 1
    ∷ burst trxc_tchf 2 trxc_tchf 2
    ∷ burst trxc_tchf 3 trxc_tchf 3
    ∷ burst trxc_tchf 0 trxc_tchf 0
    ∷ burst trxc_tchf 1 trxc_tchf 1
    ∷ burst trxc_tchf 2 trxc_tchf 2
    ∷ burst trxc_tchf 3 trxc_tchf 3
    ∷ burst trxc_sacchtf 1 trxc_sacchtf 1
    ∷ burst trxc_tchf 0 trxc_tchf 0
    ∷ burst trxc_tchf 1 trxc_tchf 1
    ∷ burst trxc_tchf 2 trxc_tchf 2
    ∷ burst trxc_tchf 3 trxc_tchf 3
    ∷ burst trxc_tchf 0 trxc_tchf 0
    ∷ burst trxc_tchf 1 trxc_tchf 1
    ∷ burst trxc_tchf 2 trxc_tchf 2
    ∷ burst trxc_tchf 3 trxc_tchf 3
    ∷ burst trxc_tchf 0 trxc_tchf 0
    ∷ burst trxc_tchf 1 trxc_tchf 1
    ∷ burst trxc_tchf 2 trxc_tchf 2
    ∷ burst trxc_tchf 3 trxc_tchf 3
    ∷ burst trxc_idle 0 trxc_idle 0
    ∷ burst trxc_tchf 0 trxc_tchf 0
    ∷ burst trxc_tchf 1 trxc_tchf 1
    ∷ burst trxc_tchf 2 trxc_tchf 2
    ∷ burst trxc_tchf 3 trxc_tchf 3
    ∷ burst trxc_tchf 0 trxc_tchf 0
    ∷ burst trxc_tchf 1 trxc_tchf 1
    ∷ burst trxc_tchf 2 trxc_tchf 2
    ∷ burst trxc_tchf 3 trxc_tchf 3
    ∷ burst trxc_tchf 0 trxc_tchf 0
    ∷ burst trxc_tchf 1 trxc_tchf 1
    ∷ burst trxc_tchf 2 trxc_tchf 2
    ∷ burst trxc_tchf 3 trxc_tchf 3
    ∷ burst trxc_sacchtf 2 trxc_sacchtf 2
    ∷ burst trxc_tchf 0 trxc_tchf 0
    ∷ burst trxc_tchf 1 trxc_tchf 1
    ∷ burst trxc_tchf 2 trxc_tchf 2
    ∷ burst trxc_tchf 3 trxc_tchf 3
    ∷ burst trxc_tchf 0 trxc_tchf 0
    ∷ burst trxc_tchf 1 trxc_tchf 1
    ∷ burst trxc_tchf 2 trxc_tchf 2
    ∷ burst trxc_tchf 3 trxc_tchf 3
    ∷ burst trxc_tchf 0 trxc_tchf 0
    ∷ burst trxc_tchf 1 trxc_tchf 1
    ∷ burst trxc_tchf 2 trxc_tchf 2
    ∷ burst trxc_tchf 3 trxc_tchf 3
    ∷ burst trxc_idle 0 trxc_idle 0
    ∷ burst trxc_tchf 0 trxc_tchf 0
    ∷ burst trxc_tchf 1 trxc_tchf 1
    ∷ burst trxc_tchf 2 trxc_tchf 2
    ∷ burst trxc_tchf 3 trxc_tchf 3
    ∷ burst trxc_tchf 0 trxc_tchf 0
    ∷ burst trxc_tchf 1 trxc_tchf 1
    ∷ burst trxc_tchf 2 trxc_tchf 2
    ∷ burst trxc_tchf 3 trxc_tchf 3
    ∷ burst trxc_tchf 0 trxc_tchf 0
    ∷ burst trxc_tchf 1 trxc_tchf 1
    ∷ burst trxc_tchf 2 trxc_tchf 2
    ∷ burst trxc_tchf 3 trxc_tchf 3
    ∷ burst trxc_sacchtf 3 trxc_sacchtf 3
    ∷ burst trxc_tchf 0 trxc_tchf 0
    ∷ burst trxc_tchf 1 trxc_tchf 1
    ∷ burst trxc_tchf 2 trxc_tchf 2
    ∷ burst trxc_tchf 3 trxc_tchf 3
    ∷ burst trxc_tchf 0 trxc_tchf 0
    ∷ burst trxc_tchf 1 trxc_tchf 1
    ∷ burst trxc_tchf 2 trxc_tchf 2
    ∷ burst trxc_tchf 3 trxc_tchf 3
    ∷ burst trxc_tchf 0 trxc_tchf 0
    ∷ burst trxc_tchf 1 trxc_tchf 1
    ∷ burst trxc_tchf 2 trxc_tchf 2
    ∷ burst trxc_tchf 3 trxc_tchf 3
    ∷ burst trxc_idle 0 trxc_idle 0
    ∷ burst trxc_tchf 0 trxc_tchf 0
    ∷ burst trxc_tchf 1 trxc_tchf 1
    ∷ burst trxc_tchf 2 trxc_tchf 2
    ∷ burst trxc_tchf 3 trxc_tchf 3
    ∷ burst trxc_tchf 0 trxc_tchf 0
    ∷ burst trxc_tchf 1 trxc_tchf 1
    ∷ burst trxc_tchf 2 trxc_tchf 2
    ∷ burst trxc_tchf 3 trxc_tchf 3
    ∷ burst trxc_tchf 0 trxc_tchf 0
    ∷ burst trxc_tchf 1 trxc_tchf 1
    ∷ burst trxc_tchf 2 trxc_tchf 2
    ∷ burst trxc_tchf 3 trxc_tchf 3
    ∷ burst trxc_sacchtf 0 trxc_sacchtf 0
    ∷ []
