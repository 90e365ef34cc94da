-- ===== src/Sched/Pdch.antt =====
-- Multiframe tables of src/common/scheduler_mframe.c: the packet data channel.
use osmo_bts.Base.{List, [], ◌∷◌}
use osmo_bts.Sched.Types.{Frame, burst, trxc_idle, trxc_pdtch, trxc_ptcch}

abbrev pub frame_pdch : List Frame
frame_pdch =
    burst trxc_pdtch 0 trxc_pdtch 0
    ∷ burst trxc_pdtch 1 trxc_pdtch 1
    ∷ burst trxc_pdtch 2 trxc_pdtch 2
    ∷ burst trxc_pdtch 3 trxc_pdtch 3
    ∷ burst trxc_pdtch 0 trxc_pdtch 0
    ∷ burst trxc_pdtch 1 trxc_pdtch 1
    ∷ burst trxc_pdtch 2 trxc_pdtch 2
    ∷ burst trxc_pdtch 3 trxc_pdtch 3
    ∷ burst trxc_pdtch 0 trxc_pdtch 0
    ∷ burst trxc_pdtch 1 trxc_pdtch 1
    ∷ burst trxc_pdtch 2 trxc_pdtch 2
    ∷ burst trxc_pdtch 3 trxc_pdtch 3
    ∷ burst trxc_ptcch 0 trxc_ptcch 0
    ∷ burst trxc_pdtch 0 trxc_pdtch 0
    ∷ burst trxc_pdtch 1 trxc_pdtch 1
    ∷ burst trxc_pdtch 2 trxc_pdtch 2
    ∷ burst trxc_pdtch 3 trxc_pdtch 3
    ∷ burst trxc_pdtch 0 trxc_pdtch 0
    ∷ burst trxc_pdtch 1 trxc_pdtch 1
    ∷ burst trxc_pdtch 2 trxc_pdtch 2
    ∷ burst trxc_pdtch 3 trxc_pdtch 3
    ∷ burst trxc_pdtch 0 trxc_pdtch 0
    ∷ burst trxc_pdtch 1 trxc_pdtch 1
    ∷ burst trxc_pdtch 2 trxc_pdtch 2
    ∷ burst trxc_pdtch 3 trxc_pdtch 3
    ∷ burst trxc_idle 0 trxc_idle 0
    ∷ burst trxc_pdtch 0 trxc_pdtch 0
    ∷ burst trxc_pdtch 1 trxc_pdtch 1
    ∷ burst trxc_pdtch 2 trxc_pdtch 2
    ∷ burst trxc_pdtch 3 trxc_pdtch 3
    ∷ burst trxc_pdtch 0 trxc_pdtch 0
    ∷ burst trxc_pdtch 1 trxc_pdtch 1
    ∷ burst trxc_pdtch 2 trxc_pdtch 2
    ∷ burst trxc_pdtch 3 trxc_pdtch 3
    ∷ burst trxc_pdtch 0 trxc_pdtch 0
    ∷ burst trxc_pdtch 1 trxc_pdtch 1
    ∷ burst trxc_pdtch 2 trxc_pdtch 2
    ∷ burst trxc_pdtch 3 trxc_pdtch 3
    ∷ burst trxc_ptcch 1 trxc_ptcch 1
    ∷ burst trxc_pdtch 0 trxc_pdtch 0
    ∷ burst trxc_pdtch 1 trxc_pdtch 1
    ∷ burst trxc_pdtch 2 trxc_pdtch 2
    ∷ burst trxc_pdtch 3 trxc_pdtch 3
    ∷ burst trxc_pdtch 0 trxc_pdtch 0
    ∷ burst trxc_pdtch 1 trxc_pdtch 1
    ∷ burst trxc_pdtch 2 trxc_pdtch 2
    ∷ burst trxc_pdtch 3 trxc_pdtch 3
    ∷ burst trxc_pdtch 0 trxc_pdtch 0
    ∷ burst trxc_pdtch 1 trxc_pdtch 1
    ∷ burst trxc_pdtch 2 trxc_pdtch 2
    ∷ burst trxc_pdtch 3 trxc_pdtch 3
    ∷ burst trxc_idle 0 trxc_idle 0
    ∷ burst trxc_pdtch 0 trxc_pdtch 0
    ∷ burst trxc_pdtch 1 trxc_pdtch 1
    ∷ burst trxc_pdtch 2 trxc_pdtch 2
    ∷ burst trxc_pdtch 3 trxc_pdtch 3
    ∷ burst trxc_pdtch 0 trxc_pdtch 0
    ∷ burst trxc_pdtch 1 trxc_pdtch 1
    ∷ burst trxc_pdtch 2 trxc_pdtch 2
    ∷ burst trxc_pdtch 3 trxc_pdtch 3
    ∷ burst trxc_pdtch 0 trxc_pdtch 0
    ∷ burst trxc_pdtch 1 trxc_pdtch 1
    ∷ burst trxc_pdtch 2 trxc_pdtch 2
    ∷ burst trxc_pdtch 3 trxc_pdtch 3
    ∷ burst trxc_ptcch 2 trxc_ptcch 2
    ∷ burst trxc_pdtch 0 trxc_pdtch 0
    ∷ burst trxc_pdtch 1 trxc_pdtch 1
    ∷ burst trxc_pdtch 2 trxc_pdtch 2
    ∷ burst trxc_pdtch 3 trxc_pdtch 3
    ∷ burst trxc_pdtch 0 trxc_pdtch 0
    ∷ burst trxc_pdtch 1 trxc_pdtch 1
    ∷ burst trxc_pdtch 2 trxc_pdtch 2
    ∷ burst trxc_pdtch 3 trxc_pdtch 3
    ∷ burst trxc_pdtch 0 trxc_pdtch 0
    ∷ burst trxc_pdtch 1 trxc_pdtch 1
    ∷ burst trxc_pdtch 2 trxc_pdtch 2
    ∷ burst trxc_pdtch 3 trxc_pdtch 3
    ∷ burst trxc_idle 0 trxc_idle 0
    ∷ burst trxc_pdtch 0 trxc_pdtch 0
    ∷ burst trxc_pdtch 1 trxc_pdtch 1
    ∷ burst trxc_pdtch 2 trxc_pdtch 2
    ∷ burst trxc_pdtch 3 trxc_pdtch 3
    ∷ burst trxc_pdtch 0 trxc_pdtch 0
    ∷ burst trxc_pdtch 1 trxc_pdtch 1
    ∷ burst trxc_pdtch 2 trxc_pdtch 2
    ∷ burst trxc_pdtch 3 trxc_pdtch 3
    ∷ burst trxc_pdtch 0 trxc_pdtch 0
    ∷ burst trxc_pdtch 1 trxc_pdtch 1
    ∷ burst trxc_pdtch 2 trxc_pdtch 2
    ∷ burst trxc_pdtch 3 trxc_pdtch 3
    ∷ burst trxc_ptcch 3 trxc_ptcch 3
    ∷ burst trxc_pdtch 0 trxc_pdtch 0
    ∷ burst trxc_pdtch 1 trxc_pdtch 1
    ∷ burst trxc_pdtch 2 trxc_pdtch 2
    ∷ burst trxc_pdtch 3 trxc_pdtch 3
    ∷ burst trxc_pdtch 0 trxc_pdtch 0
    ∷ burst trxc_pdtch 1 trxc_pdtch 1
    ∷ burst trxc_pdtch 2 trxc_pdtch 2
    ∷ burst trxc_pdtch 3 trxc_pdtch 3
    ∷ burst trxc_pdtch 0 trxc_pdtch 0
    ∷ burst trxc_pdtch 1 trxc_pdtch 1
    ∷ burst trxc_pdtch 2 trxc_pdtch 2
    ∷ burst trxc_pdtch 3 trxc_pdtch 3
    ∷ burst trxc_idle 0 trxc_idle 0
    ∷ []
