-- ===== src/Agch/Tests.antt =====
-- The access grant queue at concrete states.
use osmo_bts.Base.{ℕ, ◌*◌, ◌≡◌, refl, true, [], ◌∷◌, arith}
use osmo_bts.Osmo.Sample.{libosmo}
use osmo_bts.Paging.Queue.{init}
use osmo_bts.Paging.Sample.{bts0, time0}
use osmo_bts.Agch.Reject.{Entry, Body, reject, try_merge_imm_ass_rej}
use osmo_bts.Agch.Queue.{Msg, Agch, bts_agch_max_queue_length}
use osmo_bts.Agch.Ccch.{Ccch, pch, agch_kind, bts_ccch_copy_msg}
use osmo_bts.Agch.Merging.{kept_by, either_rejects, kept_by-try_merge_imm_ass_rej}
use osmo_bts.Agch.Limits.{
  IsCounted, IsServed, bts_ccch_copy_msg-IsServed, enqueues, sends, use_all, use_all-IsCounted,
}

abbrev entry : ℕ → Entry
entry n = record { req_ref = n; wait_ind = 5 }

abbrev one_ref : ℕ → Body
one_ref n =
    reject (record { entry1 = entry n; entry2 = entry n; entry3 = entry n; entry4 = entry n })

abbrev msg : ℕ → Msg
msg n = record { body = one_ref n; confirm = true; msg_id = n }

abbrev three_waiting : Agch
three_waiting = record {
  queue = msg 1 ∷ msg 2 ∷ msg 3 ∷ [];
  agch_length = 3;
  max_length = 2;
  low_level = 50;
  high_level = 100;
  thresh_level = 0;
  rejected_msgs = 0;
  merged_msgs = 0;
  dropped_msgs = 0;
  agch_msgs = 0;
  pch_msgs = 0;
}

abbrev channel : Ccch
channel = record {
  asci = record { notifications = []; entries = 0; count = 0; nln = 0; nln_status = 0 };
  paging = init bts0 200 10;
  agch = three_waiting;
}

kept_by-try_merge_imm_ass_rej_example :
    kept_by 2 (try_merge_imm_ass_rej (one_ref 1) (one_ref 2))
    ≡ either_rejects 2 (one_ref 1) (one_ref 2)
kept_by-try_merge_imm_ass_rej_example = kept_by-try_merge_imm_ass_rej 2 (one_ref 1) (one_ref 2)

bts_ccch_copy_msg-IsServed_example :
    IsServed three_waiting (bts_ccch_copy_msg libosmo (λ i. i * 9000) 50 time0 agch_kind channel)
bts_ccch_copy_msg-IsServed_example =
    bts_ccch_copy_msg-IsServed libosmo (λ i. i * 9000) 50 time0 agch_kind channel
      (refl, omega arith)

use_all-IsCounted_example :
    IsCounted (use_all channel (enqueues (msg 4) ∷ sends libosmo (λ i. 0) 50 time0 pch ∷ [])).agch
use_all-IsCounted_example =
    use_all-IsCounted (enqueues (msg 4) ∷ sends libosmo (λ i. 0) 50 time0 pch ∷ []) channel
      (refl, omega arith)

-- A queue of T = 50 slots on a combined channel.
longest : bts_agch_max_queue_length 50 true ≡ 14
unfolding bts_agch_max_queue_length
longest = refl
