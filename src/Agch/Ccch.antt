-- ===== src/Agch/Ccch.antt =====
-- bts_ccch_copy_msg of src/common/bts.c: what a block of the common control channel sends.
use osmo_bts.Base.{ℕ, ◌+◌, Bool, true, false, Option, none, some, List, if◌then◌else◌}
use osmo_bts.Osmo.{Osmo, BitOp}
use osmo_bts.Notification.{Asci, nch_gen_msg}
use osmo_bts.Paging.Types.{Paging}
use osmo_bts.Paging.Time.{GsmTime}
use osmo_bts.Paging.Message.{OutBuf}
use osmo_bts.Paging.Gen.{Result, gen_msg}
use osmo_bts.Agch.Queue.{Msg, Agch, bts_agch_dequeue, compact_agch_queue}

-- enum ccch_msgt
pub data Kind : Type 0 where
  nch pch agch_kind : Kind

-- The queues that a block is filled from.
pub record Ccch : Type 0 where
  pub asci : Asci
  pub paging : Paging
  pub agch : Agch

-- What is sent: a notification, what paging_gen_msg wrote (none for its -1), an access grant, or
-- nothing.
pub data Sent : Type 0 where
  nothing : Sent
  notification : List BitOp → Sent
  page : Option ℕ → OutBuf → Sent
  grant : Msg → Sent

-- The state, what is sent, the messages that the housekeeping dropped and the message whose sending
-- is confirmed to the PCU.
pub record Block : Type 0 where
  pub after : Ccch
  pub sent : Sent
  pub dropped : List Msg
  pub confirmed : Option ℕ

abbrev count_sent : Bool → Agch → Agch
count_sent as_agch a =
    if as_agch
    then record a { agch_msgs = a.agch_msgs + 1 }
    else record a { pch_msgs = a.pch_msgs + 1 }

-- The end of the function: a message that was taken from the queue, or the block without one.
unfoldable pub grant_or : Bool → Sent → Ccch → List Msg → Agch × Option Msg → Block
grant_or as_agch otherwise c dropped (a, none) = record {
  after = record c { agch = a };
  sent = otherwise;
  dropped = dropped;
  confirmed = none;
}
grant_or as_agch otherwise c dropped (a, some m) = record {
  after = record c { agch = count_sent as_agch a };
  sent = grant m;
  dropped = dropped;
  confirmed = (if m.confirm then some m.msg_id else none);
}

-- A paging block, which an access grant may take where no page is sent.
unfoldable pub page_or_grant : Ccch → List Msg → Result → Block
page_or_grant c dropped r =
    let c' = record c { paging = r.state } in
    if r.is_empty
    then grant_or false (page r.len r.out) c' dropped (bts_agch_dequeue c.agch)
    else record { after = c'; sent = page r.len r.out; dropped = dropped; confirmed = none }

unfoldable pub fill : Osmo → ℕ → GsmTime → Kind → Ccch → List Msg → Block
fill o now gt nch c dropped =
    let r = nch_gen_msg o c.asci in
    record {
      after = record c { asci = r.0 };
      sent = notification r.1;
      dropped = dropped;
      confirmed = none;
    }
fill o now gt pch c dropped = page_or_grant c dropped (gen_msg o now gt c.paging)
fill o now gt agch_kind c dropped = grant_or true nothing c dropped (bts_agch_dequeue c.agch)

unfoldable pub bts_ccch_copy_msg : Osmo → (ℕ → ℕ) → ℕ → GsmTime → Kind → Ccch → Block
bts_ccch_copy_msg o random now gt kind c =
    let r = compact_agch_queue random c.agch in fill o now gt kind (record c { agch = r.0 }) r.1
