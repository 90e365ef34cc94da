-- ===== src/Agch/Queue.antt =====
-- The access grant queue: bts_agch_max_queue_length, bts_update_agch_max_queue_length,
-- bts_agch_enqueue, bts_agch_dequeue and compact_agch_queue of src/common/bts.c. The numbers that
-- random() returns are an argument, and an int that the limits keep small is unbounded.
use osmo_bts.Base.{
  ℕ, ◌+◌, ◌-◌, ◌*◌, ◌/◌, ◌%◌, Bool, true, false, Option, none, some, List, [], ◌∷◌, ◌++◌, length,
  ltb, leb, ◌==◌, if◌then◌else◌,
}
use osmo_bts.Agch.Reject.{Body, Merged, try_merge_imm_ass_rej}

-- A message with its control block: whether the PCU wants a confirmation, and for which message.
pub record Msg : Type 0 where
  pub body : Body
  pub confirm : Bool
  pub msg_id : ℕ

-- `bts->agch_queue`; the field `length` of the source is `agch_length`.
pub record Agch : Type 0 where
  pub queue : List Msg
  pub agch_length : ℕ
  pub max_length : ℕ
  pub low_level : ℕ
  pub high_level : ℕ
  pub thresh_level : ℕ
  pub rejected_msgs : ℕ
  pub merged_msgs : ℕ
  pub dropped_msgs : ℕ
  pub agch_msgs : ℕ
  pub pch_msgs : ℕ

abbrev tx_integer : List ℕ
tx_integer = 3 ∷ 4 ∷ 5 ∷ 6 ∷ 7 ∷ 8 ∷ 9 ∷ 10 ∷ 11 ∷ 12 ∷ 14 ∷ 16 ∷ 20 ∷ 25 ∷ 32 ∷ 50 ∷ []

-- The row of `s_values`: the entry for a separate and for a combined channel.
abbrev s_value : ℕ → Bool → ℕ
s_value group comb =
    if group == 0
    then (if comb then 41 else 55)
    else if group == 1
    then (if comb then 52 else 76)
    else if group == 2
    then (if comb then 58 else 109)
    else if group == 3
    then (if comb then 86 else 163)
    else if comb
    then 115
    else 217

-- The group of the first entry that is `t`, counted from `i`, and 0 without one.
abbrev t_group : ℕ → ℕ → List ℕ → ℕ
t_group t i [] = 0
t_group t i (x ∷ xs) = if x == t then i % 5 else t_group t (i + 1) xs

-- `comb` is bcch_conf == RSL_BCCH_CCCH_CONF_1_C.
unfoldable pub bts_agch_max_queue_length : ℕ → Bool → ℕ
bts_agch_max_queue_length t comb =
    (t + 2 * s_value (t_group t 0 tx_integer) comb)
    * (if comb then 256 * 1 / 9 else 256 * 10 / 55)
    / 256

-- The argument is the fields of system information 3, where it is valid.
unfoldable pub bts_update_agch_max_queue_length : Option (ℕ × Bool) → Agch → Agch
bts_update_agch_max_queue_length none a = a
bts_update_agch_max_queue_length (some (t, comb)) a = record a {
  max_length = bts_agch_max_queue_length t comb;
}

-- The last message merged with the new one: the queue, the new message's body and whether the new
-- message is done with.
unfoldable pub merge_last : Body → List Msg → List Msg × Merged
merge_last b [] = ([], record { old_rej = b; new_rej = b; done = false })
merge_last b (m ∷ []) =
    let r = try_merge_imm_ass_rej m.body b in (record m { body = r.old_rej } ∷ [], r)
merge_last b (m ∷ n ∷ ms) = let r = merge_last b (n ∷ ms) in (m ∷ r.0, r.1)

unfoldable pub append_msg : Msg → Agch → Agch
append_msg m a = record a { queue = a.queue ++ m ∷ []; agch_length = a.agch_length + 1 }

-- By the outcome of the merge with the last message.
unfoldable pub after_merge : Msg → Agch → List Msg × Merged → Agch
after_merge m a r =
    if r.1.done
    then record a { queue = r.0; merged_msgs = a.merged_msgs + 1 }
    else append_msg (record m { body = r.1.new_rej }) (record a { queue = r.0 })

-- False for -ENOMEM.
unfoldable pub bts_agch_enqueue : Msg → Agch → Agch × Bool
bts_agch_enqueue m a =
    if ltb 100 a.agch_length
    then (record a { rejected_msgs = a.rejected_msgs + 1 }, false)
    else if ltb 0 a.agch_length
    then (after_merge m a (merge_last m.body a.queue), true)
    else (append_msg m a, true)

unfoldable pub dequeue_from : Agch → List Msg → Agch × Option Msg
dequeue_from a [] = (a, none)
dequeue_from a (m ∷ ms) = (record a { queue = ms; agch_length = a.agch_length - 1 }, some m)

unfoldable pub bts_agch_dequeue : Agch → Agch × Option Msg
bts_agch_dequeue a = dequeue_from a a.queue

-- What the loop of the compaction leaves, and the messages that it dropped.
pub record Compacted : Type 0 where
  pub rest : List Msg
  pub rest_length : ℕ
  pub dropped : List Msg

-- The loop; `random i` is what the call after `i` others returns. Where the queue is not longer than
-- `offs` the source's `p_drop` is 0 or negative, and ends the loop like the 0 here.
unfoldable pub drop_loop : (ℕ → ℕ) → ℕ → ℕ → ℕ → ℕ → ℕ → List Msg → Compacted
drop_loop random i max_len offs slope len [] = record { rest = []; rest_length = len; dropped = [] }
drop_loop random i max_len offs slope len (m ∷ ms) =
    let p_drop = (len - offs) * slope / max_len in
    let r = drop_loop random (i + 1) max_len offs slope (len - 1) ms in
    if leb p_drop (random i % 65536)
    then record { rest = m ∷ ms; rest_length = len; dropped = [] }
    else record r { dropped = m ∷ r.dropped }

abbrev pub max_len_of : Agch → ℕ
max_len_of a = if a.max_length == 0 then 1 else a.max_length

abbrev pub offs_of : Agch → ℕ
offs_of a = max_len_of a * a.low_level / 100

abbrev slope_of : Agch → ℕ
slope_of a =
    if ltb a.low_level a.high_level
    then 65536 * 100 / (a.high_level - a.low_level)
    else 65536 * max_len_of a

abbrev set_compacted : Agch → Compacted → Agch × List Msg
set_compacted a c = (
  record a {
    queue = c.rest;
    agch_length = c.rest_length;
    dropped_msgs = a.dropped_msgs + length c.dropped;
  },
  c.dropped,
)

-- The queue and the messages that were dropped, each of which is reported by rsl_tx_delete_ind.
unfoldable pub compact_agch_queue : (ℕ → ℕ) → Agch → Agch × List Msg
compact_agch_queue random a =
    if ltb a.agch_length (max_len_of a * a.thresh_level / 100)
    then (a, [])
    else set_compacted a
        (drop_loop random 0 (max_len_of a) (offs_of a) (slope_of a) a.agch_length a.queue)
