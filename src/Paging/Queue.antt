-- ===== src/Paging/Queue.antt =====
-- The operations on the paging queues of src/common/paging.c. Time is an argument; `memory` is
-- whether talloc_zero finds room. Products and sums that the limits keep small (a queue of at most
-- 1024 entries, lifetimes in seconds) are left unbounded; what can pass through 0 wraps.
use osmo_bts.Base.{
  ℕ, ◌+◌, ◌-◌, ◌*◌, ◌/◌, ◌%◌, Bool, true, false, not, ◌&&◌, Option, none, some, List, [], ◌∷◌, ◌++◌,
  length, take, drop, get_or, set, replicate, ltb, leb, ◌==◌, if◌then◌else◌,
}
use osmo_bts.Base.Int.{ℤ, pos, ◌+ℤ◌, ◌-ℤ◌, scale, to_u16}
use osmo_bts.Osmo.{ChanDesc, Osmo}
use osmo_bts.Notification.{same_octets}
use osmo_bts.Paging.Types.{
  PagingRecord, normal, macblock, Counters, Bts, Paging, Errno, success, einval, enospc, eexist,
  enomem, e2big, num_queues, u32_mod,
}

-- The counters of `bts->ctrs`.
abbrev pub count_on : Paging → (Counters → Counters) → Paging
count_on p f = record p { bts = record (p.bts) { ctrs = f p.bts.ctrs } }

abbrev pub count_rcvd : Counters → Counters
count_rcvd c = record c { rcvd = c.rcvd + 1 }

abbrev pub count_dropped : Counters → Counters
count_dropped c = record c { dropped = c.dropped + 1 }

abbrev pub count_dropped_ps : Counters → Counters
count_dropped_ps c = record c { dropped_ps = c.dropped_ps + 1 }

abbrev count_congested : Counters → Counters
count_congested c = record c { congested = c.congested + 1 }

abbrev pub queue_of : Paging → ℕ → List PagingRecord
queue_of p group = get_or p.paging_queue group []

abbrev pub put_queue : Paging → ℕ → List PagingRecord → Paging
put_queue p group q = record p { paging_queue = set p.paging_queue group q }

-- check_congestion, with THRESHOLD_CONGESTED 66 and THRESHOLD_CLEAR 50 percent.
unfoldable pub check_congestion : Paging → Paging
check_congestion p =
    let upper = p.num_paging_max * 66 / 100 in
    let lower = p.num_paging_max * 50 / 100 in
    if ltb upper p.num_paging && not p.cs_priority_active
    then record (count_on p count_congested) { cs_priority_active = true }
    else if ltb p.num_paging lower
    then record p { cs_priority_active = false }
    else p

-- paging_buffer_space
unfoldable pub buffer_space : Paging → ℕ
buffer_space p = if leb p.num_paging_max p.num_paging then 0 else p.num_paging_max - p.num_paging

-- The test for a duplicate: the same length, and the same octets up to it.
abbrev pub same_identity : List ℕ → List ℕ → Bool
same_identity a b =
    (get_or a 0 0 == get_or b 0 0)
    && same_octets (take (get_or a 0 0) (drop 1 a)) (take (get_or a 0 0) (drop 1 b))

-- The loop over the group's queue: at the first duplicate the expiration time is set anew.
unfoldable pub refresh : List ℕ → ℕ → List PagingRecord → Option (List PagingRecord)
refresh id expires [] = none
refresh id expires (macblock m c i ∷ q) = elim (refresh id expires q) [
  | none ↦ none
  | some q' ↦ some (macblock m c i ∷ q')
]
refresh id expires (normal e n lv ∷ q) =
    let rest : Option (List PagingRecord) = elim (refresh id expires q) [
      | none ↦ none
      | some q' ↦ some (normal e n lv ∷ q')
    ] in
    if same_identity id lv then some (normal expires n lv ∷ q) else rest

-- memcpy of the identity into the nine zeroed octets of the record.
abbrev pub stored_identity : List ℕ → List ℕ
stored_identity id = take (get_or id 0 0 + 1) id ++ replicate (8 - get_or id 0 0) 0

-- A new identity goes to the head of its queue.
unfoldable pub enqueue : Bool → ℕ → ℕ → List ℕ → ℕ → Paging → Paging × Errno
enqueue memory now group id chan_needed p =
    if not memory then (p, enomem) else if ltb 9 (get_or id 0 0 + 1) then (p, e2big) else (
      record p {
        paging_queue =
            set p.paging_queue group (
              normal (now + p.paging_lifetime) chan_needed (stored_identity id) ∷ queue_of p group);
        num_paging = (p.num_paging + 1) % u32_mod;
      },
      success,
    )

-- By the outcome of the loop over the group's queue.
unfoldable pub after_search :
    Bool → ℕ → ℕ → List ℕ → ℕ → Paging → Option (List PagingRecord) → Paging × Errno
after_search memory now group id chan_needed p (some q) = (put_queue p group q, eexist)
after_search memory now group id chan_needed p none = enqueue memory now group id chan_needed p

-- What follows the check for congestion and the first count.
unfoldable pub add_checked : Osmo → Bool → ℕ → ℕ → List ℕ → ℕ → Paging → Paging × Errno
add_checked o memory now group id chan_needed p =
    if leb (o.n_subchannels p.chan_desc) group
    then (count_on p count_dropped, einval)
    else if leb p.num_paging_max p.num_paging
    then (count_on p count_dropped, enospc)
    else after_search memory now group id chan_needed p
        (refresh id (now + p.paging_lifetime) (queue_of p group))

-- paging_add_identity
unfoldable pub add_identity : Osmo → Bool → ℕ → ℕ → List ℕ → ℕ → Paging → Paging × Errno
add_identity o memory now group id chan_needed p =
    add_checked o memory now group id chan_needed (count_on (check_congestion p) count_rcvd)

-- `c - '0'`, as an int.
abbrev digit : ℕ → ℤ
digit c = pos c -ℤ pos 48

-- convert_imsi_to_decimal: `_imsi` is a uint16_t, cut at each of its three assignments.
unfoldable pub convert_imsi_to_decimal : List ℕ → ℕ
convert_imsi_to_decimal imsi =
    let len = length imsi in
    if ltb len 3
    then 0
    else let hundreds = to_u16 (scale 100 (digit (get_or imsi (len - 3) 0))) in
      let tens = to_u16 (pos hundreds +ℤ scale 10 (digit (get_or imsi (len - 2) 0))) in
      to_u16 (pos tens +ℤ digit (get_or imsi (len - 1) 0))

-- paging_add_macblock
unfoldable pub add_macblock : Osmo → Bool → ℕ → List ℕ → Bool → List ℕ → Paging → Paging × Errno
add_macblock o memory msg_id imsi confirm msg p0 =
    let p = check_congestion p0 in
    let group = o.calc_paging_group p.chan_desc (convert_imsi_to_decimal imsi) in
    if p.cs_priority_active
    then (count_on p count_dropped_ps, enospc)
    else if not memory
    then (p, enomem)
    else (put_queue p group (macblock msg confirm msg_id ∷ queue_of p group), success)

-- paging_si_update
unfoldable pub si_update : ChanDesc → Paging → Paging
si_update c p = record p { chan_desc = c }

-- paging_config, paging_set_queue_max and paging_set_lifetime
unfoldable pub config : ℕ → ℕ → Paging → Paging
config num_paging_max paging_lifetime p = record p {
  num_paging_max = num_paging_max;
  paging_lifetime = paging_lifetime;
}

-- paging_init, on a `bts` whose configuration has no CCCH description yet.
unfoldable pub init : Bts → ℕ → ℕ → Paging
init bts num_paging_max paging_lifetime = record {
  bts = bts;
  chan_desc = record { bs_ag_blks_res = 0; bs_pa_mfrms = 0 };
  paging_lifetime = paging_lifetime;
  num_paging_max = num_paging_max;
  num_paging = 0;
  paging_queue = replicate num_queues [];
  cs_priority_active = false;
}

-- The loops of paging_reset: each record freed takes 1 off `num_paging`, an unsigned int.
unfoldable pub flush_records : List PagingRecord → ℕ → ℕ
flush_records [] n = n
flush_records (r ∷ q) n = flush_records q ((n + (u32_mod - 1)) % u32_mod)

unfoldable pub flush_queues : List (List PagingRecord) → ℕ → ℕ
unfolding flush_records
flush_queues [] n = n
flush_queues (q ∷ qs) n = flush_queues qs (flush_records q n)

-- The counter when paging_reset tests it: it logs an error unless this is 0.
unfoldable pub num_after_flush : Paging → ℕ
unfolding flush_queues
num_after_flush p = flush_queues p.paging_queue p.num_paging

-- paging_reset
unfoldable pub reset : Paging → Paging
reset p = record p { paging_queue = replicate (length p.paging_queue) []; num_paging = 0 }

-- paging_group_queue_empty
unfoldable pub group_queue_empty : Paging → ℕ → Bool
group_queue_empty p group =
    if leb num_queues group then true else elim (queue_of p group) [ [] ↦ true | _ ∷ _ ↦ false ]
