-- ===== src/Paging/Invariant.antt =====
-- What holds of the queues of src/common/paging.c after any sequence of calls.
use osmo_bts.Base.{
  ℕ, ◌+◌, ◌*◌, ◌%◌, ◌≤◌, ◌<◌, ◌≡◌, inl, inr, sym, ◌∙◌, Bool, not, List, [], ◌∷◌, length, get_or,
  leb, ltb, if_elim, arith, Bool-cases, Option-cases, length-set, length-replicate,
}
use osmo_bts.Osmo.{ChanDesc, Osmo, OsmoLaws}
use osmo_bts.Paging.Types.{Errno, PagingRecord, macblock, Bts, Paging, u32_mod, num_queues}
use osmo_bts.Paging.Queue.{
  check_congestion, count_on, count_rcvd, count_dropped_ps, queue_of, put_queue, refresh, enqueue,
  after_search, add_checked, add_identity, add_macblock, init, reset, convert_imsi_to_decimal,
}
use osmo_bts.Paging.Counting.{
  count, count_all, is_normal, count_all-set, count_all-replicate, count-refresh,
}

-- `num_paging` is the number of normal records in the queues: MAC blocks are not counted.
pub record IsValid (p : Paging) : Type 0 where
  pub queues : length p.paging_queue ≡ num_queues
  pub counted : p.num_paging ≡ count_all is_normal p.paging_queue
  pub limit : p.num_paging_max < u32_mod
  pub bounded : p.num_paging < u32_mod
  pub mfrms : p.chan_desc.bs_pa_mfrms ≤ 7

pub check_congestion-IsValid : (p : Paging) → IsValid p → IsValid (check_congestion p)
unfolding check_congestion
check_congestion-IsValid p v = ground arith

product_le : (a b k n : ℕ) → a ≤ k → b ≤ n → a * b ≤ k * n
product_le a b k n p q = grind arith

pub subchannels-le :
    (o : Osmo) (c : ChanDesc) → OsmoLaws o → c.bs_pa_mfrms ≤ 7 → o.n_subchannels c ≤ num_queues
subchannels-le o c laws h = omega (
  arith,
  laws.subchannels_lem c,
  product_le (o.n_pag_blocks c) (c.bs_pa_mfrms + 2) 9 9 (laws.blocks_le c) (omega arith),
)

-- Any queue may be put for a group, with the number of its normal records in `num_paging`.
pub put_queue-IsValid :
    (p : Paging) (group num : ℕ) (q : List PagingRecord)
    → IsValid p
    → group < num_queues
    → num < u32_mod
    → num + count is_normal (queue_of p group) ≡ p.num_paging + count is_normal q
    → IsValid (record (put_queue p group q) { num_paging = num })
put_queue-IsValid p group num q v lt bound e = record {
  queues = length-set p.paging_queue group q ∙ v.queues;
  counted = omega (
    arith,
    e,
    v.counted,
    count_all-set is_normal p.paging_queue group q (omega (arith, v.queues)),
  );
  limit = v.limit;
  bounded = bound;
  mfrms = v.mfrms;
}

pub enqueue-IsValid :
    (memory : Bool) (now group : ℕ) (id : List ℕ) (chan_needed : ℕ) (p : Paging)
    → IsValid p
    → group < num_queues
    → p.num_paging < p.num_paging_max
    → IsValid (enqueue memory now group id chan_needed p).0
unfolding enqueue
enqueue-IsValid memory now group id chan_needed p v lt room = elim (Bool-cases (not memory)) [
  | inl e ↦ rw e v
  | inr e ↦ rw e (elim (Bool-cases (ltb 9 (get_or id 0 0 + 1))) [
    | inl e' ↦ rw e' v
    | inr e' ↦ rw e' (
        put_queue-IsValid p group ((p.num_paging + 1) % u32_mod) _ v lt (omega arith)
          (unfold count in omega (arith, v.limit, room)))
  ])
]

after_search-IsValid :
    (memory : Bool) (now group : ℕ) (id : List ℕ) (chan_needed expires : ℕ) (p : Paging)
    → IsValid p
    → group < num_queues
    → p.num_paging < p.num_paging_max
    → IsValid
        (after_search memory now group id chan_needed p (refresh id expires (queue_of p group))).0
unfolding after_search
after_search-IsValid memory now group id chan_needed expires p v lt room =
    elim (Option-cases (refresh id expires (queue_of p group))) [
      | inl e ↦ rw (e, after_search) (enqueue-IsValid memory now group id chan_needed p v lt room)
      | inr (q, e) ↦
          rw (e, after_search)
            (put_queue-IsValid p group p.num_paging q v lt v.bounded
              (omega (arith, count-refresh id expires (queue_of p group) q e)))
    ]

add_checked-IsValid :
    (o : Osmo) (memory : Bool) (now group : ℕ) (id : List ℕ) (chan_needed : ℕ) (p : Paging)
    → OsmoLaws o
    → IsValid p
    → IsValid (add_checked o memory now group id chan_needed p).0
unfolding add_checked
add_checked-IsValid o memory now group id chan_needed p laws v =
    elim (Bool-cases (leb (o.n_subchannels p.chan_desc) group)) [
      | inl e ↦ rw e (ground arith)
      | inr e ↦ rw e (elim (Bool-cases (leb p.num_paging_max p.num_paging)) [
        | inl full ↦ rw full (ground arith)
        | inr room ↦ rw room (
            after_search-IsValid memory now group id chan_needed (now + p.paging_lifetime) p v
              (ground (arith, subchannels-le o p.chan_desc laws v.mfrms)) (ground arith))
      ])
    ]

-- Adding an identity, on every branch.
pub add_identity-IsValid :
    (o : Osmo) (memory : Bool) (now group : ℕ) (id : List ℕ) (chan_needed : ℕ) (p : Paging)
    → OsmoLaws o
    → IsValid p
    → IsValid (add_identity o memory now group id chan_needed p).0
unfolding add_identity
add_identity-IsValid o memory now group id chan_needed p laws v =
    add_checked-IsValid o memory now group id chan_needed _ laws
      (counted (check_congestion-IsValid p v))
  where
    counted : {p : Paging} → IsValid p → IsValid (count_on p count_rcvd)
    counted v = ground arith

pub add_macblock-IsValid :
    (o : Osmo) (memory : Bool) (msg_id : ℕ) (imsi : List ℕ) (confirm : Bool) (msg : List ℕ)
    (p : Paging)
    → OsmoLaws o
    → IsValid p
    → IsValid (add_macblock o memory msg_id imsi confirm msg p).0
unfolding add_macblock count
add_macblock-IsValid o memory msg_id imsi confirm msg p0 laws v0 =
    if_elim (λ (r : Paging × Errno). IsValid r.0) p.cs_priority_active _ _ (λ e. counted_one v)
      (λ e.
        if_elim (λ (r : Paging × Errno). IsValid r.0) (not memory) _ _ (λ e'. v)
          (λ e'. put_queue-IsValid p group p.num_paging _ v lt v.bounded counted))
  where
    p : Paging
    p = check_congestion p0

    counted_one : {p : Paging} → IsValid p → IsValid (count_on p count_dropped_ps)
    counted_one v = ground arith

    v : IsValid p
    v = check_congestion-IsValid p0 v0

    group : ℕ
    group = o.calc_paging_group p.chan_desc (convert_imsi_to_decimal imsi)

    lt : group < num_queues
    lt = omega (
      arith,
      laws.group-lt p.chan_desc (convert_imsi_to_decimal imsi),
      subchannels-le o p.chan_desc laws v.mfrms,
    )

    counted :
        p.num_paging + count is_normal (queue_of p group)
        ≡ p.num_paging + count is_normal (macblock msg confirm msg_id ∷ queue_of p group)
    counted = omega arith

pub init-IsValid : (bts : Bts) (max life : ℕ) → max < u32_mod → IsValid (init bts max life)
unfolding init
init-IsValid bts max life h = record {
  queues = length-replicate {A = List PagingRecord} num_queues [];
  counted = sym (count_all-replicate is_normal num_queues);
  limit = h;
  bounded = omega arith;
  mfrms = omega arith;
}

pub reset-IsValid : (p : Paging) → IsValid p → IsValid (reset p)
unfolding reset
reset-IsValid p v = record {
  queues = length-replicate (length p.paging_queue) [] ∙ v.queues;
  counted = sym (count_all-replicate is_normal (length p.paging_queue));
  limit = v.limit;
  bounded = omega arith;
  mfrms = v.mfrms;
}
