-- ===== src/Paging/Delivery.antt =====
-- The calls of the interface of src/common/paging.c, in any order, and the queues they leave.
use osmo_bts.Base.{
  ℕ, ◌≤◌, ◌<◌, ◌≡◌, inl, inr, Bool, Option, none, some, List, [], ◌∷◌, arith, Option-cases,
}
use osmo_bts.Osmo.{ChanDesc, Osmo, OsmoLaws}
use osmo_bts.Paging.Types.{PagingRecord, Bts, Paging, u32_mod, num_queues}
use osmo_bts.Paging.Time.{GsmTime, get_pag_subch_nr, subch_nr-lt}
use osmo_bts.Paging.Queue.{
  check_congestion, queue_of, add_identity, add_macblock, si_update, config, init, reset,
}
use osmo_bts.Paging.Gen.{
  collect, add_heads, send_block, send_request, send_queue, send_etws, send_empty, serve, serve_at,
  gen_msg, count_block, count_used,
}
use osmo_bts.Paging.Counting.{
  count, is_normal, count-collect, count-add_heads, count-le-count_all, collect-normal,
}
use osmo_bts.Paging.Service.{served, num-served, num-served-le}
use osmo_bts.Paging.Invariant.{
  IsValid, check_congestion-IsValid, put_queue-IsValid, add_identity-IsValid, add_macblock-IsValid,
  init-IsValid, reset-IsValid,
}

module _ (o : Osmo) (now : ℕ) (p : Paging) (group : ℕ) (v : IsValid p)
    (lt : group < num_queues) where
  fits : count is_normal (queue_of p group) ≤ p.num_paging
  fits = omega (arith, v.counted, count-le-count_all is_normal p.paging_queue group)

  send_request-IsValid :
      (collect 4 (queue_of p group)).block ≡ none
      → IsValid (send_request o now p group (collect 4 (queue_of p group))).state
  send_request-IsValid plain =
      put_queue-IsValid (record p { bts = sent }) group done.1 done.0 (ground arith) lt
        (omega (
          arith,
          v.bounded,
          num-served-le o p.bts now p.num_paging (queue_of p group) plain fits v.bounded,
        ))
        (num-served o p.bts now p.num_paging (queue_of p group) plain fits v.bounded)
    where
      sent : Bts
      sent = (send_request o now p group (collect 4 (queue_of p group))).state.bts

      done : List PagingRecord × ℕ
      done = served o p.bts now p.num_paging (queue_of p group)

  send_block-IsValid : IsValid (send_block p group (collect 4 (queue_of p group))).state
  send_block-IsValid =
      put_queue-IsValid
        (record p { bts = (send_block p group (collect 4 (queue_of p group))).state.bts }) group
        p.num_paging
        (add_heads (collect 4 (queue_of p group)).records (collect 4 (queue_of p group)).rest)
        (ground arith) lt v.bounded
        (omega (
          arith,
          count-collect is_normal 4 (queue_of p group),
          collect-normal 4 (queue_of p group),
          count-add_heads is_normal (collect 4 (queue_of p group)).records
              (collect 4 (queue_of p group)).rest,
        ))

  send_queue-IsValid : IsValid (send_queue o now p group).state
  unfolding send_queue
  send_queue-IsValid = elim (Option-cases (collect 4 (queue_of p group)).block) [
    | inl e ↦ rw (e, send_queue) (send_request-IsValid e)
    | inr (b, e) ↦ rw (e, send_queue) send_block-IsValid
  ]

serve-IsValid :
    (o : Osmo) (now : ℕ) (p : Paging) (group : ℕ) (notif : Option (List ℕ)) (q : List PagingRecord)
    → IsValid p
    → group < num_queues
    → IsValid (serve o now p group notif q).state
unfolding serve send_etws send_empty
serve-IsValid o now p group (some notif) q v lt = ground arith
serve-IsValid o now p group none [] v lt = v
serve-IsValid o now p group none (r ∷ q) v lt =
    send_queue-IsValid o now (count_used p) group (used v) lt
  where
    used : {p : Paging} → IsValid p → IsValid (count_used p)
    used v = ground arith

gen_msg-IsValid :
    (o : Osmo) (now : ℕ) (gt : GsmTime) (p : Paging)
    → OsmoLaws o
    → IsValid p
    → IsValid (gen_msg o now gt p).state
unfolding gen_msg serve_at
gen_msg-IsValid o now gt p0 laws v0 = elim (Option-cases (get_pag_subch_nr o p.chan_desc gt)) [
  | inl e ↦ rw (e, serve_at) v
  | inr (group, e) ↦
      rw (e, serve_at)
        (serve-IsValid o now p group p.bts.etws.prim_notif (queue_of p group) v
          (subch_nr-lt o p.chan_desc gt group laws v.mfrms e))
]
  where
    p : Paging
    p = count_block (check_congestion p0)

    counted : {p : Paging} → IsValid p → IsValid (count_block p)
    counted v = ground arith

    v : IsValid p
    v = counted (check_congestion-IsValid p0 v0)

-- The calls of the interface; a CCCH description has 3 bits for BS_PA_MFRMS.
pub data Call : Type 0 where
  pages : Bool → (now group : ℕ) → (id : List ℕ) → (chan_needed : ℕ) → Call
  blocks : Bool → (msg_id : ℕ) → (imsi : List ℕ) → Bool → (msg : List ℕ) → Call
  serves : (now : ℕ) → GsmTime → Call
  sysinfo : (c : ChanDesc) → c.bs_pa_mfrms ≤ 7 → Call
  configures : (max life : ℕ) → max < u32_mod → Call
  flushes : Call

pub step : Osmo → Paging → Call → Paging
step o p (pages memory now group id chan_needed) =
    (add_identity o memory now group id chan_needed p).0
step o p (blocks memory msg_id imsi confirm msg) =
    (add_macblock o memory msg_id imsi confirm msg p).0
step o p (serves now gt) = (gen_msg o now gt p).state
step o p (sysinfo c h) = si_update c p
step o p (configures max life h) = config max life p
step o p flushes = reset p

pub run : Osmo → Paging → List Call → Paging
run o p [] = p
run o p (c ∷ cs) = run o (step o p c) cs

step-IsValid : (o : Osmo) (p : Paging) (c : Call) → OsmoLaws o → IsValid p → IsValid (step o p c)
unfolding step si_update config
step-IsValid o p (pages memory now group id chan_needed) laws v =
    add_identity-IsValid o memory now group id chan_needed p laws v
step-IsValid o p (blocks memory msg_id imsi confirm msg) laws v =
    add_macblock-IsValid o memory msg_id imsi confirm msg p laws v
step-IsValid o p (serves now gt) laws v = gen_msg-IsValid o now gt p laws v
step-IsValid o p (sysinfo c h) laws v = ground arith
step-IsValid o p (configures max life h) laws v = ground arith
step-IsValid o p flushes laws v = reset-IsValid p v

run-IsValid :
    (o : Osmo) (p : Paging) (cs : List Call) → OsmoLaws o → IsValid p → IsValid (run o p cs)
unfolding run
run-IsValid o p [] laws v = v
run-IsValid o p (c ∷ cs) laws v = run-IsValid o (step o p c) cs laws (step-IsValid o p c laws v)

-- After any calls on a fresh paging state: there are 81 queues, `num_paging` is the number of the
-- normal records in them and has not wrapped, and BS_PA_MFRMS is in range.
pub run-init-IsValid :
    (o : Osmo) (bts : Bts) (max life : ℕ) (cs : List Call)
    → OsmoLaws o
    → max < u32_mod
    → IsValid (run o (init bts max life) cs)
run-init-IsValid o bts max life cs laws h = run-IsValid o _ cs laws (init-IsValid bts max life h)
