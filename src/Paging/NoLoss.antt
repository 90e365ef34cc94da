-- ===== src/Paging/NoLoss.antt =====
-- The pages that wait in the queues across a call of paging_gen_msg of src/common/paging.c.
use osmo_bts.Base.{
  ℕ, zero, suc, ◌<◌, ◌≡◌, inl, inr, refl, ap, ◌∙◌, Bool, true, Option, none, some, List, [], ◌∷◌,
  length, get_or, arith, Option-cases, get_or-set_self, get_or-set_ne, ==_iff, Bool-cases, ◌==◌,
}
use osmo_bts.Osmo.{Osmo, OsmoLaws}
use osmo_bts.Paging.Types.{PagingRecord, normal, macblock, Paging, num_queues}
use osmo_bts.Paging.Time.{GsmTime, get_pag_subch_nr, subch_nr-lt}
use osmo_bts.Paging.Queue.{check_congestion, queue_of, put_queue}
use osmo_bts.Paging.Gen.{
  collect, add_heads, expiration_time, send_block, send_request, send_queue, send_etws, send_empty,
  serve, serve_at, gen_msg, count_block, count_used,
}
use osmo_bts.Paging.Counting.{
  count, is_normal, to_list, expired, count-collect, count-add_heads, count-le-count_all,
}
use osmo_bts.Paging.Service.{paged, served, count-served}
use osmo_bts.Paging.Invariant.{IsValid, check_congestion-IsValid}

-- A page whose time is not over.
abbrev pub IsPending : ℕ → PagingRecord → Type 0
IsPending now r = (is_normal r ≡ true) × (now < expiration_time r)

-- A test that only such pages pass.
abbrev pub SelectsPending : ℕ → (PagingRecord → Bool) → Type 0
SelectsPending now f = (r : PagingRecord) → f r ≡ true → IsPending now r

module _ (now : ℕ) (f : PagingRecord → Bool) (pending : SelectsPending now f) where
  count-expired_zero : (xs : List PagingRecord) → count f (expired now xs) ≡ 0
  unfolding count expired
  count-expired_zero [] = refl
  count-expired_zero (x ∷ xs) = ground (arith, pending x, count-expired_zero xs)

  count-block : (n : ℕ) (q : List PagingRecord) → count f (to_list (collect n q).block) ≡ 0
  unfolding count collect
  count-block zero q = refl
  count-block (suc n) [] = refl
  count-block (suc n) (macblock m c i ∷ q) = ground (arith, pending (macblock m c i))
  count-block (suc n) (normal e c lv ∷ q) = count-block n q

  -- Putting a queue that holds the pages of the old one as often changes no count of any group.
  count-put_queue :
      (p : Paging) (group g : ℕ) (q : List PagingRecord)
      → group < length p.paging_queue
      → count f q ≡ count f (queue_of p group)
      → count f (queue_of (put_queue p group q) g) ≡ count f (queue_of p g)
  count-put_queue p group g q lt e = elim (Bool-cases (group == g)) [
    | inl same ↦
        let here : group ≡ g = (==_iff group g).0 same in
        rw (← here) (ap (count f) (get_or-set_self p.paging_queue group q [] lt) ∙ e)
    | inr other ↦ ap (count f) (get_or-set_ne p.paging_queue group g q [] (λ e. ground arith))
  ]

  module _ (o : Osmo) (p : Paging) (group : ℕ) (v : IsValid p) (lt : group < num_queues) where
    kept_by_request :
        (g : ℕ)
        → (collect 4 (queue_of p group)).block ≡ none
        → count f (queue_of (send_request o now p group (collect 4 (queue_of p group))).state g)
          ≡ count f (queue_of p g)
    kept_by_request g plain =
        count-put_queue p group g (served o p.bts now p.num_paging (queue_of p group)).0
          (omega (arith, v.queues))
          (omega (
            arith,
            count-served o p.bts now p.num_paging (queue_of p group) plain
                (omega (arith, v.counted, count-le-count_all is_normal p.paging_queue group))
                v.bounded f,
            count-expired_zero (paged o p.bts now p.num_paging (queue_of p group)),
          ))

    kept_by_block :
        (g : ℕ)
        → count f (queue_of (send_block p group (collect 4 (queue_of p group))).state g)
          ≡ count f (queue_of p g)
    kept_by_block g =
        count-put_queue p group g
          (add_heads (collect 4 (queue_of p group)).records (collect 4 (queue_of p group)).rest)
          (omega (arith, v.queues))
          (omega (
            arith,
            count-collect f 4 (queue_of p group),
            count-block 4 (queue_of p group),
            count-add_heads f (collect 4 (queue_of p group)).records
                (collect 4 (queue_of p group)).rest,
          ))

    kept_by_queue :
        (g : ℕ) → count f (queue_of (send_queue o now p group).state g) ≡ count f (queue_of p g)
    unfolding send_queue
    kept_by_queue g = elim (Option-cases (collect 4 (queue_of p group)).block) [
      | inl e ↦ rw (e, send_queue) (kept_by_request g e)
      | inr (b, e) ↦ rw (e, send_queue) (kept_by_block g)
    ]

  serve_keeps :
      (o : Osmo) (p : Paging) (group g : ℕ) (notif : Option (List ℕ)) (q : List PagingRecord)
      → IsValid p
      → group < num_queues
      → count f (queue_of (serve o now p group notif q).state g) ≡ count f (queue_of p g)
  unfolding serve send_etws send_empty
  serve_keeps o p group g (some notif) q v lt = refl
  serve_keeps o p group g none [] v lt = refl
  serve_keeps o p group g none (r ∷ q) v lt = kept_by_queue o (count_used p) group (used v) lt g
    where
      used : {p : Paging} → IsValid p → IsValid (count_used p)
      used v = ground arith

check_congestion_keeps : (p : Paging) → (check_congestion p).paging_queue ≡ p.paging_queue
unfolding check_congestion
check_congestion_keeps p = ground arith

-- A block on the paging channel, whatever it sends, leaves every page whose time is not over as
-- often in its group's queue as it was, in every group: a test `f` that only such pages pass
-- counts the same before and after.
pub gen_msg_keeps_pages :
    (o : Osmo) (now : ℕ) (gt : GsmTime) (p : Paging) (f : PagingRecord → Bool) (g : ℕ)
    → OsmoLaws o
    → IsValid p
    → SelectsPending now f
    → count f (queue_of (gen_msg o now gt p).state g) ≡ count f (queue_of p g)
unfolding gen_msg serve_at
gen_msg_keeps_pages o now gt p0 f g laws v0 pending =
    elim (Option-cases (get_pag_subch_nr o p.chan_desc gt)) [
      | inl e ↦ rw (e, serve_at) unchanged
      | inr (group, e) ↦
          rw (e, serve_at)
            (serve_keeps now f pending o p group g p.bts.etws.prim_notif (queue_of p group) v
                (subch_nr-lt o p.chan_desc gt group laws v.mfrms e)
              ∙ unchanged)
    ]
  where
    p : Paging
    p = count_block (check_congestion p0)

    counted : {p : Paging} → IsValid p → IsValid (count_block p)
    counted v = ground arith

    v : IsValid p
    v = counted (check_congestion-IsValid p0 v0)

    unchanged : count f (queue_of p g) ≡ count f (queue_of p0 g)
    unchanged = ap (λ qs. count f (get_or qs g [])) (check_congestion_keeps p0)
