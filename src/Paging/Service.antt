-- ===== src/Paging/Service.antt =====
-- What a call of paging_gen_msg does to the queue of its group: the records that it takes, pages,
-- requeues and frees.
use osmo_bts.Base.{ℕ, ◌+◌, ◌-◌, ◌≤◌, ◌<◌, ◌≡◌, ap, ◌∙◌, Bool, none, List, ◌++◌, length, arith}
use osmo_bts.Osmo.{Osmo}
use osmo_bts.Paging.Types.{PagingRecord, Bts, u32_mod}
use osmo_bts.Paging.Gen.{Taken, collect, add_heads, retire, choose, count_imsi, sort_pr_tmsi_imsi}
use osmo_bts.Paging.Counting.{
  count, is_normal, every, to_list, expired, unexpired, count-append, count-collect,
  count-add_heads, count-sort, count-expired, count-le-length, retire_lem, count-choose,
  collect-normal, count-every, count-expired_normal,
}

-- A queue `q` whose next four records hold no MAC block, served at `now` with `num` records
-- counted.
module _ (o : Osmo) (bts : Bts) (now num : ℕ) (q : List PagingRecord) where
  abbrev pub taken : Taken
  taken = collect 4 q

  -- The records that the request pages, and those left over.
  abbrev pub paged : List PagingRecord
  paged = (choose o bts (count_imsi taken.records) (sort_pr_tmsi_imsi taken.records)).paged

  abbrev pub kept : List PagingRecord
  kept = (choose o bts (count_imsi taken.records) (sort_pr_tmsi_imsi taken.records)).kept

  abbrev pub served : List PagingRecord × ℕ
  served = retire now paged (add_heads kept taken.rest) num

  pub count-taken : (f : PagingRecord → Bool) → count f paged + count f kept ≡ count f taken.records
  count-taken f =
      count-choose f o bts (count_imsi taken.records) (sort_pr_tmsi_imsi taken.records)
      ∙ count-sort f taken.records

  -- Every record that is taken is normal, so every record that is paged is.
  paged_normal : count is_normal paged ≡ length paged
  paged_normal = omega (
    arith,
    count-taken is_normal,
    count-taken every,
    count-every paged,
    count-every kept,
    count-every taken.records,
    collect-normal 4 q,
    count-le-length is_normal paged,
    count-le-length is_normal kept,
  )

  module _ (plain : taken.block ≡ none) (fits : count is_normal q ≤ num)
      (bound : num < u32_mod) where
    paged-le : length paged ≤ num
    paged-le = omega (arith, fits, paged_normal, count-taken is_normal, count-collect is_normal 4 q)

    pub served_lem :
        served
        ≡ (add_heads kept taken.rest ++ unexpired now paged, num - length (expired now paged))
    served_lem = retire_lem now paged (add_heads kept taken.rest) num paged-le bound

    -- Each record is in the queue as often as before, but for those freed.
    pub count-served :
        (f : PagingRecord → Bool) → count f served.0 + count f (expired now paged) ≡ count f q
    unfolding count
    count-served f = omega (
      arith,
      ap (λ s. count f s.0) served_lem,
      count-append f (add_heads kept taken.rest) (unexpired now paged),
      count-add_heads f kept taken.rest,
      count-expired f now paged,
      count-taken f,
      count-collect f 4 q,
      ap (λ b. count f (to_list b)) plain,
    )

    pub num-served : served.1 + count is_normal q ≡ num + count is_normal served.0
    num-served = omega (
      arith,
      ap (λ s. s.1) served_lem,
      count-served is_normal,
      count-expired_normal now paged paged_normal,
      count-le-length every (expired now paged),
      fits,
    )

    pub num-served-le : served.1 ≤ num
    num-served-le = omega (arith, ap (λ s. s.1) served_lem)
