-- ===== src/Paging/Counting.antt =====
-- How often records occur in the queues of src/common/paging.c, and what each loop does to that.
use osmo_bts.Base.{
  ℕ, zero, suc, ◌+◌, ◌-◌, ◌%◌, ◌≤◌, ◌<◌, ◌≡◌, inl, inr, refl, sym, ap, ◌∙◌, Bool, true, false, ◌==◌,
  Option, none, some, List, [], ◌∷◌, ◌++◌, length, get_or, set, replicate, leb, if◌then◌else◌,
  arith, Bool-cases, Option-cases,
}
use mathlib.Core.List.{append-nil, append_assoc}
use osmo_bts.Osmo.{Osmo}
use osmo_bts.Paging.Types.{Bts, PagingRecord, normal, macblock, u32_mod}
use osmo_bts.Paging.Queue.{refresh}
use osmo_bts.Paging.Gen.{collect, add_heads, retire, choose, expiration_time, sort_pr_tmsi_imsi}
use osmo_bts.Paging.Sorting.{tmsis, imsis, sort_pr_tmsi_imsi_lem}

-- The number of records of a queue that pass a test, and that of all queues.
unfoldable pub count : (PagingRecord → Bool) → List PagingRecord → ℕ
count f [] = 0
count f (r ∷ rs) = (if f r then 1 else 0) + count f rs

unfoldable pub count_all : (PagingRecord → Bool) → List (List PagingRecord) → ℕ
count_all f [] = 0
count_all f (q ∷ qs) = count f q + count_all f qs

abbrev pub is_normal : PagingRecord → Bool
is_normal (normal e n lv) = true
is_normal (macblock m c i) = false

abbrev pub to_list : Option PagingRecord → List PagingRecord
to_list none = []
to_list (some r) = r ∷ []

-- The records whose time is over, and the others.
unfoldable pub expired : ℕ → List PagingRecord → List PagingRecord
expired now [] = []
expired now (r ∷ rs) = if leb (expiration_time r) now then r ∷ expired now rs else expired now rs

unfoldable pub unexpired : ℕ → List PagingRecord → List PagingRecord
unexpired now [] = []
unexpired now (r ∷ rs) =
    if leb (expiration_time r) now then unexpired now rs else r ∷ unexpired now rs

module _ (f : PagingRecord → Bool) where
  pub count-append : (xs ys : List PagingRecord) → count f (xs ++ ys) ≡ count f xs + count f ys
  unfolding count
  count-append [] ys = omega arith
  count-append (x ∷ xs) ys = omega (arith, count-append xs ys)

  pub count_all-set :
      (qs : List (List PagingRecord)) (i : ℕ) (q : List PagingRecord)
      → i < length qs
      → count_all f (set qs i q) + count f (get_or qs i []) ≡ count_all f qs + count f q
  unfolding count_all
  count_all-set [] i q h = absurd (omega arith)
  count_all-set (p ∷ qs) zero q h = omega arith
  count_all-set (p ∷ qs) (suc i) q h = omega (arith, count_all-set qs i q (omega arith))

  pub count-le-count_all :
      (qs : List (List PagingRecord)) (i : ℕ) → count f (get_or qs i []) ≤ count_all f qs
  unfolding count count_all
  count-le-count_all [] i = omega arith
  count-le-count_all (p ∷ qs) zero = omega arith
  count-le-count_all (p ∷ qs) (suc i) = omega (arith, count-le-count_all qs i)

  pub count_all-replicate : (n : ℕ) → count_all f (replicate n []) ≡ 0
  unfolding count_all count
  count_all-replicate zero = refl
  count_all-replicate (suc n) = omega (arith, count_all-replicate n)

  pub count-collect :
      (n : ℕ) (q : List PagingRecord)
      → count f (collect n q).records
          + count f (to_list (collect n q).block)
          + count f (collect n q).rest
        ≡ count f q
  unfolding count collect
  count-collect zero q = omega arith
  count-collect (suc n) [] = omega arith
  count-collect (suc n) (macblock m c i ∷ q) = omega arith
  count-collect (suc n) (normal e c lv ∷ q) = omega (arith, count-collect n q)

  pub count-add_heads :
      (rs q : List PagingRecord) → count f (add_heads rs q) ≡ count f rs + count f q
  unfolding count add_heads
  count-add_heads [] q = omega arith
  count-add_heads (r ∷ rs) q = omega (arith, count-add_heads rs (r ∷ q))

  count-parts : (xs : List PagingRecord) → count f (tmsis xs) + count f (imsis xs) ≡ count f xs
  unfolding count tmsis imsis
  count-parts [] = refl
  count-parts (x ∷ xs) = ground (arith, count-parts xs)

  pub count-sort : (xs : List PagingRecord) → count f (sort_pr_tmsi_imsi xs) ≡ count f xs
  count-sort xs =
      ap (count f) (sort_pr_tmsi_imsi_lem xs) ∙ count-append (tmsis xs) (imsis xs) ∙ count-parts xs

  pub count-expired :
      (now : ℕ) (xs : List PagingRecord)
      → count f (expired now xs) + count f (unexpired now xs) ≡ count f xs
  unfolding count expired unexpired
  count-expired now [] = refl
  count-expired now (x ∷ xs) = ground (arith, count-expired now xs)

-- The loop that requeues or frees, as one append and one subtraction.
pub retire_lem :
    (now : ℕ) (rs q : List PagingRecord) (num : ℕ)
    → length rs ≤ num
    → num < u32_mod
    → retire now rs q num ≡ (q ++ unexpired now rs, num - length (expired now rs))
unfolding retire expired unexpired
retire_lem now [] q num h lt = ground (arith, append-nil q)
retire_lem now (r ∷ rs) q num h lt = ground (
  arith,
  retire_lem now rs q ((num + (u32_mod - 1)) % u32_mod) (omega arith) (omega arith),
  retire_lem now rs (q ++ r ∷ []) num (omega arith) lt,
  append_assoc q (r ∷ []) (unexpired now rs),
)

-- The choice of the message loses no record and makes none up.
pub paged-append-kept :
    (o : Osmo) (bts : Bts) (n : ℕ) (xs : List PagingRecord)
    → (choose o bts n xs).paged ++ (choose o bts n xs).kept ≡ xs
unfolding choose
paged-append-kept o bts n [] = refl
paged-append-kept o bts n (a ∷ []) = refl
paged-append-kept o bts n (a ∷ b ∷ []) = refl
paged-append-kept o bts n (a ∷ b ∷ c ∷ []) = ground arith
paged-append-kept o bts n (a ∷ b ∷ c ∷ d ∷ xs) = elim (Bool-cases (n == 0)) [
  | inl e ↦ rw e (ap (λ l. a ∷ b ∷ c ∷ d ∷ l) (append-nil xs))
  | inr e ↦ rw e (elim (Bool-cases (leb n 1)) [ inl e' ↦ rw e' | inr e' ↦ rw e' ])
]

pub count-refresh :
    (id : List ℕ) (expires : ℕ) (q q' : List PagingRecord)
    → refresh id expires q ≡ some q'
    → count is_normal q' ≡ count is_normal q
unfolding refresh count
count-refresh id expires [] q' h = cc
count-refresh id expires (macblock m c i ∷ q) q' h = elim (Option-cases (refresh id expires q)) [
  | inl e ↦ ground (arith, e)
  | inr (q'', e) ↦ ground (arith, e, count-refresh id expires q q'' e)
]
count-refresh id expires (normal e n lv ∷ q) q' h = elim (Option-cases (refresh id expires q)) [
  | inl e ↦ ground (arith, e)
  | inr (q'', e) ↦ ground (arith, e, count-refresh id expires q q'' e)
]

-- What the first loop takes: at most `n` records, all normal, and a block that is none.
pub collect-normal :
    (n : ℕ) (q : List PagingRecord)
    → (count is_normal (collect n q).records ≡ length (collect n q).records)
      × (count is_normal (to_list (collect n q).block) ≡ 0)
      × (length (collect n q).records ≤ n)
unfolding collect count
collect-normal zero q = (refl, refl, omega arith)
collect-normal (suc n) [] = (refl, refl, omega arith)
collect-normal (suc n) (macblock m c i ∷ q) = (refl, refl, omega arith)
collect-normal (suc n) (normal e c lv ∷ q) =
    let ih = collect-normal n q in (omega (arith, ih.0), ih.1, omega (arith, ih.2))

abbrev pub every : PagingRecord → Bool
every r = true

pub count-every : (xs : List PagingRecord) → count every xs ≡ length xs
unfolding count
count-every [] = refl
count-every (x ∷ xs) = omega (arith, count-every xs)

pub count-le-length : (f : PagingRecord → Bool) (xs : List PagingRecord) → count f xs ≤ length xs
unfolding count
count-le-length f [] = omega arith
count-le-length f (x ∷ xs) = ground (arith, count-le-length f xs)

-- Where all records are normal, so are those whose time is over.
pub count-expired_normal :
    (now : ℕ) (xs : List PagingRecord)
    → count is_normal xs ≡ length xs
    → count is_normal (expired now xs) ≡ length (expired now xs)
count-expired_normal now xs h = omega (
  arith,
  count-expired is_normal now xs,
  count-expired every now xs,
  count-every xs,
  count-every (expired now xs),
  count-every (unexpired now xs),
  count-le-length is_normal (expired now xs),
  count-le-length is_normal (unexpired now xs),
)

-- The records of a choice, counted as one list.
pub count-choose :
    (f : PagingRecord → Bool) (o : Osmo) (bts : Bts) (n : ℕ) (xs : List PagingRecord)
    → count f (choose o bts n xs).paged + count f (choose o bts n xs).kept ≡ count f xs
count-choose f o bts n xs =
    sym (count-append f (choose o bts n xs).paged (choose o bts n xs).kept)
    ∙ ap (count f) (paged-append-kept o bts n xs)
