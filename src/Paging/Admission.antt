-- ===== src/Paging/Admission.antt =====
-- When src/common/paging.c admits a page or a block of the PCU, and what paging_reset counts.
use osmo_bts.Base.{
  ℕ, ◌+◌, ◌-◌, ◌*◌, ◌/◌, ◌%◌, ◌≤◌, ◌<◌, ◌≡◌, ap, ◌∙◌, true, false, List, [], ◌∷◌, ◌++◌, length,
  get_or, ltb, arith, length-append,
}
use native.Mathlib.Nat.{suc-add}
use osmo_bts.Base.Int.{pos, ◌+ℤ◌, ◌-ℤ◌, scale, to_u16}
use osmo_bts.Paging.Types.{PagingRecord, Paging, u32_mod}
use osmo_bts.Paging.Queue.{
  check_congestion, convert_imsi_to_decimal, flush_records, flush_queues, num_after_flush,
}
use osmo_bts.Paging.Counting.{count_all, every, count-every}
use osmo_bts.Paging.Invariant.{IsValid}

-- The priority of circuit switched pages is a hysteresis: on above 66 percent of the queue, off
-- below 50 percent, and as it was in between.
pub congestion_hysteresis :
    (p : Paging)
    → let on = (check_congestion p).cs_priority_active in
      (p.num_paging_max * 66 / 100 < p.num_paging → on ≡ true)
      × (p.num_paging < p.num_paging_max * 50 / 100 → on ≡ false)
      × (p.num_paging_max * 50 / 100 ≤ p.num_paging
          → p.num_paging ≤ p.num_paging_max * 66 / 100
          → on ≡ p.cs_priority_active)
unfolding check_congestion
congestion_hysteresis p = (λ h. ground arith, λ h. ground arith, λ h h'. ground arith)

get_or-append : (xs ys : List ℕ) (i : ℕ) → get_or (xs ++ ys) (length xs + i) 0 ≡ get_or ys i 0
get_or-append [] ys i = ap (λ k. get_or ys k 0) (omega arith)
get_or-append (x ∷ xs) ys i = rw suc-add (get_or-append xs ys i)

-- The three assignments to `_imsi`, for the characters of three digits.
digits_value :
    (a b c : ℕ)
    → a ≤ 9
    → b ≤ 9
    → c ≤ 9
    → to_u16 (
        pos (
          to_u16 (
            pos (to_u16 (scale 100 (pos (48 + a) -ℤ pos 48))) +ℤ scale 10 (pos (48 + b) -ℤ pos 48)))
        +ℤ (pos (48 + c) -ℤ pos 48))
      ≡ 100 * a + 10 * b + c
unfolding to_u16 scale ◌-ℤ◌ ◌+ℤ◌
digits_value a b c ha hb hc = ground arith

-- The character `k` places before the end of a text with three more.
from_end :
    (xs : List ℕ) (x y z k : ℕ)
    → k ≤ 2
    → get_or (xs ++ x ∷ y ∷ z ∷ []) (length (xs ++ x ∷ y ∷ z ∷ []) - (3 - k)) 0
      ≡ get_or (x ∷ y ∷ z ∷ []) k 0
from_end xs x y z k h =
    ap (λ n. get_or (xs ++ x ∷ y ∷ z ∷ []) n 0) (omega (arith, length-append xs (x ∷ y ∷ z ∷ [])))
    ∙ get_or-append xs (x ∷ y ∷ z ∷ []) k

-- An IMSI that ends in three digits is converted to the number that they write, below 1000.
pub convert_imsi_digits :
    (xs : List ℕ) (a b c : ℕ)
    → a ≤ 9
    → b ≤ 9
    → c ≤ 9
    → convert_imsi_to_decimal (xs ++ (48 + a) ∷ (48 + b) ∷ (48 + c) ∷ []) ≡ 100 * a + 10 * b + c
unfolding convert_imsi_to_decimal
convert_imsi_digits xs a b c ha hb hc =
    rw (not_short, from_end xs (48 + a) (48 + b) (48 + c) 0 (omega arith))
      (rw
        (
          from_end xs (48 + a) (48 + b) (48 + c) 1 (omega arith),
          from_end xs (48 + a) (48 + b) (48 + c) 2 (omega arith),
        )
        (digits_value a b c ha hb hc))
  where
    not_short : ltb (length (xs ++ (48 + a) ∷ (48 + b) ∷ (48 + c) ∷ [])) 3 ≡ false
    not_short = ground (arith, length-append xs ((48 + a) ∷ (48 + b) ∷ (48 + c) ∷ []))

-- A record taken off an unsigned counter, `length q` times.
flush_records_lem :
    (q : List PagingRecord) (n : ℕ)
    → n < u32_mod
    → length q ≤ u32_mod
    → flush_records q n ≡ (n + (u32_mod - length q)) % u32_mod
unfolding flush_records
flush_records_lem [] n h le = omega arith
flush_records_lem (r ∷ q) n h le =
    flush_records_lem q ((n + (u32_mod - 1)) % u32_mod) (omega arith) (omega arith) ∙ omega arith

flush_queues_lem :
    (qs : List (List PagingRecord)) (n : ℕ)
    → n < u32_mod
    → count_all every qs < u32_mod
    → flush_queues qs n ≡ (n + (u32_mod - count_all every qs)) % u32_mod
unfolding flush_queues count_all
flush_queues_lem [] n h le = omega arith
flush_queues_lem (q ∷ qs) n h le =
    let e : flush_records q n ≡ (n + (u32_mod - length q)) % u32_mod =
      flush_records_lem q n h (omega (arith, count-every q)) in
    flush_queues_lem qs (flush_records q n) (omega (arith, e)) (omega arith)
    ∙ omega (arith, e, count-every q)

-- paging_reset takes 1 off for every record, but only normal records were counted: with `m` MAC
-- blocks in the queues the counter ends `m` below 0, modulo 2 ^ 32.
pub num_after_flush_lem :
    (p : Paging) (m : ℕ)
    → IsValid p
    → count_all every p.paging_queue ≡ p.num_paging + m
    → p.num_paging + m < u32_mod
    → num_after_flush p ≡ (u32_mod - m) % u32_mod
unfolding num_after_flush
num_after_flush_lem p m v e lt =
    flush_queues_lem p.paging_queue p.num_paging v.bounded (omega (arith, e)) ∙ omega (arith, e)
