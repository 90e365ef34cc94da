-- ===== src/Paging/Time.antt =====
-- Which paging group a frame serves: get_pag_idx_n and get_pag_subch_nr of src/common/paging.c.
use osmo_bts.Base.{
  ℕ, ◌+◌, ◌-◌, ◌*◌, ◌/◌, ◌%◌, ◌≤◌, ◌<◌, ◌≡◌, ◌⊎◌, inl, inr, refl, true, Option, none, some, List,
  [], ◌∷◌, get_or, ltb, ◌==◌, if◌then◌else◌, arith, ◌∙◌, Option-cases, ◌||◌, leb, get_or-all,
}
use native.Mathlib.Nat.{add-mul-mod_self_right, add-mul-div_right, mod-eq_of_lt, div-eq_of_lt}
use osmo_bts.Osmo.{ChanDesc, Osmo, OsmoLaws}
use osmo_bts.Paging.Types.{num_queues}

-- `struct gsm_time`: the frame number and its remainder by 51.
pub record GsmTime : Type 0 where
  pub fn : ℕ
  pub t3 : ℕ

-- Paging block numbers in a simple non-combined CCCH; 255 marks frames of other channels.
abbrev block_by_tdma51 : List ℕ
block_by_tdma51 =
    255 ∷ 255 ∷ 255 ∷ 255 ∷ 255 ∷ 255 ∷ 0 ∷ 0 ∷ 0 ∷ 0 ∷ 255 ∷ 255 ∷ 1 ∷ 1 ∷ 1 ∷ 1 ∷ 2 ∷ 2 ∷ 2 ∷ 2
    ∷ 255 ∷ 255 ∷ 3 ∷ 3 ∷ 3 ∷ 3 ∷ 4 ∷ 4 ∷ 4 ∷ 4 ∷ 255 ∷ 255 ∷ 5 ∷ 5 ∷ 5 ∷ 5 ∷ 6 ∷ 6 ∷ 6 ∷ 6 ∷ 255
    ∷ 255 ∷ 7 ∷ 7 ∷ 7 ∷ 7 ∷ 8 ∷ 8 ∷ 8 ∷ 8 ∷ 255 ∷ []

-- The table's entry; a gsm_time has `t3` below 51.
unfoldable pub block_at : ℕ → ℕ
block_at t3 = get_or block_by_tdma51 t3 255

-- `none` is -EINVAL.
unfoldable pub get_pag_idx_n : ChanDesc → GsmTime → Option ℕ
unfolding block_at
get_pag_idx_n c gt =
    let blk_n = block_at gt.t3 in
    if blk_n == 255
    then none
    else if ltb blk_n c.bs_ag_blks_res
    then none
    else some (blk_n - c.bs_ag_blks_res)

unfoldable pub get_pag_subch_nr : Osmo → ChanDesc → GsmTime → Option ℕ
unfolding get_pag_idx_n
get_pag_subch_nr o c gt = elim (get_pag_idx_n c gt) [
  | none ↦ none
  | some idx ↦ some (idx + (gt.fn / 51) % (c.bs_pa_mfrms + 2) * o.n_pag_blocks c)
]

block_test : (b : ℕ) → ((b == 255) || leb b 8) ≡ true → (b ≡ 255) ⊎ (b ≤ 8)
block_test b h = ground arith

-- Every entry of the table is a block of the multiframe or 255.
block_table : (t3 : ℕ) → (block_at t3 ≡ 255) ⊎ (block_at t3 ≤ 8)
unfolding block_at
block_table t3 =
    block_test (get_or block_by_tdma51 t3 255)
      (get_or-all (λ b. (b == 255) || leb b 8) block_by_tdma51 t3 255 refl refl)

pag_idx-le :
    (c : ChanDesc) (gt : GsmTime) (idx : ℕ)
    → get_pag_idx_n c gt ≡ some idx
    → idx + c.bs_ag_blks_res ≤ 8
unfolding get_pag_idx_n
pag_idx-le c gt idx h = ground (arith, block_table gt.t3)

product_le : (a b k n : ℕ) → a ≤ k → b ≤ n → a * b ≤ k * n
product_le a b k n p q = grind arith

-- The group is an index of the queues, for every configuration that 3GPP TS 45.002 allows.
pub subch_nr-lt :
    (o : Osmo) (c : ChanDesc) (gt : GsmTime) (r : ℕ)
    → OsmoLaws o
    → c.bs_pa_mfrms ≤ 7
    → get_pag_subch_nr o c gt ≡ some r
    → r < num_queues
unfolding get_pag_subch_nr
subch_nr-lt o c gt r laws mf h = elim (Option-cases (get_pag_idx_n c gt)) [
  | inl e ↦ ground (arith, e)
  | inr (idx, e) ↦ ground (
    arith,
    e,
    pag_idx-le c gt idx e,
    laws.blocks_le c,
    product_le ((gt.fn / 51) % (c.bs_pa_mfrms + 2)) (o.n_pag_blocks c) 8 9,
  )
]

digits_lem : (i n q : ℕ) → i < n → ((i + q * n) % n ≡ i) × ((i + q * n) / n ≡ q)
digits_lem i n q h = (
  add-mul-mod_self_right i q n ∙ mod-eq_of_lt h,
  add-mul-div_right i q (omega arith) ∙ omega (arith, div-eq_of_lt h),
)

-- Where the frame's block is one of those that carry paging, the group tells the block within the
-- multiframe and the multiframe within the paging period.
pub subch_nr_digits :
    (o : Osmo) (c : ChanDesc) (gt : GsmTime) (idx r : ℕ)
    → get_pag_idx_n c gt ≡ some idx
    → idx < o.n_pag_blocks c
    → get_pag_subch_nr o c gt ≡ some r
    → (r % o.n_pag_blocks c ≡ idx) × (r / o.n_pag_blocks c ≡ (gt.fn / 51) % (c.bs_pa_mfrms + 2))
unfolding get_pag_subch_nr
subch_nr_digits o c gt idx r e lt h =
    ground (arith, digits_lem idx (o.n_pag_blocks c) ((gt.fn / 51) % (c.bs_pa_mfrms + 2)) lt)
