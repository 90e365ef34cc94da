-- ===== src/Osmo/Sample.antt =====
-- A concrete library that meets `OsmoLaws`, for the tests: the CCCH divides as in 3GPP TS 45.002.
use osmo_bts.Base.{
  ℕ, zero, suc, ◌+◌, ◌*◌, ◌-◌, ◌/◌, ◌%◌, ◌^◌, ◌≤◌, ◌≡◌, refl, ap, List, [], ◌∷◌, length, ltb, ◌==◌,
  if◌then◌else◌, get_or, arith,
}
use osmo_bts.Osmo.{ChanDesc, Osmo, OsmoLaws}

-- Nine blocks less those reserved for access grants, and one at least.
abbrev n_blocks : ChanDesc → ℕ
n_blocks c = if ltb c.bs_ag_blks_res 9 then 9 - c.bs_ag_blks_res else 1

-- The first `n` octets, filled up with zeros.
abbrev padded : ℕ → List ℕ → List ℕ
padded zero v = []
padded (suc n) [] = 0 ∷ padded n []
padded (suc n) (x ∷ v) = x ∷ padded n v

abbrev pub libosmo : Osmo
libosmo = record {
  n_pag_blocks = n_blocks;
  n_subchannels = λ c. n_blocks c * (c.bs_pa_mfrms + 2);
  calc_paging_group = λ c imsi. imsi % (n_blocks c * (c.bs_pa_mfrms + 2));
  lv_put = λ n v. n ∷ padded n v;
  tlv_put = λ t n v. t ∷ n ∷ padded n v;
  bit_pos = λ octets i. (get_or octets (i / 8) 0 / 2 ^ (7 - i % 8)) % 2 == 1;
  paging1_size = 4;
  paging2_size = 12;
  nch_size = 3;
  sh_size = 2;
  bitvec_write = λ b ops. b;
}

length-padded : (n : ℕ) (v : List ℕ) → length (padded n v) ≡ n
length-padded zero v = refl
length-padded (suc n) [] = ap suc (length-padded n [])
length-padded (suc n) (x ∷ v) = ap suc (length-padded n v)

blocks_pos : (c : ChanDesc) → 1 ≤ n_blocks c
blocks_pos c = ground arith

product_pos : (a b : ℕ) → 1 ≤ a → 1 ≤ a * (b + 2)
product_pos a b h = grind arith

pub libosmo-laws : OsmoLaws libosmo
libosmo-laws = record {
  blocks_le = λ c. ground arith;
  blocks_pos = blocks_pos;
  subchannels_lem = λ c. refl;
  group-lt = λ c imsi. omega (arith, product_pos (n_blocks c) c.bs_pa_mfrms (blocks_pos c));
  length-lv = λ n v. omega (arith, length-padded n v);
  length-tlv = λ t n v. omega (arith, length-padded n v);
  paging1_lem = refl;
  paging2_lem = refl;
  length-bitvec = λ b ops. refl;
}
