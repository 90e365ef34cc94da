-- ===== src/Csd/Packing.antt =====
-- The octets of src/common/csd_v110.c carry their bits.
use osmo_bts.Base.{ℕ, zero, suc, ◌*◌, ◌≡◌, refl, ap, true, List, [], ◌∷◌, length, all, arith}
use osmo_bts.Csd.Rtp.{is_bit, pack_2, pack_1, unpack_2, unpack_1}

pub unpack_2-pack_2 :
    (n : ℕ) (bits : List ℕ)
    → length bits ≡ 2 * n
    → all is_bit bits ≡ true
    → unpack_2 (pack_2 n bits) ≡ bits × length (pack_2 n bits) ≡ n
unfolding unpack_2 pack_2
unpack_2-pack_2 zero [] l h = (refl, refl)
unpack_2-pack_2 zero (a ∷ bits) l h = absurd (omega arith)
unpack_2-pack_2 (suc n) [] l h = absurd (omega arith)
unpack_2-pack_2 (suc n) (a ∷ []) l h = absurd (omega arith)
unpack_2-pack_2 (suc n) (zero ∷ zero ∷ bits) l h =
    let r = unpack_2-pack_2 n bits (omega arith) h in (ap (λ x. 0 ∷ 0 ∷ x) r.0, ap suc r.1)
unpack_2-pack_2 (suc n) (zero ∷ suc zero ∷ bits) l h =
    let r = unpack_2-pack_2 n bits (omega arith) h in (ap (λ x. 0 ∷ 1 ∷ x) r.0, ap suc r.1)
unpack_2-pack_2 (suc n) (suc zero ∷ zero ∷ bits) l h =
    let r = unpack_2-pack_2 n bits (omega arith) h in (ap (λ x. 1 ∷ 0 ∷ x) r.0, ap suc r.1)
unpack_2-pack_2 (suc n) (suc zero ∷ suc zero ∷ bits) l h =
    let r = unpack_2-pack_2 n bits (omega arith) h in (ap (λ x. 1 ∷ 1 ∷ x) r.0, ap suc r.1)
unpack_2-pack_2 (suc n) (zero ∷ suc (suc b) ∷ bits) l h = absurd (ground arith)
unpack_2-pack_2 (suc n) (suc zero ∷ suc (suc b) ∷ bits) l h = absurd (ground arith)
unpack_2-pack_2 (suc n) (suc (suc a) ∷ b ∷ bits) l h = absurd (ground arith)

pub unpack_1-pack_1 :
    (n : ℕ) (bits : List ℕ)
    → length bits ≡ n
    → all is_bit bits ≡ true
    → unpack_1 (pack_1 n bits) ≡ bits × length (pack_1 n bits) ≡ n
unfolding unpack_1 pack_1
unpack_1-pack_1 zero [] l h = (refl, refl)
unpack_1-pack_1 zero (a ∷ bits) l h = absurd (omega arith)
unpack_1-pack_1 (suc n) [] l h = absurd (omega arith)
unpack_1-pack_1 (suc n) (zero ∷ bits) l h =
    let r = unpack_1-pack_1 n bits (omega arith) h in (ap (λ x. 0 ∷ x) r.0, ap suc r.1)
unpack_1-pack_1 (suc n) (suc zero ∷ bits) l h =
    let r = unpack_1-pack_1 n bits (omega arith) h in (ap (λ x. 1 ∷ x) r.0, ap suc r.1)
unpack_1-pack_1 (suc n) (suc (suc a) ∷ bits) l h = absurd (ground arith)
