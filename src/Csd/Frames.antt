-- ===== src/Csd/Frames.antt =====
-- The frames of src/common/csd_v110.c, block by block.
use osmo_bts.Base.{
  ℕ, zero, suc, ◌+◌, ◌*◌, ◌≤◌, ◌≡◌, refl, ◌∙◌, ap, Bool, true, List, [], ◌∷◌, ◌++◌, length, all,
  take, drop, take-append-drop, length-drop, length-append, arith, ◌⊎◌, inl, inr,
}
use osmo_bts.Csd.Rtp.{
  V110, V110Laws, is_bit, CsdMode, e_bits, encode_block, encode_blocks, decode_block, decode_blocks,
}

take-append_exact :
    (n : ℕ) (xs ys : List ℕ) → length xs ≡ n → take n (xs ++ ys) ≡ xs × drop n (xs ++ ys) ≡ ys
take-append_exact zero [] ys h = (refl, refl)
take-append_exact zero (x ∷ xs) ys h = absurd (omega arith)
take-append_exact (suc n) [] ys h = absurd (omega arith)
take-append_exact (suc n) (x ∷ xs) ys h =
    let r = take-append_exact n xs ys (omega arith) in (ap (λ l. x ∷ l) r.0, r.1)

length-take_le : (n : ℕ) (xs : List ℕ) → n ≤ length xs → length (take n xs) ≡ n
length-take_le zero xs h = refl
length-take_le (suc n) [] h = absurd (omega arith)
length-take_le (suc n) (x ∷ xs) h = ap suc (length-take_le n xs (omega arith))

all-take :
    (p : ℕ → Bool) (n : ℕ) (xs : List ℕ)
    → all p xs ≡ true
    → all p (take n xs) ≡ true × all p (drop n xs) ≡ true
all-take p zero xs h = (refl, h)
all-take p (suc n) [] h = (refl, refl)
all-take p (suc n) (x ∷ xs) h = let r = all-take p n xs (ground arith) in ground arith

pub all-append :
    (p : ℕ → Bool) (xs ys : List ℕ) → all p xs ≡ true → all p ys ≡ true → all p (xs ++ ys) ≡ true
all-append p [] ys h g = g
all-append p (x ∷ xs) ys h g = let r = all-append p xs ys (ground arith) g in ground arith

module _ {F : Type 0} (v : V110 F) (w : V110Laws v) (m : CsdMode) where
  decode_block-encode_block :
      (nb i : ℕ) (xs : List ℕ)
      → (nb ≡ 60) ⊎ (nb ≡ 36)
      → length xs ≡ nb
      → decode_block v nb (encode_block v m nb i xs) ≡ xs
  unfolding encode_block decode_block
  decode_block-encode_block nb i xs (inl e) l =
      let e0 = e_bits m i in let s = w.inverse_60 e0.0 e0.1 e0.2 xs (l ∙ e) in ground arith
  decode_block-encode_block nb i xs (inr e) l =
      let e0 = e_bits m i in let s = w.inverse_36 e0.0 e0.1 e0.2 xs (l ∙ e) in ground arith

  length-encode_block : (nb i : ℕ) (xs : List ℕ) → length (encode_block v m nb i xs) ≡ 80
  unfolding encode_block
  length-encode_block nb i xs =
      let e0 = e_bits m i in
      let s = w.length-encode_80 (v.set_e e0.0 e0.1 e0.2 (v.decode_60 xs)) in
      let t = w.length-encode_80 (v.set_e e0.0 e0.1 e0.2 (v.decode_36 xs)) in ground arith

  bits-encode_block :
      (nb i : ℕ) (xs : List ℕ) → all is_bit xs ≡ true → all is_bit (encode_block v m nb i xs) ≡ true
  unfolding encode_block
  bits-encode_block nb i xs h =
      let e0 = e_bits m i in
      let s = w.bits-encode_60 e0.0 e0.1 e0.2 xs h in
      let t = w.bits-encode_36 e0.0 e0.1 e0.2 xs h in ground arith

  pub encode_blocks_lem :
      (nb n i : ℕ) (data_bits : List ℕ)
      → all is_bit data_bits ≡ true
      → all is_bit (encode_blocks v m nb n i data_bits) ≡ true
        × length (encode_blocks v m nb n i data_bits) ≡ 80 * n
  unfolding encode_blocks
  encode_blocks_lem nb zero i d h = (refl, refl)
  encode_blocks_lem nb (suc n) i d h =
      let a = all-take is_bit nb d h in
      let x = encode_block v m nb i (take nb d) in
      let y = encode_blocks v m nb n (i + 1) (drop nb d) in
      let r = encode_blocks_lem nb n (i + 1) (drop nb d) a.1 in
      let l = length-encode_block nb i (take nb d) in
      (
        all-append is_bit x y (bits-encode_block nb i (take nb d) a.0) r.0,
        length-append x y ∙ omega arith,
      )

  pub decode_blocks-encode_blocks :
      (nb n i : ℕ) (data_bits : List ℕ)
      → (nb ≡ 60) ⊎ (nb ≡ 36)
      → length data_bits ≡ n * nb
      → decode_blocks v nb n (encode_blocks v m nb n i data_bits) ≡ data_bits
  unfolding encode_blocks decode_blocks
  decode_blocks-encode_blocks nb zero i [] e h = refl
  decode_blocks-encode_blocks nb zero i (x ∷ d) e h = absurd (omega arith)
  decode_blocks-encode_blocks nb (suc n) i d e h =
      let x = encode_block v m nb i (take nb d) in
      let y = encode_blocks v m nb n (i + 1) (drop nb d) in
      let t = take-append_exact 80 x y (length-encode_block nb i (take nb d)) in
      let k : nb ≤ length d = omega arith in
      let q = length-drop nb d in
      let r = decode_blocks-encode_blocks nb n (i + 1) (drop nb d) e (omega arith) in
      let s = decode_block-encode_block nb i (take nb d) e (length-take_le nb d k) in
      ap (λ z. decode_block v nb z ++ decode_blocks v nb n (drop 80 (x ++ y))) t.0
      ∙ ap (λ z. decode_block v nb x ++ decode_blocks v nb n z) t.1
      ∙ ap (λ z. z ++ decode_blocks v nb n y) s
      ∙ ap (λ z. take nb d ++ z) r
      ∙ take-append-drop nb d
