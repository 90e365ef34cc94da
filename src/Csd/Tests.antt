-- ===== src/Csd/Tests.antt =====
-- The RTP payload of src/common/csd_v110.c for concrete frames. The libraries are stood for by frames of 80
-- bits that carry up to 60 bits as they are, E1 to E3 and padding.
use osmo_bts.Base.{
  ℕ, zero, suc, ◌+◌, ◌*◌, ◌%◌, ◌≤◌, ◌≡◌, ◌≢◌, refl, ◌∙◌, ap, true, List, [], ◌∷◌, ◌++◌, length, all,
  get_or, replicate, arith, length-append,
}
use osmo_bts.Csd.Rtp.{
  V110, V110Laws, is_bit, data_3k6, csd_nt, Lchan, done, csd_v110_rtp_encode, csd_v110_rtp_decode,
  csd_v110_lchan_desc,
}
use osmo_bts.Csd.Frames.{all-append}
use osmo_bts.Csd.Roundtrip.{rtp_decode-rtp_encode, desc_of}

-- The first n bits of a list, filled up with zeros.
window : ℕ → List ℕ → List ℕ
window zero xs = []
window (suc n) [] = 0 ∷ window n []
window (suc n) (x ∷ xs) = x ∷ window n xs

record Frame : Type 0 where
  payload_bits : List ℕ
  e1 : ℕ
  e2 : ℕ
  e3 : ℕ

abbrev plain_frame : List ℕ → Frame
plain_frame xs = record { payload_bits = xs; e1 = 0; e2 = 0; e3 = 0 }

unfoldable sample : V110 Frame
sample = record {
  decode_60 = plain_frame;
  encode_60 = λ f. window 60 f.payload_bits;
  decode_36 = plain_frame;
  encode_36 = λ f. window 36 f.payload_bits;
  set_e = λ a b c f. record f { e1 = a; e2 = b; e3 = c };
  encode_80 = λ f. window 60 f.payload_bits ++ f.e1 % 2 ∷ f.e2 % 2 ∷ f.e3 % 2 ∷ replicate 17 1;
  decode_80 = λ xs. record {
    payload_bits = window 60 xs;
    e1 = get_or xs 60 0;
    e2 = get_or xs 61 0;
    e3 = get_or xs 62 0;
  };
}

length-window : (n : ℕ) (xs : List ℕ) → length (window n xs) ≡ n
unfolding window
length-window zero xs = refl
length-window (suc n) [] = ap suc (length-window n [])
length-window (suc n) (x ∷ xs) = ap suc (length-window n xs)

window_exact : (n : ℕ) (xs ys : List ℕ) → length xs ≡ n → window n (xs ++ ys) ≡ xs
unfolding window
window_exact zero [] ys h = refl
window_exact zero (x ∷ xs) ys h = absurd (omega arith)
window_exact (suc n) [] ys h = absurd (omega arith)
window_exact (suc n) (x ∷ xs) ys h = ap (λ l. x ∷ l) (window_exact n xs ys (omega arith))

window-window : (n m : ℕ) (xs : List ℕ) → n ≤ m → window n (window m xs) ≡ window n xs
unfolding window
window-window zero m xs h = refl
window-window (suc n) zero xs h = absurd (omega arith)
window-window (suc n) (suc m) [] h = ap (λ l. 0 ∷ l) (window-window n m [] (omega arith))
window-window (suc n) (suc m) (x ∷ xs) h = ap (λ l. x ∷ l) (window-window n m xs (omega arith))

bits-window : (n : ℕ) (xs : List ℕ) → all is_bit xs ≡ true → all is_bit (window n xs) ≡ true
unfolding window
bits-window zero xs h = refl
bits-window (suc n) [] h = bits-window n [] refl
bits-window (suc n) (x ∷ xs) h = let r = bits-window n xs (ground arith) in ground arith

window_whole : (n : ℕ) (xs : List ℕ) → length xs ≡ n → window n xs ≡ xs
unfolding window
window_whole zero [] h = refl
window_whole zero (x ∷ xs) h = absurd (omega arith)
window_whole (suc n) [] h = absurd (omega arith)
window_whole (suc n) (x ∷ xs) h = ap (λ l. x ∷ l) (window_whole n xs (omega arith))

bits-tail : (a b c : ℕ) → all is_bit (a % 2 ∷ b % 2 ∷ c % 2 ∷ replicate 17 1) ≡ true
bits-tail a b c = ground arith

-- What comes back from 80 bits, in the first n of them.
inverse_lem :
    (n : ℕ) (xs ys : List ℕ)
    → n ≤ 60
    → length xs ≡ n
    → window n (window 60 (window 60 xs ++ ys)) ≡ xs
inverse_lem n xs ys l h =
    ap (window n) (window_exact 60 (window 60 xs) ys (length-window 60 xs))
    ∙ window-window n 60 xs l
    ∙ window_whole n xs h

sample-V110Laws : V110Laws sample
unfolding sample
sample-V110Laws = record {
  length-encode_80 = λ f.
      length-append (window 60 f.payload_bits) (f.e1 % 2 ∷ f.e2 % 2 ∷ f.e3 % 2 ∷ replicate 17 1)
      ∙ ap (λ n. n + 20) (length-window 60 f.payload_bits);
  bits-encode_60 = λ a b c xs h.
      all-append is_bit (window 60 xs) (a % 2 ∷ b % 2 ∷ c % 2 ∷ replicate 17 1)
        (bits-window 60 xs h) (bits-tail a b c);
  bits-encode_36 = λ a b c xs h.
      all-append is_bit (window 60 xs) (a % 2 ∷ b % 2 ∷ c % 2 ∷ replicate 17 1)
        (bits-window 60 xs h) (bits-tail a b c);
  inverse_60 =
      λ a b c xs h. inverse_lem 60 xs (a % 2 ∷ b % 2 ∷ c % 2 ∷ replicate 17 1) (omega arith) h;
  inverse_36 =
      λ a b c xs h. inverse_lem 36 xs (a % 2 ∷ b % 2 ∷ c % 2 ∷ replicate 17 1) (omega arith) h;
}

abbrev lchan0 : Lchan
lchan0 = record { is_tch_f = true; tch_mode = data_3k6; csd_mode = csd_nt }

abbrev data0 : List ℕ
data0 = replicate 30 1 ++ replicate 12 0 ++ replicate 30 1

lchan0_has_blocks : (desc_of lchan0).num_blocks ≢ 0
unfolding csd_v110_lchan_desc
lchan0_has_blocks = λ h. ground arith

data0_is_whole : length data0 ≡ (desc_of lchan0).num_blocks * (desc_of lchan0).num_bits
unfolding csd_v110_lchan_desc
data0_is_whole = refl

rtp_decode-rtp_encode_example :
    (rtp : List ℕ) × (csd_v110_rtp_encode sample lchan0 data0 ≡ done rtp)
    × (length rtp ≡ 160)
    × (csd_v110_rtp_decode sample lchan0 rtp ≡ done data0)
rtp_decode-rtp_encode_example =
    rtp_decode-rtp_encode sample sample-V110Laws lchan0 data0 lchan0_has_blocks data0_is_whole refl
