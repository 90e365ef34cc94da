-- ===== src/Csd/Roundtrip.antt =====
-- The RTP payload of src/common/csd_v110.c, there and back.
use osmo_bts.Base.{
  ℕ, ◌*◌, ◌≡◌, ◌≢◌, refl, ◌∙◌, ap, Bool, true, false, List, length, all, arith, ◌⊎◌, inl, inr,
}
use osmo_bts.Csd.Rtp.{
  V110, V110Laws, is_bit, ChanMode, data_12k0, data_6k0, data_3k6, other_mode, Lchan, Desc,
  csd_v110_lchan_desc, encode_blocks, decode_blocks, to_rtp, from_rtp, done, csd_v110_rtp_encode,
  csd_v110_rtp_decode,
}
use osmo_bts.Csd.Packing.{unpack_2-pack_2, unpack_1-pack_1}
use osmo_bts.Csd.Frames.{encode_blocks_lem, decode_blocks-encode_blocks}

abbrev pub desc_of : Lchan → Desc
desc_of l = csd_v110_lchan_desc l.is_tch_f l.tch_mode

-- A channel with data has two or four blocks of 60 or 36 bits.
desc_lem :
    (f : Bool) (m : ChanMode)
    → (csd_v110_lchan_desc f m).num_blocks ≢ 0
    → ((csd_v110_lchan_desc f m).num_blocks ≡ 4 ⊎ (csd_v110_lchan_desc f m).num_blocks ≡ 2)
      × ((csd_v110_lchan_desc f m).num_bits ≡ 60 ⊎ (csd_v110_lchan_desc f m).num_bits ≡ 36)
unfolding csd_v110_lchan_desc
desc_lem true data_12k0 h = (inl refl, inl refl)
desc_lem true data_6k0 h = (inr refl, inl refl)
desc_lem true data_3k6 h = (inr refl, inr refl)
desc_lem true other_mode h = absurd (h refl)
desc_lem false data_12k0 h = absurd (h refl)
desc_lem false data_6k0 h = (inl refl, inl refl)
desc_lem false data_3k6 h = (inl refl, inr refl)
desc_lem false other_mode h = absurd (h refl)

from_rtp-to_rtp :
    (n : ℕ) (bits : List ℕ)
    → n ≡ 4 ⊎ n ≡ 2
    → length bits ≡ 80 * n
    → all is_bit bits ≡ true
    → from_rtp n (to_rtp n bits) ≡ bits × length (to_rtp n bits) ≡ 160
unfolding from_rtp to_rtp
from_rtp-to_rtp n bits (inl e) l h =
    let r = unpack_2-pack_2 160 bits (omega arith) h in ground arith
from_rtp-to_rtp n bits (inr e) l h =
    let r = unpack_1-pack_1 160 bits (omega arith) h in ground arith

-- On a channel with data, the bits of a whole uplink frame are encoded to 160 octets, which the decoder turns
-- into the same bits, if the frames of the two libraries carry what their documentation says.
pub rtp_decode-rtp_encode :
    {F : Type 0} (v : V110 F) (w : V110Laws v) (l : Lchan) (data_bits : List ℕ)
    → (desc_of l).num_blocks ≢ 0
    → length data_bits ≡ (desc_of l).num_blocks * (desc_of l).num_bits
    → all is_bit data_bits ≡ true
    → (rtp : List ℕ) × (csd_v110_rtp_encode v l data_bits ≡ done rtp)
      × (length rtp ≡ 160)
      × (csd_v110_rtp_decode v l rtp ≡ done data_bits)
unfolding csd_v110_rtp_encode csd_v110_rtp_decode
rtp_decode-rtp_encode v w l d z e h =
    let n = (desc_of l).num_blocks in
    let nb = (desc_of l).num_bits in
    let k = desc_lem l.is_tch_f l.tch_mode z in
    let bits = encode_blocks v l.csd_mode nb n 0 d in
    let b = encode_blocks_lem v w l.csd_mode nb n 0 d h in
    let r = from_rtp-to_rtp n bits k.0 b.1 b.0 in
    let s = decode_blocks-encode_blocks v w l.csd_mode nb n 0 d k.1 e in
    let t : decode_blocks v nb n (from_rtp n (to_rtp n bits)) ≡ d =
      ap (decode_blocks v nb n) r.0 ∙ s in
    (to_rtp n bits, ground arith, r.1, ground arith)
