-- ===== src/Csd/Rtp.antt =====
-- csd_v110_rtp_encode and csd_v110_rtp_decode of src/common/csd_v110.c. A bit is a number.
use Prim.Native.Nat.{bit_or}
use osmo_bts.Base.{
  ℕ, zero, suc, ◌+◌, ◌*◌, ◌/◌, ◌%◌, ◌≡◌, Bool, true, false, not, List, [], ◌∷◌, ◌++◌, length, take,
  drop, replicate, all, ltb, ◌==◌, if◌then◌else◌,
}

-- What libosmogsm and libosmoisdn do with a decoded V.110 frame: the frames of 60 and of 36 bits of the
-- radio channel, the setting of the bits E1 to E3, and the frames of 80 bits.
pub record V110 (F : Type 0) : Type 0 where
  pub decode_60 : List ℕ → F  -- osmo_csd_12k_6k_decode_frame
  pub encode_60 : F → List ℕ  -- osmo_csd_12k_6k_encode_frame
  pub decode_36 : List ℕ → F  -- osmo_csd_3k6_decode_frame
  pub encode_36 : F → List ℕ  -- osmo_csd_3k6_encode_frame
  pub set_e : ℕ → ℕ → ℕ → F → F
  pub encode_80 : F → List ℕ  -- osmo_v110_encode_frame
  pub decode_80 : List ℕ → F  -- osmo_v110_decode_frame

abbrev pub is_bit : ℕ → Bool
is_bit b = ltb b 2

-- 3GPP TS 44.021: a frame of 80 bits carries a decoded frame, and those of the radio channel carry
-- all of it but E1 to E3.
pub record V110Laws {F : Type 0} (v : V110 F) : Type 0 where
  pub length-encode_80 : (f : F) → length (v.encode_80 f) ≡ 80
  pub bits-encode_60 :
      (a b c : ℕ) (xs : List ℕ)
      → all is_bit xs ≡ true
      → all is_bit (v.encode_80 (v.set_e a b c (v.decode_60 xs))) ≡ true
  pub bits-encode_36 :
      (a b c : ℕ) (xs : List ℕ)
      → all is_bit xs ≡ true
      → all is_bit (v.encode_80 (v.set_e a b c (v.decode_36 xs))) ≡ true
  pub inverse_60 :
      (a b c : ℕ) (xs : List ℕ)
      → length xs ≡ 60
      → v.encode_60 (v.decode_80 (v.encode_80 (v.set_e a b c (v.decode_60 xs)))) ≡ xs
  pub inverse_36 :
      (a b c : ℕ) (xs : List ℕ)
      → length xs ≡ 36
      → v.encode_36 (v.decode_80 (v.encode_80 (v.set_e a b c (v.decode_36 xs)))) ≡ xs

pub data ChanMode : Type 0 where
  data_12k0 data_6k0 data_3k6 other_mode : ChanMode

-- enum lchan_csd_mode
pub data CsdMode : Type 0 where
  csd_nt csd_1200_75 csd_600 csd_1200 csd_2400 csd_4800 csd_9600 csd_14400 csd_29000 csd_32000 :
      CsdMode

-- The fields of a logical channel that the conversion reads.
pub record Lchan : Type 0 where
  pub is_tch_f : Bool
  pub tch_mode : ChanMode
  pub csd_mode : CsdMode

pub record Desc : Type 0 where
  pub num_blocks : ℕ
  pub num_bits : ℕ

abbrev desc : ℕ → ℕ → Desc
desc n b = record { num_blocks = n; num_bits = b }

-- The table csd_v110_lchan_desc.
unfoldable pub csd_v110_lchan_desc : Bool → ChanMode → Desc
csd_v110_lchan_desc true data_12k0 = desc 4 60
csd_v110_lchan_desc true data_6k0 = desc 2 60
csd_v110_lchan_desc true data_3k6 = desc 2 36
csd_v110_lchan_desc false data_6k0 = desc 4 60
csd_v110_lchan_desc false data_3k6 = desc 4 36
csd_v110_lchan_desc _ _ = desc 0 0

unfoldable pub e1e2e3_map : CsdMode → ℕ × ℕ × ℕ
e1e2e3_map csd_600 = (1, 0, 0)
e1e2e3_map csd_1200 = (0, 1, 0)
e1e2e3_map csd_2400 = (1, 1, 0)
e1e2e3_map csd_4800 = (0, 1, 1)
e1e2e3_map csd_9600 = (0, 1, 1)
e1e2e3_map _ = (0, 0, 0)

-- The bits E1 to E3 of block i.
unfoldable pub e_bits : CsdMode → ℕ → ℕ × ℕ × ℕ
e_bits csd_nt i = (0, i / 2 % 2, i % 2)
e_bits m i = e1e2e3_map m

module _ {F : Type 0} (v : V110 F) where
  unfoldable pub encode_block : CsdMode → ℕ → ℕ → List ℕ → List ℕ
  encode_block m num_bits i xs =
      let e = e_bits m i in
      if num_bits == 60
      then v.encode_80 (v.set_e e.0 e.1 e.2 (v.decode_60 xs))
      else v.encode_80 (v.set_e e.0 e.1 e.2 (v.decode_36 xs))

  -- The loop of the encoder with n blocks left, of which the next one is block i.
  unfoldable pub encode_blocks : CsdMode → ℕ → ℕ → ℕ → List ℕ → List ℕ
  encode_blocks m num_bits zero i data_bits = []
  encode_blocks m num_bits (suc n) i data_bits =
      encode_block m num_bits i (take num_bits data_bits)
      ++ encode_blocks m num_bits n (i + 1) (drop num_bits data_bits)

  unfoldable pub decode_block : ℕ → List ℕ → List ℕ
  decode_block num_bits xs =
      if num_bits == 60 then v.encode_60 (v.decode_80 xs) else v.encode_36 (v.decode_80 xs)

  unfoldable pub decode_blocks : ℕ → ℕ → List ℕ → List ℕ
  decode_blocks num_bits zero bits = []
  decode_blocks num_bits (suc n) bits =
      decode_block num_bits (take 80 bits) ++ decode_blocks num_bits n (drop 80 bits)

-- Idle frames: the alignment pattern and ones.
unfoldable pub idle_blocks : ℕ → List ℕ
idle_blocks zero = []
idle_blocks (suc n) = replicate 8 0 ++ replicate 72 1 ++ idle_blocks n

-- n octets of two bits or one bit each, and back.
unfoldable pub pack_2 : ℕ → List ℕ → List ℕ
pack_2 (suc n) (a ∷ b ∷ bits) = bit_or (bit_or 63 (a * 128)) (b * 64) % 256 ∷ pack_2 n bits
pack_2 _ _ = []

unfoldable pub pack_1 : ℕ → List ℕ → List ℕ
pack_1 (suc n) (a ∷ bits) = bit_or 127 (a * 128) % 256 ∷ pack_1 n bits
pack_1 _ _ = []

unfoldable pub unpack_2 : List ℕ → List ℕ
unpack_2 [] = []
unpack_2 (o ∷ rtp) = (o / 128) ∷ (o / 64 % 2) ∷ unpack_2 rtp

unfoldable pub unpack_1 : List ℕ → List ℕ
unpack_1 [] = []
unpack_1 (o ∷ rtp) = (o / 128) ∷ unpack_1 rtp

pub data Status : Type 0 where
  done : List ℕ → Status
  enotsup einval : Status

unfoldable pub to_rtp : ℕ → List ℕ → List ℕ
to_rtp num_blocks bits = if num_blocks == 4 then pack_2 160 bits else pack_1 160 bits

unfoldable pub from_rtp : ℕ → List ℕ → List ℕ
from_rtp num_blocks rtp = if num_blocks == 4 then unpack_2 rtp else unpack_1 rtp

module _ {F : Type 0} (v : V110 F) where
  unfoldable pub csd_v110_rtp_encode : Lchan → List ℕ → Status
  csd_v110_rtp_encode l data_bits =
      let d = csd_v110_lchan_desc l.is_tch_f l.tch_mode in
      if d.num_blocks == 0
      then enotsup
      else if ltb (length data_bits) (d.num_blocks * d.num_bits)
      then done (to_rtp d.num_blocks (idle_blocks d.num_blocks))
      else done
          (to_rtp d.num_blocks (encode_blocks v l.csd_mode d.num_bits d.num_blocks 0 data_bits))

  unfoldable pub csd_v110_rtp_decode : Lchan → List ℕ → Status
  csd_v110_rtp_decode l rtp =
      let d = csd_v110_lchan_desc l.is_tch_f l.tch_mode in
      if d.num_blocks == 0
      then enotsup
      else if not (length rtp == 160)
      then einval
      else done (decode_blocks v d.num_bits d.num_blocks (from_rtp d.num_blocks rtp))
