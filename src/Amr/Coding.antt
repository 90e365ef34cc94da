-- ===== src/Amr/Coding.antt =====
-- The multi-rate configuration IE of 3GPP TS 44.018, 10.5.2.21aa, as a BSC writes it, against the parser
-- of src/common/amr.c.
use osmo_bts.Base.{
  ℕ, ◌+◌, ◌-◌, ◌*◌, ◌/◌, ◌%◌, ◌≤◌, ◌<◌, ◌≡◌, refl, sym, ◌∙◌, ap, Bool, true, false, ◌&&◌, some,
  List, [], ◌∷◌, length, get_or, take, all, ltb, arith,
}
use osmo_bts.Amr.Conf.{
  AmrMode, AmrConf, codecs, count_codecs, store_codecs, set_limits, store_limits, is_impossible,
  amr_parse_mr_conf,
}
use osmo_bts.Amr.Codecs.{members, codes, codes-store_codecs, codes-take, codes-store_limits}

-- The threshold and the hysteresis between two neighbouring modes, of six and of four bits.
pub record Limit : Type 0 where
  pub threshold : ℕ
  pub hysteresis : ℕ

abbrev pub is_limit : Limit → Bool
is_limit l = ltb l.threshold 64 && ltb l.hysteresis 16

-- The octets behind the first two, for one limit less than codecs.
unfoldable pub encode_limits : List Limit → List ℕ
encode_limits [] = []
encode_limits (a ∷ []) = a.threshold ∷ (a.hysteresis * 16) ∷ []
encode_limits (a ∷ b ∷ []) =
    a.threshold
    ∷ (a.hysteresis * 16 + b.threshold / 4)
    ∷ (b.threshold % 4 * 64 + b.hysteresis * 4)
    ∷ []
encode_limits (a ∷ b ∷ c ∷ ls) =
    a.threshold
    ∷ (a.hysteresis * 16 + b.threshold / 4)
    ∷ (b.threshold % 4 * 64 + b.hysteresis * 4 + c.threshold / 16)
    ∷ (c.threshold % 16 * 16 + c.hysteresis)
    ∷ []

-- Version 1 with the flags of the first octet, the set of codecs, and the limits.
unfoldable pub encode : ℕ → ℕ → List Limit → List ℕ
encode flags active ls = (32 + flags) ∷ active ∷ encode_limits ls

abbrev pub limit_of : AmrMode → Limit
limit_of m = record { threshold = m.threshold; hysteresis = m.hysteresis }

unfoldable pub limits : List AmrMode → List Limit
limits [] = []
limits (m ∷ ms) = limit_of m ∷ limits ms

-- The limits are read back.
limits_lem :
    (ls : List Limit) (a b c d : AmrMode)
    → length ls ≤ 3
    → all is_limit ls ≡ true
    → limits (
        take
          (length ls)
          (store_limits (length ls + 1) (λ i. get_or (encode_limits ls) i 0) (a ∷ b ∷ c ∷ d ∷ [])))
      ≡ ls
unfolding limits store_limits set_limits encode_limits
limits_lem [] a b c d h g = refl
limits_lem (x ∷ []) a b c d h g = ground arith
limits_lem (x ∷ y ∷ []) a b c d h g = ground arith
limits_lem (x ∷ y ∷ z ∷ []) a b c d h g = ground arith
limits_lem (x ∷ y ∷ z ∷ w ∷ ls) a b c d h g = absurd (omega arith)

-- The limits are read back from any four entries.
limits_four :
    (ls : List Limit) (ms : List AmrMode)
    → length ms ≡ 4
    → length ls ≤ 3
    → all is_limit ls ≡ true
    → limits
        (take (length ls) (store_limits (length ls + 1) (λ i. get_or (encode_limits ls) i 0) ms))
      ≡ ls
limits_four ls (a ∷ b ∷ c ∷ d ∷ []) f h g = limits_lem ls a b c d h g
limits_four ls [] f h g = absurd (omega arith)
limits_four ls (a ∷ []) f h g = absurd (omega arith)
limits_four ls (a ∷ b ∷ []) f h g = absurd (omega arith)
limits_four ls (a ∷ b ∷ c ∷ []) f h g = absurd (omega arith)
limits_four ls (a ∷ b ∷ c ∷ d ∷ e ∷ ms) f h g = absurd (omega arith)

-- A configuration that the parser gives has the codecs of the set and the limits.
parsed_lem :
    (ls : List Limit) (active : ℕ) (ms : List AmrMode) (n : ℕ)
    → length ms ≡ 4
    → count_codecs active codecs ≡ n
    → n ≡ length ls + 1
    → length ls ≤ 3
    → all is_limit ls ≡ true
    → (codes (
          take n
            (store_limits n (λ i. get_or (encode_limits ls) i 0) (store_codecs active codecs 0 ms)))
        ≡ members active codecs)
      × (limits (
            take (n - 1) (
              store_limits n
                (λ i. get_or (encode_limits ls) i 0)
                (store_codecs active codecs 0 ms)))
          ≡ ls)
unfolding codes
parsed_lem ls active ms n f c e h g =
    let o = λ (i : ℕ). get_or (encode_limits ls) i 0 in
    let ms' = store_codecs active codecs 0 ms in
    let r = codes-store_codecs active codecs 0 ms (omega arith) in
    let z : 0 + count_codecs active codecs ≡ n = omega arith in
    let k : length ls + 1 - 1 ≡ length ls = omega arith in
    (
      codes-take n (store_limits n o ms')
          ∙ ap (take n) (codes-store_limits n o ms')
          ∙ sym (codes-take n ms')
          ∙ ap (λ n. codes (take n ms')) (sym z)
          ∙ r.0,
      ap (λ n. limits (take (n - 1) (store_limits n o ms'))) e
          ∙ ap (λ k. limits (take k (store_limits (length ls + 1) o ms'))) k
          ∙ limits_four ls ms' (r.1 ∙ f) h g,
    )

length-encode_limits :
    (ls : List Limit)
    → length ls ≤ 3
    → is_impossible (length ls + 1) (length (encode_limits ls) + 2) ≡ false
unfolding encode_limits is_impossible
length-encode_limits [] h = refl
length-encode_limits (a ∷ []) h = refl
length-encode_limits (a ∷ b ∷ []) h = refl
length-encode_limits (a ∷ b ∷ c ∷ []) h = refl
length-encode_limits (a ∷ b ∷ c ∷ d ∷ ls) h = absurd (omega arith)

-- The codecs of a configuration and the limits between them.
abbrev pub active_codecs : AmrConf → List ℕ
active_codecs c = codes (take c.num_modes c.modes)

abbrev pub active_limits : AmrConf → List Limit
active_limits c = limits (take (c.num_modes - 1) c.modes)

-- An IE of version 1 for one to four codecs, with limits of six and four bits between them, is accepted,
-- and the configuration, whatever four entries it had before, has just the codecs of the set in ascending order
-- and the limits.
pub parse-encode :
    (c : AmrConf) (flags active : ℕ) (ls : List Limit)
    → length c.modes ≡ 4
    → flags < 32
    → count_codecs active codecs ≡ length ls + 1
    → length ls ≤ 3
    → all is_limit ls ≡ true
    → (d : AmrConf) × (amr_parse_mr_conf c (encode flags active ls) ≡ some d)
      × (active_codecs d ≡ members active codecs)
      × (active_limits d ≡ ls)
unfolding amr_parse_mr_conf encode
parse-encode c flags active ls m f n l h =
    let i = length-encode_limits ls l in
    let p = parsed_lem ls active c.modes (count_codecs active codecs) m refl n l h in
    let v : (32 + flags) / 32 ≡ 1 = omega arith in
    let j : is_impossible (count_codecs active codecs) (length (encode flags active ls)) ≡ false =
      ap (λ n. is_impossible n (length (encode flags active ls))) n
      ∙ ap (λ k. is_impossible (length ls + 1) k) (omega arith)
      ∙ i in
    let d : AmrConf = record {
      ie0 = 32 + flags;
      ie1 = active;
      num_modes = count_codecs active codecs;
      modes =
          store_limits (count_codecs active codecs) (λ i. get_or (encode_limits ls) i 0)
            (store_codecs active codecs 0 c.modes);
    } in
    (d, ground arith, p.0, p.1)
