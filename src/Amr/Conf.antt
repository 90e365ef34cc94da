-- ===== src/Amr/Conf.antt =====
-- The multi-rate configuration of src/common/amr.c: its parser, the look-ups of a mode and the
-- defaults.
use osmo_bts.Base.{
  ℕ, zero, suc, ◌+◌, ◌*◌, ◌/◌, ◌%◌, ◌^◌, Bool, not, ◌&&◌, ◌||◌, Option, none, some, List, [], ◌∷◌,
  length, get_or, set, drop, ltb, leb, ◌==◌, if◌then◌else◌,
}

-- struct amr_mode
pub record AmrMode : Type 0 where
  pub mode : ℕ
  pub threshold : ℕ
  pub hysteresis : ℕ

-- struct amr_multirate_conf; `modes` has four entries.
pub record AmrConf : Type 0 where
  pub ie0 : ℕ
  pub ie1 : ℕ
  pub modes : List AmrMode
  pub num_modes : ℕ

abbrev pub no_mode : AmrMode
no_mode = record { mode = 0; threshold = 0; hysteresis = 0 }

-- mr_conf[1] & (1 << i)
unfoldable pub bit : ℕ → ℕ → Bool
bit b i = b / 2 ^ i % 2 == 1

abbrev pub codecs : List ℕ
codecs = 0 ∷ 1 ∷ 2 ∷ 3 ∷ 4 ∷ 5 ∷ 6 ∷ 7 ∷ []

unfoldable pub count_codecs : ℕ → List ℕ → ℕ
count_codecs b [] = 0
count_codecs b (i ∷ is) = (if bit b i then 1 else 0) + count_codecs b is

unfoldable pub set_mode : ℕ → ℕ → List AmrMode → List AmrMode
set_mode j i ms = set ms j (record (get_or ms j no_mode) { mode = i })

-- The loop that stores the active codecs from entry j on.
unfoldable pub store_codecs : ℕ → List ℕ → ℕ → List AmrMode → List AmrMode
store_codecs b [] j ms = ms
store_codecs b (i ∷ is) j ms =
    if bit b i then store_codecs b is (j + 1) (set_mode j i ms) else store_codecs b is j ms

unfoldable pub set_limits : ℕ → ℕ → ℕ → List AmrMode → List AmrMode
set_limits j t h ms = set ms j (record (get_or ms j no_mode) { threshold = t; hysteresis = h })

-- The thresholds, from the octets behind the first two.
unfoldable pub store_limits : ℕ → (ℕ → ℕ) → List AmrMode → List AmrMode
store_limits n o ms =
    let ms1 = if leb 2 n then set_limits 0 (o 0 % 64) (o 1 / 16) ms else ms in
    let ms2 = if leb 3 n then set_limits 1 (o 1 % 16 * 4 + o 2 / 64) (o 2 / 4 % 16) ms1 else ms1 in
    if leb 4 n then set_limits 2 (o 2 % 4 * 16 + o 3 / 16) (o 3 % 16) ms2 else ms2

-- Whether the IE is too short for its codecs, or has none or too many of them.
unfoldable pub is_impossible : ℕ → ℕ → Bool
is_impossible n len =
    n == 0
    || (n == 1 && ltb len 2)
    || (n == 2 && ltb len 4)
    || (n == 3 && ltb len 5)
    || (n == 4 && ltb len 6)
    || ltb 4 n

-- The IE's octets are a list, whose length is `len`; none is -EINVAL, which changes nothing.
unfoldable pub amr_parse_mr_conf : AmrConf → List ℕ → Option AmrConf
amr_parse_mr_conf c mr_conf =
    let b0 = get_or mr_conf 0 0 in
    let b1 = get_or mr_conf 1 0 in
    let n = count_codecs b1 codecs in
    if ltb (length mr_conf) 2
    then none
    else if not (b0 / 32 == 1)
    then none
    else if is_impossible n (length mr_conf)
    then none
    else some (record {
      ie0 = b0;
      ie1 = b1;
      num_modes = n;
      modes = store_limits n (λ i. get_or (drop 2 mr_conf) i 0) (store_codecs b1 codecs 0 c.modes);
    })

-- The loop of get_amr_mode_idx with `n` entries left, from entry i on.
unfoldable pub mode_idx_from : List AmrMode → ℕ → ℕ → ℕ → Option ℕ
mode_idx_from ms cmi zero i = none
mode_idx_from ms cmi (suc n) i =
    let rest = mode_idx_from ms cmi n (i + 1) in
    if (get_or ms i no_mode).mode == cmi then some i else rest

unfoldable pub get_amr_mode_idx : AmrConf → ℕ → Option ℕ
get_amr_mode_idx c cmi = mode_idx_from c.modes cmi c.num_modes 0

abbrev or_zero : Option ℕ → ℕ
or_zero none = 0
or_zero (some i) = i

unfoldable pub set_cmr_mode_idx : AmrConf → ℕ → ℕ
set_cmr_mode_idx c cmr = if cmr == 15 then 0 else or_zero (get_amr_mode_idx c cmr)

unfoldable pub set_cmi_mode_idx : AmrConf → ℕ → ℕ
set_cmi_mode_idx c cmi = or_zero (get_amr_mode_idx c cmi)

-- data[0] and data[1]
unfoldable pub amr_set_mode_pref : AmrConf → ℕ → ℕ → ℕ × ℕ
amr_set_mode_pref c cmi cmr = (set_cmi_mode_idx c cmi, set_cmr_mode_idx c cmr)

-- The bit-fields icmi and smod are read from gsm48_ie by a structure of libosmocore.
unfoldable pub amr_get_initial_mode : Bool → ℕ → ℕ → ℕ
amr_get_initial_mode icmi smod num_modes = if icmi then smod else (if num_modes == 4 then 1 else 0)

abbrev mode_of : ℕ → ℕ → ℕ → AmrMode
mode_of m t h = record { mode = m; threshold = t; hysteresis = h }

abbrev pub amr_fr_bts_mode_def : List AmrMode
amr_fr_bts_mode_def = mode_of 0 13 4 ∷ mode_of 2 25 4 ∷ mode_of 5 37 4 ∷ mode_of 7 0 0 ∷ []

abbrev pub amr_hr_bts_mode_def : List AmrMode
amr_hr_bts_mode_def = mode_of 0 16 4 ∷ mode_of 2 24 4 ∷ mode_of 3 32 4 ∷ mode_of 5 0 0 ∷ []

-- The pair is the first two octets of the structure that libosmocore lays out for the channel.
unfoldable pub amr_init_mr_conf_def : Bool → ℕ × ℕ → AmrConf
amr_init_mr_conf_def is_tch_f ie = record {
  ie0 = ie.0;
  ie1 = ie.1;
  modes = (if is_tch_f then amr_fr_bts_mode_def else amr_hr_bts_mode_def);
  num_modes = 4;
}
