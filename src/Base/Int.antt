-- ===== src/Base/Int.antt =====
-- Signed integers over the native numbers, and C's casts to the fixed-width types.
-- An `int` is such an integer: where the source stays within 32 bits the two agree.
use osmo_bts.Base.{
  ℕ, zero, suc, ◌+◌, ◌-◌, ◌*◌, ◌/◌, ◌%◌, ◌≤◌, ◌<◌, ◌≡◌, refl, ◌⊎◌, Bool, true, false, arith, ltb,
  leb, ◌==◌, if◌then◌else◌,
}

-- `negsuc n` is -(n + 1).
pub data ℤ : Type 0 where
  pos : ℕ → ℤ
  negsuc : ℕ → ℤ

abbrev pub pos_part : ℤ → ℕ
pos_part (pos n) = n
pos_part (negsuc n) = 0

abbrev pub neg_part : ℤ → ℕ
neg_part (pos n) = 0
neg_part (negsuc n) = suc n

-- a - b, as an integer.
abbrev pub sub_ℕ : ℕ → ℕ → ℤ
sub_ℕ a b = if leb b a then pos (a - b) else negsuc (b - a - 1)

-- -n, as an integer.
abbrev pub neg : ℕ → ℤ
neg n = sub_ℕ 0 n

infixl 65 ◌+ℤ◌ ◌-ℤ◌
infix 50 ◌≤ℤ◌
unfoldable pub ◌+ℤ◌ : ℤ → ℤ → ℤ
a +ℤ b = sub_ℕ (pos_part a + pos_part b) (neg_part a + neg_part b)

unfoldable pub ◌-ℤ◌ : ℤ → ℤ → ℤ
a -ℤ b = sub_ℕ (pos_part a + neg_part b) (neg_part a + pos_part b)

-- `k * z` for an unsigned `k`.
unfoldable pub scale : ℕ → ℤ → ℤ
scale k a = sub_ℕ (k * pos_part a) (k * neg_part a)

-- C's `z / k` for a positive `k`: the quotient is rounded towards 0.
unfoldable pub quot : ℤ → ℕ → ℤ
quot a k = sub_ℕ (pos_part a / k) (neg_part a / k)

abbrev pub ◌≤ℤ◌ : ℤ → ℤ → Type 0
a ≤ℤ b = pos_part a + neg_part b ≤ pos_part b + neg_part a

abbrev pub ltb_ℤ : ℤ → ℤ → Bool
ltb_ℤ a b = ltb (pos_part a + neg_part b) (pos_part b + neg_part a)

abbrev pub leb_ℤ : ℤ → ℤ → Bool
leb_ℤ a b = leb (pos_part a + neg_part b) (pos_part b + neg_part a)

abbrev pub eqb_ℤ : ℤ → ℤ → Bool
eqb_ℤ a b = (pos_part a + neg_part b) == (pos_part b + neg_part a)

-- The conversion to a `w`-bit unsigned type, `m` being 2 ^ w.
abbrev pub wrap : ℕ → ℤ → ℕ
wrap m (pos n) = n % m
wrap m (negsuc n) = m - 1 - n % m

-- The conversion to a signed type of two's complement, `h` being half of 2 ^ w.
abbrev pub wrap_signed : ℕ → ℤ → ℤ
wrap_signed h a = let w = wrap (h + h) a in if ltb w h then pos w else negsuc (h + h - w - 1)

unfoldable pub to_u8 : ℤ → ℕ
to_u8 a = wrap 256 a

unfoldable pub to_i8 : ℤ → ℤ
to_i8 a = wrap_signed 128 a

unfoldable pub to_u16 : ℤ → ℕ
to_u16 a = wrap 65536 a

unfoldable pub to_i16 : ℤ → ℤ
to_i16 a = wrap_signed 32768 a

unfoldable pub to_u32 : ℤ → ℕ
to_u32 a = wrap 4294967296 a

-- One lemma for each operation lets `omega` work with the operations shut.
pub +ℤ_parts :
    (a b : ℤ)
    → pos_part (a +ℤ b) + neg_part a + neg_part b ≡ neg_part (a +ℤ b) + pos_part a + pos_part b
unfolding ◌+ℤ◌
+ℤ_parts a b = ground arith

pub -ℤ_parts :
    (a b : ℤ)
    → pos_part (a -ℤ b) + neg_part a + pos_part b ≡ neg_part (a -ℤ b) + pos_part a + neg_part b
unfolding ◌-ℤ◌
-ℤ_parts a b = ground arith

pub eq_of_parts : (a b : ℤ) → pos_part a + neg_part b ≡ pos_part b + neg_part a → a ≡ b
eq_of_parts a b h = ground arith

pub ruleset int_laws = (arith, +ℤ_parts, -ℤ_parts, eq_of_parts)

-- A cast keeps the values of its type.
pub to_u8-pos : (n : ℕ) → n < 256 → to_u8 (pos n) ≡ n
unfolding to_u8
to_u8-pos n h = omega arith

pub to_i8_id : (a : ℤ) → negsuc 127 ≤ℤ a → a ≤ℤ pos 127 → to_i8 a ≡ a
unfolding to_i8
to_i8_id a lo hi = ground arith

pub to_i16_id : (a : ℤ) → negsuc 32767 ≤ℤ a → a ≤ℤ pos 32767 → to_i16 a ≡ a
unfolding to_i16
to_i16_id a lo hi = ground arith

pub to_i8_bounds : (a : ℤ) → (negsuc 127 ≤ℤ to_i8 a) × (to_i8 a ≤ℤ pos 127)
unfolding to_i8
to_i8_bounds a = ground arith

pub to_u8-lt : (a : ℤ) → to_u8 a < 256
unfolding to_u8
to_u8-lt a = ground arith

pub to_i8-minus_one : to_i8 (pos 255) ≡ negsuc 0
unfolding to_i8
to_i8-minus_one = refl
