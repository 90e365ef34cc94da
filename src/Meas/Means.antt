-- ===== src/Meas/Means.antt =====
-- The mean of the times of arrival and the extended measurements of src/common/measurement.c, over a list
-- of samples.
use native.Mathlib.Nat.{le-div_iff_mul-le, div-le_of_le-mul, zero-div}
use osmo_bts.Base.{
  ℕ, zero, suc, ◌+◌, ◌*◌, ◌/◌, ◌≤◌, ◌<◌, ◌≡◌, refl, sym, ◌∙◌, ap, List, [], ◌∷◌, if◌then◌else◌,
  get_or, set, take, drop, length, arith, some, lt→ltb,
}
use osmo_bts.Base.Int.{ℤ, pos, negsuc, ◌≤ℤ◌, ltb_ℤ, pos_part, neg_part, +ℤ_parts, quot}
use osmo_bts.Meas.Types.{UlMeas, Meas}
use osmo_bts.Meas.Compute.{spread, diff_squared, measurement_dummy}
use osmo_bts.Meas.Totals.{total_ℤ, take-drop, if_true}

-- Every time of arrival of the list is from `lo` to `hi`.
unfoldable pub AllBetween : ℤ → ℤ → List UlMeas → Type 0
AllBetween lo hi [] = 0 ≤ 0
AllBetween lo hi (u ∷ us) =
    (lo ≤ℤ u.ta_offs_256bits) × (u.ta_offs_256bits ≤ℤ hi) × AllBetween lo hi us

pub AllBetween-drop :
    (lo hi : ℤ) (n : ℕ) (us : List UlMeas) → AllBetween lo hi us → AllBetween lo hi (drop n us)
unfolding AllBetween
AllBetween-drop lo hi zero us h = h
AllBetween-drop lo hi (suc n) [] h = h
AllBetween-drop lo hi (suc n) (u ∷ us) h = AllBetween-drop lo hi n us (h.2)

pub AllBetween-take :
    (lo hi : ℤ) (n : ℕ) (us : List UlMeas) → AllBetween lo hi us → AllBetween lo hi (take n us)
unfolding AllBetween
AllBetween-take lo hi zero us h = omega arith
AllBetween-take lo hi (suc n) [] h = h
AllBetween-take lo hi (suc n) (u ∷ us) h = (h.0, h.1, AllBetween-take lo hi n us (h.2))

pub AllBetween-set :
    (lo hi : ℤ) (u : UlMeas) (i : ℕ) (us : List UlMeas)
    → lo ≤ℤ u.ta_offs_256bits
    → u.ta_offs_256bits ≤ℤ hi
    → AllBetween lo hi us
    → AllBetween lo hi (set us i u)
unfolding AllBetween
AllBetween-set lo hi u i [] l h a = a
AllBetween-set lo hi u zero (v ∷ us) l h a = (l, h, a.2)
AllBetween-set lo hi u (suc i) (v ∷ us) l h a = (a.0, a.1, AllBetween-set lo hi u i us l h (a.2))

-- Wider limits.
pub AllBetween-wider :
    (lo hi lo' hi' : ℤ) (us : List UlMeas)
    → lo' ≤ℤ lo
    → hi ≤ℤ hi'
    → AllBetween lo hi us
    → AllBetween lo' hi' us
unfolding AllBetween
AllBetween-wider lo hi lo' hi' [] l h a = a
AllBetween-wider lo hi lo' hi' (u ∷ us) l h a =
    let x = a.0 in
    let y = a.1 in (omega arith, omega arith, AllBetween-wider lo hi lo' hi' us l h (a.2))

-- `n` times `lo` is at most `t`, and `t` at most `n` times `hi`.
abbrev Multiple : ℕ → ℤ → ℤ → ℤ → Type 0
Multiple n lo t hi =
    (n * pos_part lo + neg_part t ≤ pos_part t + n * neg_part lo)
    × (pos_part t + n * neg_part hi ≤ n * pos_part hi + neg_part t)

total-Multiple :
    (lo hi : ℤ) (us : List UlMeas)
    → AllBetween lo hi us
    → Multiple (length us) lo (total_ℤ (λ u. u.ta_offs_256bits) us) hi
unfolding AllBetween total_ℤ
total-Multiple lo hi [] h = (omega arith, omega arith)
total-Multiple lo hi (u ∷ us) h =
    let t = total_ℤ (λ u. u.ta_offs_256bits) us in
    let x = +ℤ_parts (u.ta_offs_256bits) t in
    let y = total-Multiple lo hi us (h.2) in
    let z = h.0 in let w = h.1 in (grind arith, grind arith)

at_least : (n x a : ℕ) → 0 < n → n * x ≤ a → x ≤ a / n
at_least n x a p h = (le-div_iff_mul-le p).1 (grind arith)

at_most : (n y a : ℕ) → a ≤ n * y → a / n ≤ y
at_most n y a h = div-le_of_le-mul n h

quot-pos_part : (n a : ℕ) → quot (pos a) n ≡ pos (a / n)
unfolding quot
quot-pos_part n a = let z = zero-div n in ground arith

quot-neg_part :
    (n a : ℕ) → (pos_part (quot (negsuc a) n) ≡ 0) × (neg_part (quot (negsuc a) n) ≡ suc a / n)
unfolding quot
quot-neg_part n a = let z = zero-div n in ground arith

quot-lower :
    (n : ℕ) (lo t : ℤ)
    → 0 < n
    → n * pos_part lo + neg_part t ≤ pos_part t + n * neg_part lo
    → lo ≤ℤ quot t n
quot-lower n (pos x) (pos a) p h =
    let q = quot-pos_part n a in let d = at_least n x a p (omega arith) in ground arith
quot-lower n (negsuc x) (pos a) p h = let q = quot-pos_part n a in ground arith
quot-lower n (pos x) (negsuc a) p h = absurd (omega arith)
quot-lower n (negsuc x) (negsuc a) p h =
    let q = quot-neg_part n a in let d = at_most n (suc x) (suc a) (omega arith) in omega arith

quot-upper :
    (n : ℕ) (t hi : ℤ)
    → 0 < n
    → pos_part t + n * neg_part hi ≤ n * pos_part hi + neg_part t
    → quot t n ≤ℤ hi
quot-upper n (pos a) (pos y) p h =
    let q = quot-pos_part n a in let d = at_most n y a (omega arith) in ground arith
quot-upper n (pos a) (negsuc y) p h = absurd (grind arith)
quot-upper n (negsuc a) (pos y) p h = let q = quot-neg_part n a in omega arith
quot-upper n (negsuc a) (negsuc y) p h =
    let q = quot-neg_part n a in let d = at_least n (suc y) (suc a) p (omega arith) in omega arith

-- The mean lies between limits of the values.
pub mean-between :
    (lo hi : ℤ) (us : List UlMeas)
    → 0 < length us
    → AllBetween lo hi us
    → (lo ≤ℤ quot (total_ℤ (λ u. u.ta_offs_256bits) us) (length us))
      × (quot (total_ℤ (λ u. u.ta_offs_256bits) us) (length us) ≤ℤ hi)
mean-between lo hi us p h =
    let m = total-Multiple lo hi us h in
    let t = total_ℤ (λ u. u.ta_offs_256bits) us in
    (quot-lower (length us) lo t p (m.0), quot-upper (length us) t hi p (m.1))

-- One round of the loop of the extended measurements.
unfoldable pub widened : ℤ → UlMeas → ℕ × (ℤ × ℤ) → ℕ × (ℤ × ℤ)
widened toa u acc =
    let t = u.ta_offs_256bits in
    (
      acc.0 + diff_squared t toa,
      (if ltb_ℤ t (acc.1.0) then t else acc.1.0, if ltb_ℤ (acc.1.1) t then t else acc.1.1),
    )

-- The loop, over the list of the samples.
unfoldable pub spread_list : ℤ → List UlMeas → ℕ × (ℤ × ℤ) → ℕ × (ℤ × ℤ)
spread_list toa [] acc = acc
spread_list toa (u ∷ us) acc = spread_list toa us (widened toa u acc)

widened_limits :
    (toa : ℤ) (u : UlMeas) (acc : ℕ × (ℤ × ℤ))
    → ((widened toa u acc).1.0 ≤ℤ u.ta_offs_256bits)
      × (u.ta_offs_256bits ≤ℤ (widened toa u acc).1.1)
      × ((widened toa u acc).1.0 ≤ℤ acc.1.0)
      × (acc.1.1 ≤ℤ (widened toa u acc).1.1)
unfolding widened
widened_limits toa u acc = ground arith

widened_sum :
    (toa : ℤ) (u : UlMeas) (acc : ℕ × (ℤ × ℤ)) → (widened toa u acc).0 ≤ acc.0 + 4294967295
unfolding widened diff_squared
widened_sum toa u acc = omega arith

pub spread_lem :
    (m : Meas) (exc k i : ℕ) (acc : ℕ × (ℤ × ℤ))
    → i + k ≤ m.num_ul_meas
    → i + exc + k ≤ length (m.uplink)
    → spread m exc k i acc
      ≡ some (spread_list (m.ms_toa256) (take k (drop (i + exc) (m.uplink))) acc)
unfolding spread spread_list widened
spread_lem m exc zero i acc h l = refl
spread_lem m exc (suc k) i acc h l =
    let up = m.uplink in
    let u = get_or up (i + exc) measurement_dummy in
    let n3 : suc i + exc ≡ suc (i + exc) = omega arith in
    let e = take-drop k (i + exc) up measurement_dummy (omega arith) in
    let next = widened (m.ms_toa256) u acc in
    if_true _ _ (lt→ltb i (m.num_ul_meas) (omega arith))
    ∙ spread_lem m exc k (suc i) next (omega arith) (omega arith)
    ∙ ap (λ n. some (spread_list (m.ms_toa256) (take k (drop n up)) next)) n3
    ∙ ap (λ us. some (spread_list (m.ms_toa256) us acc)) (sym e)

-- Limits that only grow.
pub spread-grows :
    (toa : ℤ) (us : List UlMeas) (acc : ℕ × (ℤ × ℤ))
    → ((spread_list toa us acc).1.0 ≤ℤ acc.1.0) × (acc.1.1 ≤ℤ (spread_list toa us acc).1.1)
unfolding spread_list
spread-grows toa [] acc = (omega arith, omega arith)
spread-grows toa (u ∷ us) acc =
    let w = widened_limits toa u acc in
    let r = spread-grows toa us (widened toa u acc) in (omega arith, omega arith)

-- The minimum and the maximum enclose the values.
pub spread-AllBetween :
    (toa : ℤ) (us : List UlMeas) (acc : ℕ × (ℤ × ℤ))
    → AllBetween ((spread_list toa us acc).1.0) ((spread_list toa us acc).1.1) us
unfolding spread_list AllBetween
spread-AllBetween toa [] acc = omega arith
spread-AllBetween toa (u ∷ us) acc =
    let w = widened_limits toa u acc in
    let r = spread-grows toa us (widened toa u acc) in
    (omega arith, omega arith, spread-AllBetween toa us (widened toa u acc))

-- The sum of the squares keeps room for a variance of 32 bits.
pub spread-sum :
    (toa : ℤ) (us : List UlMeas) (acc : ℕ × (ℤ × ℤ))
    → (spread_list toa us acc).0 ≤ acc.0 + length us * 4294967295
unfolding spread_list
spread-sum toa [] acc = omega arith
spread-sum toa (u ∷ us) acc =
    let w = widened_sum toa u acc in let r = spread-sum toa us (widened toa u acc) in omega arith
