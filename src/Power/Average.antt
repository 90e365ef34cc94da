-- ===== src/Power/Average.antt =====
-- Runs of the filter of src/common/power_control.c.
use osmo_bts.Base.{
  ◌⊎◌, inl, inr, false, ◌%◌, length, ℕ, zero, suc, ◌+◌, ◌*◌, ◌≤◌, ◌<◌, ◌≡◌, ◌/◌, refl, List, [],
  ◌∷◌, arith, if_elim, ◌==◌,
}
use osmo_bts.Base.Int.{
  ℤ, pos, negsuc, ◌+ℤ◌, ◌-ℤ◌, ◌≤ℤ◌, quot, scale, pos_part, neg_part, +ℤ_parts, -ℤ_parts,
}
use osmo_bts.Power.Types.{MeasParams, MeasProc}
use osmo_bts.Power.Filter.{do_pf_ewma, rounded}

-- The measurements of a run, one after the other, and the last value that the filter returns.
unfoldable pub ewma_run : MeasParams → MeasProc → List ℤ → MeasProc
ewma_run mp mps [] = mps
ewma_run mp mps (v ∷ vs) = ewma_run mp ((do_pf_ewma mp mps v).0) vs

-- How far the average, scaled up by 100, can fall below the scaled bound `lo`.
abbrev pub low_slack : ℤ → ℕ
low_slack (pos (suc n)) = 50
low_slack (pos zero) = 149
low_slack (negsuc n) = 149

abbrev pub IsWithin : ℤ → ℤ → ℤ → Type 0
IsWithin lo hi a =
    (pos_part lo * 100 + neg_part a ≤ pos_part a + neg_part lo * 100 + low_slack lo)
    × (pos_part a + neg_part hi * 100 ≤ pos_part hi * 100 + 49 + neg_part a)

-- One for a negative bound: the division of C rounds a negative average towards 0.
abbrev pub rise : ℤ → ℕ
rise (pos n) = 0
rise (negsuc n) = 1

-- The value `z` lies from `lo` to `hi`, or is one more than a negative `hi`.
abbrev pub IsReading : ℤ → ℤ → ℤ → Type 0
IsReading lo hi z = (lo ≤ℤ z) × (pos_part z + neg_part hi ≤ pos_part hi + neg_part z + rise hi)

-- The average `a` rounds to `z`, from 0 on and below 0.
abbrev IsRounded : ℤ → ℤ → Type 0
IsRounded a z =
    ((neg_part z ≡ 0)
      × (pos_part z * 100 + neg_part a ≤ pos_part a + 50)
      × (pos_part a ≤ pos_part z * 100 + 49 + neg_part a))
    ⊎ ((pos_part z ≡ 0)
        × (pos_part a + 51 ≤ neg_part a)
        × (neg_part z * 100 + pos_part a + 50 ≤ neg_part a)
        × (neg_part a ≤ neg_part z * 100 + pos_part a + 149))

quot_parts :
    (a : ℤ)
    → (pos_part (quot a 100) ≡ pos_part a / 100) × (neg_part (quot a 100) ≡ neg_part a / 100)
unfolding quot
quot_parts a = ground arith

one_sign : (a : ℤ) → ((pos_part a ≡ 0) × (1 ≤ neg_part a)) ⊎ (neg_part a ≡ 0)
one_sign (pos n) = inr refl
one_sign (negsuc n) = inl (refl, omega arith)

rounded-IsRounded : (a : ℤ) → IsRounded a (rounded a)
unfolding rounded
rounded-IsRounded a =
    let b = a +ℤ pos 50 in
    let e = +ℤ_parts a (pos 50) in
    let q = quot_parts b in
    elim (one_sign b) [
      | inl h ↦ inr (omega arith, omega arith, omega arith, omega arith)
      | inr h ↦ inl (omega arith, omega arith, omega arith)
    ]

scale_parts :
    (k : ℕ) (a : ℤ) → pos_part (scale k a) + k * neg_part a ≡ neg_part (scale k a) + k * pos_part a
unfolding scale
scale_parts k a = ground arith

mul_mono : (k l n : ℕ) → k ≤ l → k * n ≤ l * n
mul_mono k l n h = grind arith

-- A bound above 0 has the smaller slack.
slack_cases :
    (lo : ℤ)
    → ((low_slack lo ≡ 50) × (1 ≤ pos_part lo) × (neg_part lo ≡ 0))
      ⊎ ((low_slack lo ≡ 149) × (pos_part lo ≡ 0))
slack_cases (pos zero) = inr (refl, refl)
slack_cases (pos (suc n)) = inl (refl, omega arith, refl)
slack_cases (negsuc n) = inr (refl, refl)

rise_cases :
    (hi : ℤ)
    → ((rise hi ≡ 0) × (neg_part hi ≡ 0)) ⊎ ((rise hi ≡ 1) × (pos_part hi ≡ 0) × (1 ≤ neg_part hi))
rise_cases (pos n) = inl (refl, refl)
rise_cases (negsuc n) = inr (refl, refl, omega arith)

-- The next average, `d` being the distance of the measurement from the rounded one, and `s` the
-- scaled distance.
next-IsWithin :
    (lo hi v a z d s : ℤ)
    → (lo ≤ℤ v) × (v ≤ℤ hi)
    → IsWithin lo hi a
    → IsRounded a z
    → pos_part d + neg_part v + pos_part z ≡ neg_part d + pos_part v + neg_part z
    → ((pos_part d ≡ 0) × (neg_part s ≤ 100 * neg_part d + pos_part s) × (pos_part s ≤ neg_part s))
      ⊎ ((neg_part d ≡ 0)
          × (pos_part s ≤ 100 * pos_part d + neg_part s)
          × (neg_part s ≤ pos_part s))
    → IsWithin lo hi (a +ℤ s)
next-IsWithin lo hi v a z d s (i, j) (k, l) (inl r) e (inl w) =
    let u = +ℤ_parts a s in
    elim (slack_cases lo) [
      | inl c ↦ (omega arith, omega arith)
      | inr c ↦ (omega arith, omega arith)
    ]
next-IsWithin lo hi v a z d s (i, j) (k, l) (inl r) e (inr w) =
    let u = +ℤ_parts a s in
    elim (slack_cases lo) [
      | inl c ↦ (omega arith, omega arith)
      | inr c ↦ (omega arith, omega arith)
    ]
next-IsWithin lo hi v a z d s (i, j) (k, l) (inr r) e (inl w) =
    let u = +ℤ_parts a s in
    let x = one_sign v in
    elim (slack_cases lo) [
      | inl c ↦ elim x [ inl y ↦ (omega arith, omega arith) | inr y ↦ (omega arith, omega arith) ]
      | inr c ↦ (omega arith, omega arith)
    ]
next-IsWithin lo hi v a z d s (i, j) (k, l) (inr r) e (inr w) =
    let u = +ℤ_parts a s in
    elim (slack_cases lo) [
      | inl c ↦ (omega arith, omega arith)
      | inr c ↦ (omega arith, omega arith)
    ]

scaled_cases :
    (al : ℕ) (d : ℤ)
    → al ≤ 100
    → ((pos_part d ≡ 0)
        × (neg_part (scale al d) ≤ 100 * neg_part d + pos_part (scale al d))
        × (pos_part (scale al d) ≤ neg_part (scale al d)))
      ⊎ ((neg_part d ≡ 0)
          × (pos_part (scale al d) ≤ 100 * pos_part d + neg_part (scale al d))
          × (neg_part (scale al d) ≤ pos_part (scale al d)))
scaled_cases al d h =
    let t = scale_parts al d in
    let x = mul_mono al 100 (pos_part d) h in
    let y = mul_mono al 100 (neg_part d) h in
    elim (one_sign d) [
      | inl e ↦ inl (e.0, omega arith, omega arith)
      | inr e ↦ inr (e, omega arith, omega arith)
    ]

rounded-IsReading : (lo hi a z : ℤ) → IsWithin lo hi a → IsRounded a z → IsReading lo hi z
rounded-IsReading lo hi a z (k, l) (inl r) = elim (slack_cases lo) [
  | inl c ↦ elim (rise_cases hi) [
    | inl d ↦ (omega arith, omega arith)
    | inr d ↦ (omega arith, omega arith)
  ]
  | inr c ↦ elim (rise_cases hi) [
    | inl d ↦ (omega arith, omega arith)
    | inr d ↦ (omega arith, omega arith)
  ]
]
rounded-IsReading lo hi a z (k, l) (inr r) = elim (slack_cases lo) [
  | inl c ↦ elim (rise_cases hi) [
    | inl d ↦ (omega arith, omega arith)
    | inr d ↦ (omega arith, omega arith)
  ]
  | inr c ↦ elim (rise_cases hi) [
    | inl d ↦ (omega arith, omega arith)
    | inr d ↦ (omega arith, omega arith)
  ]
]

first-IsWithin : (lo hi v : ℤ) → lo ≤ℤ v → v ≤ℤ hi → IsWithin lo hi (scale 100 v)
first-IsWithin lo hi v h i =
    let t = scale_parts 100 v in
    elim (slack_cases lo) [
      | inl c ↦ (omega arith, omega arith)
      | inr c ↦ (omega arith, omega arith)
    ]

-- The state between two measurements: the first one is still to come, or the average is within.
abbrev pub IsAveraging : ℤ → ℤ → MeasProc → Type 0
IsAveraging lo hi mps = (mps.meas_num ≡ 0) ⊎ ((1 ≤ mps.meas_num) × IsWithin lo hi (mps.avg100))

-- Every measurement lies from `lo` to `hi`.
abbrev pub AllIn : ℤ → ℤ → List ℤ → Type 0
AllIn lo hi [] = 0 ≤ 0
AllIn lo hi (v ∷ vs) = (lo ≤ℤ v) × (v ≤ℤ hi) × AllIn lo hi vs

abbrev IsStep : ℤ → ℤ → ℕ → MeasProc × ℤ → Type 0
IsStep lo hi n r = IsReading lo hi (r.1) × (r.0.meas_num ≡ n + 1) × IsWithin lo hi (r.0.avg100)

later :
    (lo hi v : ℤ) (mp : MeasParams) (mps : MeasProc)
    → mp.alpha ≤ 100
    → (lo ≤ℤ v) × (v ≤ℤ hi)
    → IsAveraging lo hi mps
    → (mps.meas_num == 0) ≡ false
    → IsWithin lo hi (mps.avg100 +ℤ scale (mp.alpha) (v -ℤ rounded (mps.avg100)))
later lo hi v mp mps le b (inl z) e = absurd (ground arith)
later lo hi v mp mps le b (inr (p, w)) e =
    let z = rounded (mps.avg100) in
    let d = v -ℤ z in
    next-IsWithin lo hi v (mps.avg100) z d (scale (mp.alpha) d) b w (rounded-IsRounded (mps.avg100))
      (-ℤ_parts v z) (scaled_cases (mp.alpha) d le)

do_pf_ewma-IsStep :
    (mp : MeasParams) (mps : MeasProc) (lo hi v : ℤ)
    → mp.alpha ≤ 100
    → mps.meas_num + 1 < 4294967296
    → IsAveraging lo hi mps
    → lo ≤ℤ v
    → v ≤ℤ hi
    → IsStep lo hi (mps.meas_num) (do_pf_ewma mp mps v)
unfolding do_pf_ewma
do_pf_ewma-IsStep mp mps lo hi v le lt ready j k =
    let next = mps.avg100 +ℤ scale (mp.alpha) (v -ℤ rounded (mps.avg100)) in
    let n = (mps.meas_num + 1) % 4294967296 in
    let no_wrap : n ≡ mps.meas_num + 1 = omega arith in
    if_elim (IsStep lo hi (mps.meas_num)) (mps.meas_num == 0)
      (record { meas_num = n; avg100 = scale 100 v }, v)
      (record { meas_num = n; avg100 = next }, rounded next)
      (λ e. ((j, omega arith), no_wrap, first-IsWithin lo hi v j k))
      (λ e.
        let w = later lo hi v mp mps le (j, k) ready e in
        (rounded-IsReading lo hi next (rounded next) w (rounded-IsRounded next), no_wrap, w))

-- A filter that has not started, or whose average is within its slack of the bounds, and whose
-- smoothing factor is 100 at most, returns a value from `lo` to `hi`, or one more than a negative
-- `hi`, after any measurements that lie from `lo` to `hi`, whatever their signs, as long as the
-- 32-bit counter does not wrap.
pub ewma_run-IsReading :
    (mp : MeasParams) (lo hi : ℤ) (vs : List ℤ) (mps : MeasProc) (v : ℤ)
    → mp.alpha ≤ 100
    → mps.meas_num + length vs + 1 < 4294967296
    → IsAveraging lo hi mps
    → AllIn lo hi vs
    → lo ≤ℤ v
    → v ≤ℤ hi
    → IsReading lo hi ((do_pf_ewma mp (ewma_run mp mps vs) v).1)
unfolding ewma_run
ewma_run-IsReading mp lo hi [] mps v le lt ready all j k =
    (do_pf_ewma-IsStep mp mps lo hi v le (omega arith) ready j k).0
ewma_run-IsReading mp lo hi (x ∷ xs) mps v le lt ready (a, b, all) j k =
    let s = do_pf_ewma-IsStep mp mps lo hi x le (omega arith) ready a b in
    ewma_run-IsReading mp lo hi xs ((do_pf_ewma mp mps x).0) v le (omega arith)
      (inr (omega arith, s.2)) all j k
