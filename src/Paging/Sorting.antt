-- ===== src/Paging/Sorting.antt =====
-- The bubble sort sort_pr_tmsi_imsi of src/common/paging.c, by identity type.
use osmo_bts.Base.{
  ℕ, zero, suc, ◌-◌, ◌≤◌, ◌<◌, ◌≡◌, ◌⊎◌, inl, inr, refl, sym, ap, ◌∙◌, Bool, true, List, [], ◌∷◌,
  ◌++◌, length, if◌then◌else◌, arith, Bool-cases,
}
use mathlib.Core.Path.{ap₂}
use osmo_bts.Paging.Types.{PagingRecord}
use osmo_bts.Paging.Gen.{pr_is_imsi, out_of_order, bubble, bubble_rounds, sort_pr_tmsi_imsi}

-- The records of a list whose identity is not, or is, an IMSI.
unfoldable pub tmsis : List PagingRecord → List PagingRecord
tmsis [] = []
tmsis (r ∷ rs) = if pr_is_imsi r then tmsis rs else r ∷ tmsis rs

unfoldable pub imsis : List PagingRecord → List PagingRecord
imsis [] = []
imsis (r ∷ rs) = if pr_is_imsi r then r ∷ imsis rs else imsis rs

-- Position `k` holds an IMSI, or lies behind the end.
imsi_at : ℕ → List PagingRecord → Bool
imsi_at k [] = true
imsi_at zero (r ∷ rs) = pr_is_imsi r
imsi_at (suc k) (r ∷ rs) = imsi_at k rs

-- Position `k` holds an IMSI, or none stands before it.
settled : ℕ → List PagingRecord → Bool
settled k [] = true
settled zero (r ∷ rs) = true
settled (suc k) (r ∷ rs) = if pr_is_imsi r then imsi_at k rs else settled k rs

-- A round keeps the order within each type.
tmsis-bubble : (k : ℕ) (xs : List PagingRecord) → tmsis (bubble k xs) ≡ tmsis xs
unfolding tmsis bubble
tmsis-bubble zero xs = refl
tmsis-bubble (suc k) [] = refl
tmsis-bubble (suc k) (a ∷ []) = refl
tmsis-bubble (suc k) (a ∷ b ∷ xs) = ground (arith, tmsis-bubble k (a ∷ xs), tmsis-bubble k (b ∷ xs))

imsis-bubble : (k : ℕ) (xs : List PagingRecord) → imsis (bubble k xs) ≡ imsis xs
unfolding imsis bubble
imsis-bubble zero xs = refl
imsis-bubble (suc k) [] = refl
imsis-bubble (suc k) (a ∷ []) = refl
imsis-bubble (suc k) (a ∷ b ∷ xs) = ground (arith, imsis-bubble k (a ∷ xs), imsis-bubble k (b ∷ xs))

-- An IMSI that a round meets is carried to the round's last position.
imsi_at-carried :
    (k : ℕ) (a : PagingRecord) (xs : List PagingRecord)
    → pr_is_imsi a ≡ true
    → imsi_at k (bubble k (a ∷ xs)) ≡ true
unfolding imsi_at bubble
imsi_at-carried zero a xs h = h
imsi_at-carried (suc zero) a [] h = refl
imsi_at-carried (suc (suc k)) a [] h = refl
imsi_at-carried (suc k) a (b ∷ xs) h =
    ground (arith, imsi_at-carried k a xs, imsi_at-carried k b xs)

imsi_at-nil : (k : ℕ) → imsi_at k [] ≡ true
unfolding imsi_at
imsi_at-nil k = refl

settled-bubble : (k : ℕ) (xs : List PagingRecord) → settled k (bubble k xs) ≡ true
unfolding settled bubble
settled-bubble zero [] = refl
settled-bubble zero (a ∷ xs) = refl
settled-bubble (suc k) [] = refl
settled-bubble (suc k) (a ∷ []) = ground (arith, imsi_at-nil k)
settled-bubble (suc k) (a ∷ b ∷ xs) =
    ground (arith, settled-bubble k (a ∷ xs), settled-bubble k (b ∷ xs), imsi_at-carried k b xs)

-- A round leaves what lies behind it.
imsi_at-behind : (j k : ℕ) (xs : List PagingRecord) → k < j → imsi_at j (bubble k xs) ≡ imsi_at j xs
unfolding imsi_at bubble
imsi_at-behind j zero xs h = refl
imsi_at-behind j (suc k) [] h = refl
imsi_at-behind j (suc k) (a ∷ []) h = refl
imsi_at-behind zero (suc k) (a ∷ b ∷ xs) h = absurd (omega arith)
imsi_at-behind (suc zero) (suc k) (a ∷ b ∷ xs) h = absurd (omega arith)
imsi_at-behind (suc (suc j)) (suc k) (a ∷ b ∷ xs) h =
    imsi_at-behind (suc j) k ((if out_of_order a b then a else b) ∷ xs) (omega arith)

settled-behind :
    (j k : ℕ) (xs : List PagingRecord)
    → k < j
    → settled j xs ≡ true
    → settled j (bubble k xs) ≡ true
unfolding settled imsi_at bubble
settled-behind j zero xs h s = s
settled-behind j (suc k) [] h s = refl
settled-behind j (suc k) (a ∷ []) h s = s
settled-behind zero (suc k) (a ∷ b ∷ xs) h s = absurd (omega arith)
settled-behind (suc zero) (suc k) (a ∷ b ∷ xs) h s = absurd (omega arith)
settled-behind (suc (suc j)) (suc k) (a ∷ b ∷ xs) h s = ground (
  arith,
  settled-behind (suc j) k (a ∷ xs) (omega arith),
  settled-behind (suc j) k (b ∷ xs) (omega arith),
  imsi_at-behind (suc j) k (b ∷ xs) (omega arith),
)

settled-zero : (xs : List PagingRecord) → settled 0 xs ≡ true
unfolding settled
settled-zero [] = refl
settled-zero (x ∷ xs) = refl

reached : (k i : ℕ) → k < i → (i ≡ suc k) ⊎ (suc k < i)
reached k i h = grind arith

settled-rounds :
    (k : ℕ) (xs : List PagingRecord)
    → ((j : ℕ) → k < j → settled j xs ≡ true)
    → (j : ℕ) → settled j (bubble_rounds k xs) ≡ true
unfolding bubble_rounds
settled-rounds zero xs h zero = settled-zero xs
settled-rounds zero xs h (suc j) = h (suc j) (omega arith)
settled-rounds (suc k) xs h j =
    settled-rounds k (bubble (suc k) xs)
      (λ i p. elim (reached k i p) [
        | inl e ↦ rw e (settled-bubble (suc k) xs)
        | inr q ↦ settled-behind i (suc k) xs q (h i q)
      ])
      j

imsi_at-end : (j : ℕ) (xs : List PagingRecord) → length xs ≤ j → imsi_at j xs ≡ true
unfolding imsi_at
imsi_at-end j [] h = refl
imsi_at-end zero (x ∷ xs) h = absurd (omega arith)
imsi_at-end (suc j) (x ∷ xs) h = imsi_at-end j xs (omega arith)

settled-end : (j : ℕ) (xs : List PagingRecord) → length xs ≤ j → settled j xs ≡ true
unfolding settled
settled-end j [] h = refl
settled-end zero (x ∷ xs) h = refl
settled-end (suc j) (x ∷ xs) h =
    ground (arith, settled-end j xs (omega arith), imsi_at-end j xs (omega arith))

all_imsi :
    (xs : List PagingRecord) → ((j : ℕ) → imsi_at j xs ≡ true) → (tmsis xs ≡ []) × (imsis xs ≡ xs)
unfolding tmsis imsis imsi_at
all_imsi [] h = (refl, refl)
all_imsi (x ∷ xs) h = ground (arith, h 0, all_imsi xs (λ j. h (suc j)))

settled-partition :
    (xs : List PagingRecord) → ((j : ℕ) → settled j xs ≡ true) → tmsis xs ++ imsis xs ≡ xs
unfolding tmsis imsis settled
settled-partition [] h = refl
settled-partition (x ∷ xs) h = elim (Bool-cases (pr_is_imsi x)) [
  | inl e ↦
      let tail = all_imsi xs (λ j. rw e at (h (suc j))) in rw (e, tail.0) (ap (λ l. x ∷ l) tail.1)
  | inr e ↦ rw e (ap (λ l. x ∷ l) (settled-partition xs (λ j. rw e at (h (suc j)))))
]

tmsis-rounds : (k : ℕ) (xs : List PagingRecord) → tmsis (bubble_rounds k xs) ≡ tmsis xs
unfolding bubble_rounds
tmsis-rounds zero xs = refl
tmsis-rounds (suc k) xs = tmsis-rounds k (bubble (suc k) xs) ∙ tmsis-bubble (suc k) xs

imsis-rounds : (k : ℕ) (xs : List PagingRecord) → imsis (bubble_rounds k xs) ≡ imsis xs
unfolding bubble_rounds
imsis-rounds zero xs = refl
imsis-rounds (suc k) xs = imsis-rounds k (bubble (suc k) xs) ∙ imsis-bubble (suc k) xs

-- The sort puts the records whose identity is no IMSI first, and keeps the order within each type.
pub sort_pr_tmsi_imsi_lem : (xs : List PagingRecord) → sort_pr_tmsi_imsi xs ≡ tmsis xs ++ imsis xs
unfolding sort_pr_tmsi_imsi
sort_pr_tmsi_imsi_lem xs =
    let k : ℕ = length xs - 1 in
    sym (
      settled-partition (bubble_rounds k xs)
        (settled-rounds k xs (λ j p. settled-end j xs (omega arith))))
    ∙ ap₂ (◌++◌) (tmsis-rounds k xs) (imsis-rounds k xs)
