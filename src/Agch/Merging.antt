-- ===== src/Agch/Merging.antt =====
-- Which request references the merge of two rejections in src/common/bts.c keeps.
use mathlib.Core.Path.{ap₂}
use osmo_bts.Base.{
  ℕ, ◌≤◌, ◌≡◌, refl, ap, ◌∙◌, Bool, false, not, ◌&&◌, ◌||◌, List, [], ◌∷◌, ◌++◌, length, take, ◌==◌,
  if_elim, arith, take_all, length-append,
}
use osmo_bts.Agch.Reject.{
  Entry, Rej, Body, reject, other, store_imm_ass_rej_refs, unless, extract_imm_ass_rej_refs, Merged,
  merge_entries, try_merge_imm_ass_rej,
}

-- Whether a message rejects the request reference `r`.
unfoldable pub rejects : ℕ → Body → Bool
rejects r (reject j) =
    (j.entry1.req_ref == r)
    || ((j.entry2.req_ref == r) || ((j.entry3.req_ref == r) || (j.entry4.req_ref == r)))
rejects r (other octets) = false

abbrev among : ℕ → List Entry → Bool
among r [] = false
among r (e ∷ es) = (e.req_ref == r) || among r es

among-append : (r : ℕ) (xs ys : List Entry) → among r (xs ++ ys) ≡ (among r xs || among r ys)
among-append r [] ys = refl
among-append r (x ∷ xs) ys = ground (arith, among-append r xs ys)

among-unless : (r : ℕ) (b : Bool) (e : Entry) → among r (unless b e) ≡ (not b && (e.req_ref == r))
among-unless r b e = ground arith

rejects-extract : (r : ℕ) (j : Rej) → among r (extract_imm_ass_rej_refs j) ≡ rejects r (reject j)
unfolding extract_imm_ass_rej_refs rejects
rejects-extract r j = ground arith

rejects-store_taken :
    (r : ℕ) (j : Rej) (e : Entry) (es : List Entry)
    → rejects r (reject (store_imm_ass_rej_refs j (e ∷ es))) ≡ among r (take 4 (e ∷ es))
unfolding store_imm_ass_rej_refs rejects
rejects-store_taken r j a [] = ground arith
rejects-store_taken r j a (b ∷ []) = ground arith
rejects-store_taken r j a (b ∷ c ∷ []) = ground arith
rejects-store_taken r j a (b ∷ c ∷ d ∷ es) = ground arith

-- The references that the two messages of a merge reject, together.
abbrev pub either_rejects : ℕ → Body → Body → Bool
either_rejects r a b = rejects r a || rejects r b

-- After a merge the old message stays, and the new one only where the merge is not complete.
abbrev pub kept_by : ℕ → Merged → Bool
kept_by r m = rejects r m.old_rej || (not m.done && rejects r m.new_rej)

rejects-store_imm_ass_rej_refs :
    (r : ℕ) (j : Rej) (e : Entry) (es : List Entry)
    → length es ≤ 3
    → rejects r (reject (store_imm_ass_rej_refs j (e ∷ es))) ≡ among r (e ∷ es)
rejects-store_imm_ass_rej_refs r j e es le =
    rejects-store_taken r j e es ∙ ap (among r) (take_all 4 (e ∷ es) (omega arith))

kept_by-partial :
    (r : ℕ) (j k : Rej) (xs ys : List Entry)
    → rejects r (reject (store_imm_ass_rej_refs j (xs ++ ys))) ≡ among r xs
    → rejects r (reject (store_imm_ass_rej_refs k ys)) ≡ among r ys
    → (rejects r (reject (store_imm_ass_rej_refs j (xs ++ ys)))
        || rejects r (reject (store_imm_ass_rej_refs k ys)))
      ≡ among r (xs ++ ys)
kept_by-partial r j k xs ys h i = ground (arith, among-append r xs ys)

kept_by-merge_entries :
    (r : ℕ) (j k : Rej) (e : Entry) (es : List Entry)
    → length es ≤ 7
    → kept_by r (merge_entries j k (e ∷ es)) ≡ among r (e ∷ es)
unfolding merge_entries
kept_by-merge_entries r j k e [] le =
    ground (arith, rejects-store_imm_ass_rej_refs r j e [] (omega arith))
kept_by-merge_entries r j k e (b ∷ []) le =
    ground (arith, rejects-store_imm_ass_rej_refs r j e (b ∷ []) (omega arith))
kept_by-merge_entries r j k e (b ∷ c ∷ []) le =
    ground (arith, rejects-store_imm_ass_rej_refs r j e (b ∷ c ∷ []) (omega arith))
kept_by-merge_entries r j k e (b ∷ c ∷ d ∷ []) le =
    ground (arith, rejects-store_imm_ass_rej_refs r j e (b ∷ c ∷ d ∷ []) (omega arith))
kept_by-merge_entries r j k e (b ∷ c ∷ d ∷ f ∷ fs) le = ground (
  arith,
  rejects-store_taken r j e (b ∷ c ∷ d ∷ f ∷ fs),
  rejects-store_imm_ass_rej_refs r k f fs (omega arith),
)

kept_by-merge_entries_some :
    (r : ℕ) (j k : Rej) (es : List Entry)
    → 1 ≤ length es
    → length es ≤ 8
    → kept_by r (merge_entries j k es) ≡ among r es
kept_by-merge_entries_some r j k [] pos le = absurd (omega arith)
kept_by-merge_entries_some r j k (e ∷ es) pos le = kept_by-merge_entries r j k e es (omega arith)

length-unless : (b : Bool) (e : Entry) → length (unless b e) ≤ 1
length-unless b e = ground arith

length-extract :
    (j : Rej)
    → (1 ≤ length (extract_imm_ass_rej_refs j)) × (length (extract_imm_ass_rej_refs j) ≤ 4)
unfolding extract_imm_ass_rej_refs
length-extract j = ground arith

-- Merging a message into the last of the queue loses no rejected request reference and adds none,
-- whatever the messages are and whether the merge is complete or not.
pub kept_by-try_merge_imm_ass_rej :
    (r : ℕ) (a b : Body) → kept_by r (try_merge_imm_ass_rej a b) ≡ either_rejects r a b
unfolding try_merge_imm_ass_rej
kept_by-try_merge_imm_ass_rej r (other o) b = refl
kept_by-try_merge_imm_ass_rej r (reject j) (other o) = refl
kept_by-try_merge_imm_ass_rej r (reject j) (reject k) =
    if_elim (λ (m : Merged). kept_by r m ≡ either_rejects r (reject j) (reject k))
      (length (extract_imm_ass_rej_refs j) == 4)
      (record { old_rej = reject j; new_rej = reject k; done = false })
      (merge_entries j k (extract_imm_ass_rej_refs j ++ extract_imm_ass_rej_refs k)) (λ e. refl)
      (λ e.
        let a = length-extract j in
        let b = length-extract k in
        let l = length-append (extract_imm_ass_rej_refs j) (extract_imm_ass_rej_refs k) in
        kept_by-merge_entries_some r j k _ (omega arith) (omega arith)
        ∙ among-append r (extract_imm_ass_rej_refs j) (extract_imm_ass_rej_refs k)
        ∙ ap₂ ◌||◌ (rejects-extract r j) (rejects-extract r k))
