-- ===== src/Agch/Reject.antt =====
-- Rejections of immediate assignments, four to a message, and how src/common/bts.c merges two of
-- them: store_imm_ass_rej_refs, extract_imm_ass_rej_refs and try_merge_imm_ass_rej.
use osmo_bts.Base.{
  ℕ, Bool, true, false, ◌||◌, List, [], ◌∷◌, ◌++◌, length, drop, leb, ◌==◌, if◌then◌else◌,
}

-- A request reference, as the number that its three octets are, with its wait indication.
pub record Entry : Type 0 where
  pub req_ref : ℕ
  pub wait_ind : ℕ

-- The four entries of struct gsm48_imm_ass_rej.
pub record Rej : Type 0 where
  pub entry1 : Entry
  pub entry2 : Entry
  pub entry3 : Entry
  pub entry4 : Entry

-- The L3 part of a message: a rejection, or another message type with its octets.
pub data Body : Type 0 where
  reject : Rej → Body
  other : List ℕ → Body

-- The first four of the entries, filled up with the first one; nothing for none.
unfoldable pub store_imm_ass_rej_refs : Rej → List Entry → Rej
store_imm_ass_rej_refs rej [] = rej
store_imm_ass_rej_refs rej (a ∷ []) = record { entry1 = a; entry2 = a; entry3 = a; entry4 = a }
store_imm_ass_rej_refs rej (a ∷ b ∷ []) = record { entry1 = a; entry2 = b; entry3 = a; entry4 = a }
store_imm_ass_rej_refs rej (a ∷ b ∷ c ∷ []) = record {
  entry1 = a;
  entry2 = b;
  entry3 = c;
  entry4 = a;
}
store_imm_ass_rej_refs rej (a ∷ b ∷ c ∷ d ∷ rest) = record {
  entry1 = a;
  entry2 = b;
  entry3 = c;
  entry4 = d;
}

abbrev pub same_ref : Entry → Entry → Bool
same_ref a b = a.req_ref == b.req_ref

-- An entry unless it repeats an earlier one.
abbrev pub unless : Bool → Entry → List Entry
unless repeated e = if repeated then [] else e ∷ []

unfoldable pub extract_imm_ass_rej_refs : Rej → List Entry
extract_imm_ass_rej_refs rej =
    rej.entry1
    ∷ (unless (same_ref rej.entry1 rej.entry2) rej.entry2
        ++ (unless (same_ref rej.entry1 rej.entry3 || same_ref rej.entry2 rej.entry3) rej.entry3
            ++ unless
                (same_ref rej.entry1 rej.entry4
                  || (same_ref rej.entry2 rej.entry4 || same_ref rej.entry3 rej.entry4))
                rej.entry4))

-- The two messages afterwards, and whether the new one has gone into the old one.
pub record Merged : Type 0 where
  pub old_rej : Body
  pub new_rej : Body
  pub done : Bool

unfoldable pub merge_entries : Rej → Rej → List Entry → Merged
merge_entries old_rej new_rej entries =
    if leb (length entries) 4
    then record {
      old_rej = reject (store_imm_ass_rej_refs old_rej entries);
      new_rej = reject new_rej;
      done = true;
    }
    else record {
      old_rej = reject (store_imm_ass_rej_refs old_rej entries);
      new_rej = reject (store_imm_ass_rej_refs new_rej (drop 4 entries));
      done = false;
    }

unfoldable pub try_merge_imm_ass_rej : Body → Body → Merged
try_merge_imm_ass_rej (reject old_rej) (reject new_rej) =
    let old_entries = extract_imm_ass_rej_refs old_rej in
    if length old_entries == 4
    then record { old_rej = reject old_rej; new_rej = reject new_rej; done = false }
    else merge_entries old_rej new_rej (old_entries ++ extract_imm_ass_rej_refs new_rej)
try_merge_imm_ass_rej old_rej new_rej = record {
  old_rej = old_rej;
  new_rej = new_rej;
  done = false;
}
