-- ===== src/Notification/Tests.antt =====
-- The theorems on notifications at concrete lists.
use osmo_bts.Base.{ℕ, ◌≡◌, refl, inl, false, [], ◌∷◌}
use osmo_bts.Osmo.Sample.{libosmo}
use osmo_bts.Notification.{Notification, Asci}
use osmo_bts.Notification.Cycle.{IsValid, round, announcements, nch_round}

abbrev call : ℕ → Notification
call x = record {
  group_call_ref = x ∷ 0 ∷ 0 ∷ 0 ∷ 1 ∷ [];
  chan_present = false;
  chan_value = [];
  chan_len = 0;
}

abbrev two_calls : Asci
two_calls = record {
  notifications = call 1 ∷ call 2 ∷ [];
  entries = 2;
  count = 0;
  nln = 3;
  nln_status = 0;
}

two_calls-IsValid : IsValid two_calls
two_calls-IsValid = record { entries_lem = refl; within = inl refl }

nch_round_example :
    round libosmo 2 two_calls ≡ (two_calls, announcements libosmo 3 (call 1 ∷ call 2 ∷ []))
nch_round_example = nch_round libosmo two_calls two_calls-IsValid refl
