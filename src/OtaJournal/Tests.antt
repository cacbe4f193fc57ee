-- ===== src/OtaJournal/Tests.antt =====
-- The journal at concrete hashes.
use remote_wake.Base.{◌≤◌, ◌≡◌, refl, true, List, [], ◌∷◌, replicate, arith}
use remote_wake.OtaJournal.{Journal, valid, rejected, reject}
use remote_wake.OtaJournal.Rejected.{IsRing, reject_all, reject-remembers}
use remote_wake.OtaJournal.Updates.{Update, apply_all, updates_keep}

abbrev fresh : Journal
fresh = record {
  format = 1;
  scope = 7 ∷ 7 ∷ [];
  floor = 3;
  pending_release = 4;
  pending_address = 65536;
  pending_hash = 1 ∷ [];
  failed = replicate 4 [];
  failed_count = 0;
  failed_next = 0;
}

fresh-IsRing : IsRing fresh
fresh-IsRing = ground arith

reject-remembers_example :
    rejected (reject_all (reject fresh (1 ∷ [])) ((2 ∷ []) ∷ (3 ∷ []) ∷ (4 ∷ []) ∷ [])) (1 ∷ [])
    ≡ true
reject-remembers_example =
    reject-remembers fresh (1 ∷ []) ((2 ∷ []) ∷ (3 ∷ []) ∷ (4 ∷ []) ∷ []) fresh-IsRing
      (unfold rejected in refl) (omega arith)

abbrev history : List Update
history = Update.rejects (9 ∷ []) ∷ Update.prepares 5 0 (8 ∷ []) ∷ Update.confirms 5 ∷ []

updates_keep_example :
    (valid (apply_all fresh history) (7 ∷ 7 ∷ []) ≡ true)
    × IsRing (apply_all fresh history)
    × (3 ≤ (apply_all fresh history).floor)
updates_keep_example = updates_keep fresh (7 ∷ 7 ∷ []) history fresh-IsRing (unfold valid in refl)
