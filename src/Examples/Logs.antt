-- ===== src/Examples/Logs.antt =====
-- The log at concrete inputs.
use dynamic_extension.Base.{ℕ, ◌≡◌, refl, [], ◌∷◌}
use dynamic_extension.Record.{Wrapped}
use dynamic_extension.Wal.{Entry, Wal, insert, flush_b, flush_complete, zero_record}
use dynamic_extension.Wal.Log.{IsSynced, records_of, flush_complete-keeps}

abbrev entry : ℕ → ℕ → Wrapped
entry header key = record { header = header; rec = record { key = key; value = 0 } }

abbrev inserting : ℕ → Entry
inserting key = record { type = insert; payload = entry 0 key }

abbrev mark : Entry
mark = record { type = flush_b; payload = zero_record }

abbrev log : Wal
log = record { file = inserting 1 ∷ mark ∷ inserting 2 ∷ inserting 3 ∷ []; lsn = 4 }

flush_complete-keeps_example :
    ((flush_complete log).file ≡ records_of (inserting 2 ∷ inserting 3 ∷ []))
    × IsSynced (flush_complete log)
flush_complete-keeps_example =
    flush_complete-keeps log (inserting 1 ∷ []) (inserting 2 ∷ inserting 3 ∷ []) zero_record refl
      refl (refl, tt)
