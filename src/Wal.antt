-- ===== src/Wal.antt =====
-- include/framework/structure/WriteAheadLogger.h: the log file is the list of its entries. A
-- partial entry at its end, and the errors of the system calls, are left out.
pub mod Log
pub mod Replay
use dynamic_extension.Base.{
  ℕ, zero, suc, ◌+◌, Bool, true, false, ◌&&◌, ◌||◌, List, [], ◌∷◌, if◌then◌else◌, length, ◌==◌,
}
use dynamic_extension.Record.{Record, Wrapped, rec_eq, is_tombstone}

pub data EntryType : Type 0 where
  insert delete flush_b flush_c : EntryType

pub record Entry : Type 0 where
  pub type : EntryType
  pub payload : Wrapped

pub record Wal : Type 0 where
  pub file : List Entry
  pub lsn : ℕ

-- Bytes that were never written read as zero, which is an INSERT of a zero record.
abbrev pub zero_record : Wrapped
zero_record = record { header = 0; rec = record { key = 0; value = 0 } }

abbrev pub zero_entry : Entry
zero_entry = record { type = insert; payload = zero_record }

unfoldable pub pwrite : ℕ → Entry → List Entry → List Entry
pwrite zero e [] = e ∷ []
pwrite zero e (x ∷ xs) = e ∷ xs
pwrite (suc n) e [] = zero_entry ∷ pwrite n e []
pwrite (suc n) e (x ∷ xs) = x ∷ pwrite n e xs

unfoldable pub write : Entry → Wal → Wal
write e w = record { file = pwrite w.lsn e w.file; lsn = w.lsn + 1 }

-- The constructor, on the file that is there.
unfoldable pub open_log : List Entry → Wal
open_log file = record { file = file; lsn = length file }

unfoldable pub append : Wrapped → Wal → Wal
append rec w = write (record { type = insert; payload = rec }) w

unfoldable pub remove : Wrapped → Wal → Wal
remove rec w = write (record { type = delete; payload = rec }) w

unfoldable pub flush_begin : Wal → Wal
flush_begin w = write (record { type = flush_b; payload = zero_record }) w

unfoldable pub truncate : Wal → Wal
truncate w = record { file = []; lsn = 0 }

abbrev pub is_flush_b : EntryType → Bool
is_flush_b flush_b = true
is_flush_b _ = false

abbrev pub is_flush_c : EntryType → Bool
is_flush_c flush_c = true
is_flush_c _ = false

abbrev pub is_mark : EntryType → Bool
is_mark t = is_flush_b t || is_flush_c t

-- The reading loop of `flush_complete`: the entries behind the first FLUSH_B, without the marks.
unfoldable pub remaining : Bool → List Entry → List Entry
remaining flush_began [] = []
remaining flush_began (e ∷ es) =
    let began = flush_began || is_flush_b e.type in
    let rest = remaining began es in
    if began then (if is_mark e.type then rest else e ∷ rest) else rest

unfoldable pub write_all : List Entry → Wal → Wal
write_all [] w = w
write_all (e ∷ es) w = write_all es (write e w)

unfoldable pub flush_complete : Wal → Wal
flush_complete w =
    let marked = write (record { type = flush_c; payload = zero_record }) w in
    write_all (remaining false marked.file) (truncate marked)

-- The two vectors that `build_buffer_from_log` fills.
unfoldable pub logged_entries : List Entry → List Entry
logged_entries [] = []
logged_entries (e ∷ es) = elim e.type [ insert ↦ e ∷ logged_entries es | _ ↦ logged_entries es ]

unfoldable pub logged_deletes : List Entry → List Record
logged_deletes [] = []
logged_deletes (e ∷ es) = elim e.type [
  | delete ↦ e.payload.rec ∷ logged_deletes es
  | _ ↦ logged_deletes es
]

-- `find_if` over the deleted records, by key and value.
unfoldable pub is_among : Record → List Record → Bool
is_among r [] = false
is_among r (d ∷ ds) = (r.key == d.key && r.value == d.value) || is_among r ds

-- The entries that are appended to the buffer, in order.
unfoldable pub replayed : List Record → List Entry → List Entry
replayed deleted [] = []
replayed deleted (e ∷ es) =
    if is_among e.payload.rec deleted then replayed deleted es else e ∷ replayed deleted es

unfoldable pub entries_to_append : List Entry → List Entry
entries_to_append file = replayed (logged_deletes file) (logged_entries file)
