-- ===== src/Wal/Replay.antt =====
-- Replaying the log into a fresh buffer (WriteAheadLogger.h, `build_buffer_from_log`).
use dynamic_extension.Base.{
  ◌≡◌, refl, sym, ap, ◌∙◌, Bool, true, ◌||◌, ◌&&◌, List, [], ◌∷◌, ◌++◌, arith, if◌then◌else◌, ◌==◌,
  append-nil, append_assoc,
}
use dynamic_extension.Record.{Record, Wrapped}
use dynamic_extension.Wal.{
  insert, delete, Entry, Wal, append, is_mark, logged_entries, logged_deletes, is_among, replayed,
  entries_to_append, open_log,
}
use dynamic_extension.Wal.Log.{IsSynced, write-append}

abbrev pub inserted : Wrapped → Entry
inserted w = record { type = insert; payload = w }

-- A run of insertions that are logged one after the other.
unfoldable pub append_all : List Wrapped → Wal → Wal
append_all [] w = w
append_all (x ∷ xs) w = append_all xs (append x w)

unfoldable pub inserted_all : List Wrapped → List Entry
inserted_all [] = []
inserted_all (x ∷ xs) = inserted x ∷ inserted_all xs

append_all-file :
    (xs : List Wrapped) (w : Wal) → IsSynced w → (append_all xs w).file ≡ w.file ++ inserted_all xs
unfolding append_all inserted_all append
append_all-file [] w s = sym (append-nil w.file)
append_all-file (x ∷ xs) w s =
    let one = write-append (inserted x) w s in
    append_all-file xs (append x w) one.1
    ∙ ap (λ t. t ++ inserted_all xs) one.0
    ∙ append_assoc w.file (inserted x ∷ []) (inserted_all xs)

replayed-none : (es : List Entry) → replayed [] es ≡ es
unfolding replayed is_among
replayed-none [] = refl
replayed-none (e ∷ es) = ap (λ t. e ∷ t) (replayed-none es)

entries-inserted_all :
    (xs : List Wrapped)
    → (logged_entries (inserted_all xs) ≡ inserted_all xs) × (logged_deletes (inserted_all xs) ≡ [])
unfolding logged_entries logged_deletes inserted_all
entries-inserted_all [] = (refl, refl)
entries-inserted_all (x ∷ xs) = ground (arith, entries-inserted_all xs)

-- Insertions that are logged to an empty file come back from a replay, all of them, in order.
pub replay-append_all :
    (xs : List Wrapped) → entries_to_append (append_all xs (open_log [])).file ≡ inserted_all xs
unfolding entries_to_append open_log
replay-append_all xs =
    let parts = entries-inserted_all xs in
    ap entries_to_append (append_all-file xs (open_log []) refl)
    ∙ rw (parts.0, parts.1) (replayed-none (inserted_all xs))

logged_entries-append :
    (xs ys : List Entry) → logged_entries (xs ++ ys) ≡ logged_entries xs ++ logged_entries ys
unfolding logged_entries
logged_entries-append [] ys = refl
logged_entries-append (x ∷ xs) ys = ground (arith, logged_entries-append xs ys)

logged_deletes-append :
    (xs ys : List Entry) → logged_deletes (xs ++ ys) ≡ logged_deletes xs ++ logged_deletes ys
unfolding logged_deletes
logged_deletes-append [] ys = refl
logged_deletes-append (x ∷ xs) ys = ground (arith, logged_deletes-append xs ys)

-- A mark in the log changes nothing in a replay. So the records before a FLUSH_B are replayed as
-- well, although the flush may have stored them.
pub replay-mark :
    (before after : List Entry) (m : Entry)
    → is_mark m.type ≡ true
    → entries_to_append (before ++ m ∷ after) ≡ entries_to_append (before ++ after)
unfolding entries_to_append logged_entries logged_deletes is_among
replay-mark before after m h = rw (
  logged_entries-append before (m ∷ after),
  logged_entries-append before after,
  logged_deletes-append before (m ∷ after),
  logged_deletes-append before after,
  mark_entries m after h,
  mark_deletes m after h,
)
  where
    mark_entries :
        (m : Entry) (es : List Entry)
        → is_mark m.type ≡ true
        → logged_entries (m ∷ es) ≡ logged_entries es
    mark_entries m es h = ground arith

    mark_deletes :
        (m : Entry) (es : List Entry)
        → is_mark m.type ≡ true
        → logged_deletes (m ∷ es) ≡ logged_deletes es
    mark_deletes m es h = ground arith

-- How many entries of a list hold the record.
abbrev pub occurrences : Record → List Entry → List Entry
occurrences r [] = []
occurrences r (e ∷ es) =
    if e.payload.rec.key == r.key && e.payload.rec.value == r.value
    then e ∷ occurrences r es
    else occurrences r es

is_among-append :
    (r : Record) (xs ys : List Record) → is_among r (xs ++ ys) ≡ (is_among r xs || is_among r ys)
unfolding is_among
is_among-append r [] ys = refl
is_among-append r (x ∷ xs) ys = ground (arith, is_among-append r xs ys)

replayed-drops :
    (r : Record) (ds : List Record) (es : List Entry)
    → is_among r ds ≡ true
    → occurrences r (replayed ds es) ≡ []
unfolding replayed
replayed-drops r ds [] h = refl
replayed-drops r ds (e ∷ es) h =
    ground (arith, same_record e.payload.rec r, replayed-drops r ds es h)
  where
    same_record : (a b : Record) → a.key ≡ b.key → a.value ≡ b.value → a ≡ b
    same_record a b p q = ground arith

-- A DELETE anywhere in the log removes every insertion of its record from the replay, those that
-- were logged after it too: a record that is erased and inserted again is lost.
pub replay-delete_wins :
    (before after : List Entry) (w : Wrapped)
    → occurrences w.rec
        (entries_to_append (before ++ record { type = delete; payload = w } ∷ after))
      ≡ []
unfolding entries_to_append logged_entries logged_deletes is_among
replay-delete_wins before after w = replayed-drops w.rec _ _ (
    ap (is_among w.rec)
      (logged_deletes-append before (record { type = delete; payload = w } ∷ after))
    ∙ is_among-append w.rec (logged_deletes before) _
    ∙ found (is_among w.rec (logged_deletes before)))
  where
    found :
        (b : Bool)
        → (b || is_among w.rec (logged_deletes (record { type = delete; payload = w } ∷ after)))
          ≡ true
    found b = ground arith
