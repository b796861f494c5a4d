-- ===== src/Wal/Log.antt =====
-- Writing to the log and flushing it (WriteAheadLogger.h).
use dynamic_extension.Base.{
  ◌≡◌, refl, ap, ◌∙◌, true, false, List, [], ◌∷◌, ◌++◌, arith, if◌then◌else◌, length, length-append,
  append-nil, append_assoc,
}
use dynamic_extension.Record.{Wrapped}
use dynamic_extension.Wal.{
  flush_b, flush_c, Entry, Wal, zero_record, pwrite, write, truncate, is_flush_b, is_mark,
  remaining, write_all, flush_complete,
}

-- The next entry goes to the end of the file.
abbrev pub IsSynced : Wal → Type 0
IsSynced w = w.lsn ≡ length w.file

pwrite-end : (file : List Entry) (e : Entry) → pwrite (length file) e file ≡ file ++ e ∷ []
unfolding pwrite
pwrite-end [] e = refl
pwrite-end (x ∷ xs) e = ap (λ t. x ∷ t) (pwrite-end xs e)

-- On a log that is in step with its file, `write` appends.
pub write-append :
    (e : Entry) (w : Wal)
    → IsSynced w
    → ((write e w).file ≡ w.file ++ e ∷ []) × IsSynced (write e w)
unfolding write
write-append e w s =
    let file : pwrite w.lsn e w.file ≡ w.file ++ e ∷ [] = rw s (pwrite-end w.file e) in
    (file, omega (arith, ap length file, length-append w.file (e ∷ [])))

write_all-append :
    (es : List Entry) (w : Wal)
    → IsSynced w
    → ((write_all es w).file ≡ w.file ++ es) × IsSynced (write_all es w)
unfolding write_all
write_all-append [] w s = (ground (arith, append-nil w.file), s)
write_all-append (e ∷ es) w s =
    let one = write-append e w s in
    let rest = write_all-append es (write e w) one.1 in
    (rest.0 ∙ ap (λ t. t ++ es) one.0 ∙ append_assoc w.file (e ∷ []) es, rest.1)

-- No FLUSH_B among the entries.
abbrev pub Unmarked : List Entry → Type 0
Unmarked [] = Unit
Unmarked (e ∷ es) = (is_flush_b e.type ≡ false) × Unmarked es

-- The entries that are no marks.
unfoldable pub records_of : List Entry → List Entry
records_of [] = []
records_of (e ∷ es) = if is_mark e.type then records_of es else e ∷ records_of es

remaining-began : (es : List Entry) → remaining true es ≡ records_of es
unfolding remaining records_of
remaining-began [] = refl
remaining-began (e ∷ es) = ground (arith, remaining-began es)

remaining-skips :
    (before rest : List Entry)
    → Unmarked before
    → remaining false (before ++ rest) ≡ remaining false rest
unfolding remaining
remaining-skips [] rest u = refl
remaining-skips (e ∷ es) rest u = ground (arith, remaining-skips es rest u.1)

remaining-mark :
    (p : Wrapped) (es : List Entry)
    → remaining false (record { type = flush_b; payload = p } ∷ es) ≡ records_of es
unfolding remaining
remaining-mark p es = remaining-began es

records_of-append : (xs ys : List Entry) → records_of (xs ++ ys) ≡ records_of xs ++ records_of ys
unfolding records_of
records_of-append [] ys = refl
records_of-append (x ∷ xs) ys = ground (arith, records_of-append xs ys)

abbrev flush_mark : Wrapped → Entry
flush_mark p = record { type = flush_b; payload = p }

-- If the log is in step with its file and holds a FLUSH_B with none before it, `flush_complete`
-- leaves exactly the records that were logged behind that mark, in their order, and the log in
-- step with its file. What was logged before the mark is gone.
pub flush_complete-keeps :
    (w : Wal) (before after : List Entry) (p : Wrapped)
    → IsSynced w
    → w.file ≡ before ++ record { type = flush_b; payload = p } ∷ after
    → Unmarked before
    → ((flush_complete w).file ≡ records_of after) × IsSynced (flush_complete w)
unfolding flush_complete truncate records_of
flush_complete-keeps w before after p s e u =
    let last : Entry = record { type = flush_c; payload = zero_record } in
    let whole : (write last w).file ≡ before ++ (flush_mark p ∷ after ++ last ∷ []) =
      (write-append last w s).0
      ∙ ap (λ t. t ++ last ∷ []) e
      ∙ append_assoc before (flush_mark p ∷ after) (last ∷ []) in
    let left : remaining false (write last w).file ≡ records_of after =
      ap (remaining false) whole
      ∙ remaining-skips before _ u
      ∙ remaining-mark p (after ++ last ∷ [])
      ∙ records_of-append after (last ∷ [])
      ∙ closing_mark (records_of after) in
    let rewritten =
      write_all-append (remaining false (write last w).file) (record { file = []; lsn = 0 }) refl in
    (rewritten.0 ∙ left, rewritten.1)
  where
    closing_mark :
        (es : List Entry)
        → es ++ records_of (record { type = flush_c; payload = zero_record } ∷ []) ≡ es
    closing_mark es = append-nil es
