-- ===== src/Buffer/Replay.antt =====
-- build_buffer_from_log (WriteAheadLogger.h): the entries of a log are appended to a buffer.
use dynamic_extension.Base.{
  ℕ, zero, suc, ◌+◌, ◌-◌, ◌%◌, ◌≤◌, ◌<◌, ◌≡◌, refl, sym, ap, ◌∙◌, false, List, [], ◌∷◌, ◌++◌, arith,
  length, length-set, take, append_assoc, append-nil,
}
use dynamic_extension.Bloom.{Bloom}
use dynamic_extension.Record.{Wrapped, is_tombstone, set_timestamp, set_visible}
use dynamic_extension.Wal.{Entry, entries_to_append, open_log}
use dynamic_extension.Wal.Replay.{append_all, inserted_all, replay-append_all}
use dynamic_extension.Buffer.{Buffer, append, place, wrap_record}
use dynamic_extension.Buffer.Append.{
  IsValid, slot, stored, visible, append-place, append-refuses, append-visible,
}

module _ {F : Type 0} (b : Bloom F) where
  -- The result of `append` is not looked at.
  unfoldable pub append_entries : List Entry → Buffer F → Buffer F
  append_entries [] buf = buf
  append_entries (e ∷ es) buf =
      append_entries es (append b buf e.payload.rec (is_tombstone e.payload) false).1

  unfoldable pub build_buffer_from_log : List Entry → Buffer F → Buffer F
  build_buffer_from_log file buf = append_entries (entries_to_append file) buf

-- The records of the entries as a ring of `cap` slots stores them from index `tail` on.
unfoldable pub stored_from : ℕ → ℕ → List Entry → List Wrapped
stored_from cap tail [] = []
stored_from cap tail (e ∷ es) =
    set_visible (set_timestamp (tail % cap) (wrap_record e.payload.rec (is_tombstone e.payload)))
    ∷ stored_from cap (tail + 1) es

module _ {F : Type 0} (b : Bloom F) where
  append-IsValid :
      (buf : Buffer F) (e : Entry)
      → IsValid buf
      → buf.tail < buf.head.head_idx + buf.hwm
      → buf.tail + 2 < 0x8000_0000
      → let buf' = (append b buf e.payload.rec (is_tombstone e.payload) false).1 in
        IsValid buf'
        × (buf'.tail ≡ buf.tail + 1)
        × (buf'.head ≡ buf.head)
        × (buf'.hwm ≡ buf.hwm)
        × (buf'.cap ≡ buf.cap)
  unfolding place
  append-IsValid buf e v room small =
      rw (append-place b buf e.payload.rec (is_tombstone e.payload) false v.ordered v.small room) (
        record {
          ordered = omega (arith, v.ordered);
          bounded = omega arith;
          room = v.room;
          size = length-set buf.cells (slot buf) _ ∙ v.size;
          small = omega arith;
        },
        refl,
        refl,
        refl,
        refl,
      )

  -- A buffer that is full stays as it is.
  append_entries-full :
      (es : List Entry) (buf : Buffer F)
      → IsValid buf
      → buf.head.head_idx + buf.hwm ≤ buf.tail
      → append_entries b es buf ≡ buf
  unfolding append_entries
  append_entries-full [] buf v full = refl
  append_entries-full (e ∷ es) buf v full =
      rw (append-refuses b buf e.payload.rec (is_tombstone e.payload) false v.ordered v.small full)
        (append_entries-full es buf v full)

  append_entries-visible :
      (n : ℕ) (es : List Entry) (buf : Buffer F)
      → IsValid buf
      → buf.tail + length es + 1 < 0x8000_0000
      → buf.tail + n ≡ buf.head.head_idx + buf.hwm
      → visible (append_entries b es buf) ≡ visible buf ++ stored_from buf.cap buf.tail (take n es)
  unfolding append_entries stored_from
  append_entries-visible zero es buf v small full =
      rw (append_entries-full es buf v (omega arith)) (sym (append-nil (visible buf)))
  append_entries-visible (suc n) [] buf v small full = sym (append-nil (visible buf))
  append_entries-visible (suc n) (e ∷ es) buf v small full =
      let buf' = (append b buf e.payload.rec (is_tombstone e.payload) false).1 in
      let (v', tail, head, hwm, cap) = append-IsValid buf e v (omega arith) (omega arith) in
      let shown =
        (append-visible b buf e.payload.rec (is_tombstone e.payload) false v (omega arith)).1 in
      let h' = ap (λ h. h.head_idx) head in
      let ih =
        append_entries-visible n es buf' v' (omega (arith, tail)) (omega (arith, tail, h', hwm)) in
      let w = stored buf e.payload.rec (is_tombstone e.payload) in
      ih
      ∙ ap (λ t. t ++ stored_from buf'.cap buf'.tail (take n es)) shown
      ∙ append_assoc (visible buf) (w ∷ []) (stored_from buf'.cap buf'.tail (take n es))
      ∙ ap (λ c. visible buf ++ w ∷ stored_from c buf'.tail (take n es)) cap
      ∙ ap (λ t. visible buf ++ w ∷ stored_from buf.cap t (take n es)) tail

length-inserted_all : (xs : List Wrapped) → length (inserted_all xs) ≡ length xs
unfolding inserted_all
length-inserted_all [] = refl
length-inserted_all (x ∷ xs) = ap suc (length-inserted_all xs)

module _ {F : Type 0} (b : Bloom F) (buf : Buffer F) (v : IsValid buf) where
  -- Insertions that are logged to an empty file and replayed into a valid buffer, whose tail stays
  -- below 2^31 - 1 by them, are shown behind what it shows, in order: those that it has room for. The
  -- others are lost.
  pub build_buffer_from_log-visible :
      (xs : List Wrapped)
      → buf.tail + length xs + 1 < 0x8000_0000
      → visible (build_buffer_from_log b (append_all xs (open_log [])).file buf)
        ≡ visible buf
          ++ stored_from buf.cap buf.tail
              (take (buf.head.head_idx + buf.hwm - buf.tail) (inserted_all xs))
  unfolding build_buffer_from_log
  build_buffer_from_log-visible xs small =
      ap (λ es. visible (append_entries b es buf)) (replay-append_all xs)
      ∙ append_entries-visible b (buf.head.head_idx + buf.hwm - buf.tail) (inserted_all xs) buf v
          (omega (arith, length-inserted_all xs)) (omega (arith, v.bounded))
