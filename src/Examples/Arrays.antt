-- ===== src/Examples/Arrays.antt =====
-- Merging, and views of the buffer, at concrete inputs.
use dynamic_extension.Base.{
  ℕ, refl, true, List, [], ◌∷◌, none, some, arith, ltb, suc, if◌then◌else◌,
}
use dynamic_extension.Bloom.{exact}
use dynamic_extension.Record.{Record, Wrapped, is_deleted}
use dynamic_extension.Record.Net.{SameNet}
use dynamic_extension.Merge.{sorted_array_from_bufferview}
use dynamic_extension.Merge.Array.{array-SameNet, array-IsSorted, IsSorted}
use dynamic_extension.View.{BufferView, delete_record}
use dynamic_extension.View.Contents.{IsWindow}
use dynamic_extension.View.Delete.{Deletes, delete_record-contents}
use dynamic_extension.Examples.Sort.{sort, sort-Perm, sort-IsOrdered}

-- The number of leading records below a key.
abbrev below : List Wrapped → ℕ → ℕ
below [] k = 0
below (w ∷ ws) k = if ltb w.rec.key k then suc (below ws k) else 0

abbrev entry : ℕ → ℕ → Wrapped
entry header key = record { header = header; rec = record { key = key; value = 0 } }

-- Two records, the tombstone of one of them, and a third record.
abbrev mixed : List Wrapped
mixed = entry 4 7 ∷ entry 4 3 ∷ entry 5 7 ∷ entry 4 9 ∷ []

abbrev tags : List Wrapped
tags = entry 4 7 ∷ entry 6 3 ∷ entry 4 7 ∷ []

array-SameNet_example : SameNet mixed (sorted_array_from_bufferview exact sort mixed none).buffer
unfolding is_deleted
array-SameNet_example =
    array-SameNet exact sort sort-Perm mixed none (refl, (refl, (refl, (refl, tt))))

array-IsSorted_example : IsSorted (sorted_array_from_bufferview exact sort mixed none).buffer
array-IsSorted_example = array-IsSorted exact sort sort-IsOrdered mixed none

-- A ring of four cells whose window of three wraps.
abbrev ring : List Wrapped
ring = entry 5 7 ∷ entry 4 8 ∷ entry 4 7 ∷ entry 4 3 ∷ []

abbrev wrapped_view : BufferView (List Record)
wrapped_view = record {
  head = 2;
  tail = 5;
  start = 2;
  stop = 1;
  cap = 4;
  approx_ts_cnt = 1;
  tombstone_filter = some (record { key = 7; value = 0 } ∷ []);
  active = true;
}

ring-IsWindow : IsWindow wrapped_view ring
ring-IsWindow = record {
  ordered = omega arith;
  fits = omega arith;
  small = omega arith;
  start_lem = refl;
  stop_lem = refl;
  size = refl;
}

delete_record-contents_example :
    Deletes wrapped_view ring
      (record { key = 3; value = 0 })
      (delete_record wrapped_view ring (record { key = 3; value = 0 }))
delete_record-contents_example =
    delete_record-contents wrapped_view ring (record { key = 3; value = 0 }) ring-IsWindow
      (omega arith)
