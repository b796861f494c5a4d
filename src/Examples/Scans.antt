-- ===== src/Examples/Scans.antt =====
-- Merges of shards and range scans at concrete inputs.
use dynamic_extension.Base.{
  ℕ, ◌≡◌, ◌-◌, refl, subst, Option, some, none, length, min, List, [], ◌∷◌, arith,
}
use dynamic_extension.Bloom.{exact}
use dynamic_extension.Record.{Record, Wrapped, rec_lt, is_deleted}
use dynamic_extension.Record.Net.{SameNet, tombstones, erasure_of, sum_by}
use dynamic_extension.Merge.{MergeInfo}
use dynamic_extension.Merge.Scan.{Untagged}
use dynamic_extension.Merge.Array.{IsSorted, IsOrdered→IsSorted}
use dynamic_extension.Merge.Cursors.{build_cursor_vec, sorted_array_merge}
use dynamic_extension.Merge.Loop.{arrays}
use dynamic_extension.Merge.Merged.{sorted_array_merge-SameNet}
use dynamic_extension.Merge.Ordered.{sorted_array_merge-IsSorted}
use dynamic_extension.RangeScan.{Iterator, RangeScanIterator, range_scan, results, buffer_range}
use dynamic_extension.RangeScan.Groups.{live_of}
use dynamic_extension.RangeScan.Results.{count, IsAscending}
use dynamic_extension.RangeScan.Range.{IteratorLaws, level_records, in_range, range_scan-content}
use dynamic_extension.KeySearch.Split.{Splits, lower_bound, lower_bound-Splits}
use dynamic_extension.Level.{Level}
use dynamic_extension.Shard.{all_records}
use dynamic_extension.Examples.Queue.{sorted_queue, sorted_queue-QueueLaws}
use dynamic_extension.Examples.Sort.{sort, sort-Perm, sort-IsOrdered}

abbrev entry : ℕ → ℕ → Wrapped
entry header key = record { header = header; rec = record { key = key; value = 0 } }

-- Two shards; the second erases a record of the first.
abbrev two_shards : List (Option (List Wrapped))
two_shards = some (entry 4 3 ∷ entry 4 7 ∷ []) ∷ some (entry 5 7 ∷ entry 4 9 ∷ []) ∷ []

sorted_array_merge-SameNet_example :
    (out : MergeInfo (List Record)) × (sorted_array_merge sorted_queue exact
        (build_cursor_vec two_shards)
        (some [])
      ≡ some out)
    × SameNet (arrays two_shards) out.buffer
    × Untagged out.buffer
    × (out.tombstone_count ≡ tombstones out.buffer)
unfolding all_records is_deleted
sorted_array_merge-SameNet_example =
    sorted_array_merge-SameNet sorted_queue sorted_queue-QueueLaws exact two_shards (some []) tt
      (refl, (refl, (refl, (refl, tt))))

sorted_array_merge-IsSorted_example :
    (out : MergeInfo (List Record)) × (sorted_array_merge sorted_queue exact
        (build_cursor_vec two_shards)
        (some [])
      ≡ some out)
    × IsSorted out.buffer
unfolding rec_lt
sorted_array_merge-IsSorted_example =
    sorted_array_merge-IsSorted sorted_queue sorted_queue-QueueLaws exact two_shards (some []) tt
      (((refl, tt), (tt, tt)), (((refl, tt), (tt, tt)), tt))

-- A buffer with a tombstone, and a shard.
abbrev buffer_records : List Wrapped
buffer_records = entry 5 7 ∷ entry 4 5 ∷ []

-- A shard is a sorted array, whose iterator starts at the lower bound.
abbrev Sorted : Type 0
Sorted = (ws : List Wrapped) × IsSorted ws

abbrev file : Sorted → List Wrapped
file s = s.0

abbrev get_iterator : Sorted → ℕ → Iterator
get_iterator s key = record { records = s.0; idx = lower_bound s.0 key; end = length s.0 }

get_iterator-IteratorLaws : IteratorLaws file get_iterator
get_iterator-IteratorLaws = record {
  sorted = λ s. s.1;
  records = λ s key. refl;
  end = λ s key. refl;
  start = λ s key.
      let split = lower_bound-Splits s.0 key s.1 in
      let same : lower_bound s.0 key ≡ min (lower_bound s.0 key) (length s.0) =
        ground (arith, split.0) in
      subst (Splits s.0 key) same split;
}

some_records-IsSorted : IsSorted (entry 4 2 ∷ entry 4 5 ∷ entry 4 7 ∷ entry 4 9 ∷ [])
unfolding rec_lt
some_records-IsSorted = ((refl, (refl, (refl, tt))), ((refl, (refl, tt)), ((refl, tt), (tt, tt))))

-- A level with one record below the range, and one above it.
abbrev one_level : List (Level Sorted)
one_level =
    record {
      level_no = 0;
      shard_cnt = 1;
      shards =
          some (entry 4 2 ∷ entry 4 5 ∷ entry 4 7 ∷ entry 4 9 ∷ [], some_records-IsSorted)
          ∷ none
          ∷ [];
      pending_shard = none;
    }
    ∷ []

abbrev five : Record
five = record { key = 5; value = 0 }

abbrev eight : Record
eight = record { key = 8; value = 0 }

range_scan-content_example :
    (s : RangeScanIterator) × (rs : List Record) × (range_scan 6 sort get_iterator five eight
        buffer_records one_level
      ≡ some s)
    × (results 6 6 s ≡ some rs)
    × IsAscending rs
    × ((r : Record)
        → count r rs
          ≡ sum_by (live_of r) (in_range file five eight buffer_records one_level)
            - sum_by (erasure_of r) (in_range file five eight buffer_records one_level))
unfolding buffer_range all_records level_records sum_by
range_scan-content_example =
    range_scan-content sort sort-Perm (λ ws. IsOrdered→IsSorted (sort ws) (sort-IsOrdered ws))
      get_iterator-IteratorLaws 6 five eight buffer_records one_level (tt, tt) (omega arith)
