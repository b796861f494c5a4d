-- ===== src/Merge.antt =====
-- include/util/SortedMerge.h: building the sorted array of a shard.
pub mod Scan
pub mod Array
pub mod Queue
pub mod Cursors
pub mod Heads
pub mod Refill
pub mod Rounds
pub mod Loop
pub mod Merged
pub mod Within
pub mod Disorder
pub mod Ordered
use mathlib.Core.Option
use dynamic_extension.Base.{
  ℕ, ◌+◌, Bool, true, false, not, ◌&&◌, Option, none, some, List, [], ◌∷◌, ◌++◌, bit_and,
  if◌then◌else◌,
}
use dynamic_extension.Bloom.{Bloom}
use dynamic_extension.Record.{Record, Wrapped, rec_eq, is_tombstone, is_deleted}

-- `merge_info` with the array that it counts; the record count is the length of `buffer`.
-- `bf` is the filter that the caller hands in, or null.
pub record MergeInfo (F : Type 0) : Type 0 where
  pub buffer : List Wrapped
  pub tombstone_count : ℕ
  pub bf : Option F

-- A record is followed by its own tombstone.
unfoldable pub cancels : Wrapped → Wrapped → Bool
cancels x y = not (is_tombstone x) && (rec_eq x.rec y.rec && is_tombstone y)

module _ {F : Type 0} (b : Bloom F) where
  unfoldable pub emit : MergeInfo F → Wrapped → MergeInfo F
  emit info w = record {
    buffer = info.buffer ++ (w ∷ []);
    tombstone_count = if is_tombstone w then info.tombstone_count + 1 else info.tombstone_count;
    bf = if is_tombstone w then Option.map (λ f. b.insert f w.rec) info.bf else info.bf;
  }

  -- The part of the loop behind the first test.
  unfoldable pub keep : MergeInfo F → Wrapped → MergeInfo F
  keep info w = if is_deleted w then info else emit info (record w { header = bit_and w.header 3 })

  unfoldable pub scan : MergeInfo F → List Wrapped → MergeInfo F
  scan info [] = info
  scan info (x ∷ []) = keep info x
  scan info (x ∷ y ∷ rest) = elim (cancels x y) [
    | true ↦ scan info rest
    | false ↦ scan (keep info x) (y ∷ rest)
  ]

  -- `sort` is std::sort by the order on wrapped records, `records` the copied buffer view.
  unfoldable pub sorted_array_from_bufferview :
      (List Wrapped → List Wrapped) → List Wrapped → Option F → MergeInfo F
  sorted_array_from_bufferview sort records bf =
      scan (record { buffer = []; tombstone_count = 0; bf = bf }) (sort records)
