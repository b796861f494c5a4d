-- ===== src/Pgm.antt =====
-- include/shard/PGM.h: a shard that is a sorted array under a learned index. The index is that of
-- pgm::PGMIndex, a library: a parameter, with what its documentation says of `search` as `PgmLaws`.
pub mod LowerBound
pub mod Lookup
use mathlib.Core.Option
use dynamic_extension.Base.{
  ℕ, ◌+◌, ◌-◌, ◌<◌, ◌≤◌, Option, none, some, List, map, true, false, ltb, leb, ◌==◌, length,
  get_elem?, if◌then◌else◌,
}
use dynamic_extension.Bloom.{Bloom}
use dynamic_extension.Record.{Record, Wrapped}
use dynamic_extension.Merge.{MergeInfo, sorted_array_from_bufferview}
use dynamic_extension.Merge.Array.{IsSorted}
use dynamic_extension.Merge.Queue.{PriorityQueue}
use dynamic_extension.Merge.Cursors.{build_cursor_vec, sorted_array_merge}
use dynamic_extension.KeySearch.{Bound, search_window, previous_fits, walk}
use dynamic_extension.KeySearch.Split.{Splits}

-- pgm::PGMIndex. `empty` is the index that the default constructor makes.
pub record PgmIndex (X : Type 0) : Type 0 where
  pub empty : X
  pub build : List ℕ → X
  pub search : X → ℕ → Bound

abbrev pub keys_of : List Wrapped → List ℕ
keys_of = map (λ w. w.rec.key)

-- The window of an index that was built over sorted keys, one at least, holds the lower bound of
-- every key, and lies in the array.
pub record PgmLaws {X : Type 0} (I : PgmIndex X) : Type 0 where
  pub window :
      (ws : List Wrapped) (key r : ℕ)
      → IsSorted ws
      → 0 < length ws
      → Splits ws key r
      → ((I.search (I.build (keys_of ws)) key).lo ≤ r)
        × (r ≤ (I.search (I.build (keys_of ws)) key).hi)
        × ((I.search (I.build (keys_of ws)) key).hi ≤ length ws)

-- `m_reccnt` is the length of the array. The filter `m_bf` is null in both constructors.
pub record Pgm (X : Type 0) : Type 0 where
  pub records : List Wrapped
  pub tombstone_cnt : ℕ
  pub pgm : X

module _ {X : Type 0} (I : PgmIndex X) where
  -- The end of both constructors: an index over the keys, in the order they were written.
  unfoldable pub from_info : {F : Type 0} → MergeInfo F → Pgm X
  from_info info = record {
    records = info.buffer;
    tombstone_cnt = info.tombstone_count;
    pgm = if ltb 0 (length info.buffer) then I.build (keys_of info.buffer) else I.empty;
  }

  -- The constructor from a buffer repeats the loop of SortedMerge.h over the sorted records.
  unfoldable pub of_view :
      {F : Type 0} → Bloom F → (List Wrapped → List Wrapped) → List Wrapped → Pgm X
  of_view b sort view = from_info (sorted_array_from_bufferview b sort view none)

  -- So does the constructor from shards with the merge. `none` is a read outside of an array.
  unfoldable pub of_shards :
      {Q F : Type 0} → PriorityQueue Q → Bloom F → List (Option (Pgm X)) → Option (Pgm X)
  of_shards P b shards =
      Option.map from_info
        (sorted_array_merge P b (build_cursor_vec (map (Option.map (λ t. t.records)) shards)) none)

unfoldable pub get_record_count : {X : Type 0} → Pgm X → ℕ
get_record_count t = length t.records

unfoldable pub get_tombstone_count : {X : Type 0} → Pgm X → ℕ
get_tombstone_count t = t.tombstone_cnt

unfoldable pub get_record_at : {X : Type 0} → Pgm X → ℕ → Option Wrapped
get_record_at t idx = if leb (length t.records) idx then none else get_elem? t.records idx

-- The end of `get_lower_bound`: a step back to a record whose key is not above `key`.
unfoldable pub settle : List Wrapped → ℕ → ℕ → Option ℕ
settle ws key idx =
    let adjusted = Option.bind (get_elem? ws idx) (λ w.
      Option.map (λ back. if back then idx - 1 else if leb key w.rec.key then idx else length ws)
        (if ltb key w.rec.key then previous_fits ws key idx else some false)) in
    if idx == length ws then some idx else adjusted

-- `get_lower_bound`, from what the index predicts.
unfoldable pub bound_within : List Wrapped → ℕ → Bound → Option ℕ
bound_within ws key bound =
    let found = Option.bind (search_window ws key bound) (settle ws key) in
    if leb (length ws) bound.lo then some (length ws) else found

module _ {X : Type 0} (I : PgmIndex X) (t : Pgm X) where
  unfoldable pub get_lower_bound : ℕ → Option ℕ
  get_lower_bound key = bound_within t.records key (I.search t.pgm key)

  -- `some none` is a null pointer. The filter is not asked.
  unfoldable pub point_lookup : Record → Option (Option ℕ)
  point_lookup rec = Option.bind (get_lower_bound rec.key) (λ idx.
      let walked = walk t.records rec (length t.records - idx) idx in
      if leb (length t.records) idx then some none else walked)
