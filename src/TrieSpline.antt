-- ===== src/TrieSpline.antt =====
-- include/shard/TrieSpline.h: a shard that is a sorted array under a spline. The spline is that of
-- the library ts: a parameter, with what its documentation says of `GetSearchBound` as `SplineLaws`.
pub mod Built
pub mod Merged
pub mod Lookup
use mathlib.Core.Option
use dynamic_extension.Base.{
  ℕ, ◌+◌, ◌-◌, ◌<◌, ◌≤◌, Option, none, some, List, [], ◌∷◌, map, ltb, leb, ◌==◌, true, false,
  length, get_elem?, if◌then◌else◌, Bool, not, ◌&&◌,
}
use dynamic_extension.Bloom.{Bloom}
use dynamic_extension.Record.{Record, Wrapped}
use dynamic_extension.Merge.{MergeInfo, sorted_array_from_bufferview}
use dynamic_extension.Merge.Array.{All, IsSorted}
use dynamic_extension.Merge.Queue.{PriorityQueue}
use dynamic_extension.Merge.Cursors.{build_cursor_vec, sorted_array_merge}
use dynamic_extension.KeySearch.{Bound, linear, search_window, previous_fits, walk}
use dynamic_extension.KeySearch.Split.{Splits}

-- ts::TrieSpline and its builder. `build` is the builder's constructor, with the least and the
-- greatest key, AddKey for each key and Finalize; `empty` is a spline that was never finalised.
pub record Spline (X : Type 0) : Type 0 where
  pub empty : X
  pub build : ℕ → ℕ → List ℕ → X
  pub search : X → ℕ → Bound

abbrev pub keys_of : List Wrapped → List ℕ
keys_of = map (λ w. w.rec.key)

-- The keys lie between `lo` and `hi`.
abbrev pub Within : (lo hi : ℕ) → List Wrapped → Type 0
Within lo hi ws = All (λ w. (lo ≤ w.rec.key) × (w.rec.key ≤ hi)) ws

-- The window of a spline that was built over sorted keys, one at least, and all in the builder's
-- range, holds the lower bound of every key, and lies in the array.
pub record SplineLaws {X : Type 0} (I : Spline X) : Type 0 where
  pub window :
      (lo hi : ℕ) (ws : List Wrapped) (key r : ℕ)
      → IsSorted ws
      → 0 < length ws
      → Within lo hi ws
      → Splits ws key r
      → ((I.search (I.build lo hi (keys_of ws)) key).lo ≤ r)
        × (r ≤ (I.search (I.build lo hi (keys_of ws)) key).hi)
        × ((I.search (I.build lo hi (keys_of ws)) key).hi ≤ length ws)

-- `m_reccnt` is the length of the array. The filter `m_bf` is null in both constructors.
pub record TrieSpline (X : Type 0) : Type 0 where
  pub records : List Wrapped
  pub tombstone_cnt : ℕ
  pub max_key : ℕ
  pub min_key : ℕ
  pub ts : X

-- `if (key < m_min_key) m_min_key = key`, along the records that are written.
unfoldable pub lowest : ℕ → List Wrapped → ℕ
lowest m [] = m
lowest m (w ∷ ws) = lowest (if ltb w.rec.key m then w.rec.key else m) ws

unfoldable pub highest : ℕ → List Wrapped → ℕ
highest m [] = m
highest m (w ∷ ws) = highest (if ltb m w.rec.key then w.rec.key else m) ws

-- The key of the last record of an array that begins with a record of key `key`.
unfoldable pub last_key : ℕ → List Wrapped → ℕ
last_key key [] = key
last_key key (w ∷ ws) = last_key w.rec.key ws

-- The greatest and the least key of the shards, which are read through their pointers.
unfoldable pub max_of : {X : Type 0} → ℕ → List (Option (TrieSpline X)) → Option ℕ
max_of m [] = some m
max_of m (none ∷ shards) = none
max_of m (some t ∷ shards) = max_of (if ltb m t.max_key then t.max_key else m) shards

unfoldable pub min_of : {X : Type 0} → ℕ → List (Option (TrieSpline X)) → Option ℕ
min_of m [] = some m
min_of m (none ∷ shards) = none
min_of m (some t ∷ shards) = min_of (if ltb t.min_key m then t.min_key else m) shards

module _ {X : Type 0} (I : Spline X) where
  -- The end of both constructors, with the builder's range.
  unfoldable pub from_info : {F : Type 0} → (lo hi : ℕ) → MergeInfo F → TrieSpline X
  from_info lo hi info = record {
    records = info.buffer;
    tombstone_cnt = info.tombstone_count;
    max_key = highest lo info.buffer;
    min_key = lowest hi info.buffer;
    ts = if ltb 50 (length info.buffer) then I.build lo hi (keys_of info.buffer) else I.empty;
  }

  unfoldable pub from_sorted : {F : Type 0} → MergeInfo F → List Wrapped → Option (TrieSpline X)
  from_sorted info [] = none
  from_sorted info (w ∷ ws) = some (from_info w.rec.key (last_key w.rec.key ws) info)

  -- The constructor from a buffer repeats the loop of SortedMerge.h over the sorted records, whose
  -- first and last key are the builder's range. `none` is the read of the first of no records.
  unfoldable pub of_view :
      {F : Type 0} → Bloom F → (List Wrapped → List Wrapped) → List Wrapped → Option (TrieSpline X)
  of_view b sort view = from_sorted (sorted_array_from_bufferview b sort view none) (sort view)

  -- The constructor from shards repeats the merge. `none` is a read of a shard that is not there,
  -- or outside of an array.
  unfoldable pub of_shards :
      {Q F : Type 0}
      → PriorityQueue Q
      → Bloom F
      → List (Option (TrieSpline X))
      → Option (TrieSpline X)
  of_shards P b [] = none
  of_shards P b (none ∷ shards) = none
  of_shards P b (some t ∷ shards) =
      let cursors = build_cursor_vec (map (Option.map (λ t. t.records)) (some t ∷ shards)) in
      Option.bind (max_of t.max_key (some t ∷ shards)) (λ hi.
        Option.bind (min_of t.min_key (some t ∷ shards))
          (λ lo. Option.map (from_info lo hi) (sorted_array_merge P b cursors none)))

unfoldable pub get_record_count : {X : Type 0} → TrieSpline X → ℕ
get_record_count t = length t.records

unfoldable pub get_tombstone_count : {X : Type 0} → TrieSpline X → ℕ
get_tombstone_count t = t.tombstone_cnt

unfoldable pub get_record_at : {X : Type 0} → TrieSpline X → ℕ → Option Wrapped
get_record_at t idx = if leb (length t.records) idx then none else get_elem? t.records idx

-- The end of `get_lower_bound`: a step back to a record whose key is not above `key`.
unfoldable pub settle : List Wrapped → ℕ → ℕ → Option ℕ
settle ws key idx =
    let adjusted = Option.bind (get_elem? ws idx) (λ w.
      Option.map (λ back. if back then idx - 1 else idx)
        (if ltb key w.rec.key then previous_fits ws key idx else some false)) in
    if idx == length ws then some (length ws) else adjusted

-- `get_lower_bound` of 50 records or more, from what the spline predicts.
unfoldable pub bound_within : List Wrapped → ℕ → Bound → Option ℕ
bound_within ws key bound =
    let found = Option.bind (search_window ws key bound) (settle ws key) in
    if leb (length ws) bound.lo then some (length ws) else found

module _ {X : Type 0} (I : Spline X) (t : TrieSpline X) where
  -- A short array is read from the front.
  unfoldable pub get_lower_bound : ℕ → Option ℕ
  get_lower_bound key =
      if ltb (length t.records) 50
      then linear t.records key (length t.records) 0
      else bound_within t.records key (I.search t.ts key)

  -- `some none` is a null pointer. The null filter is not asked.
  unfoldable pub point_lookup : Record → Option (Option ℕ)
  point_lookup rec = Option.bind (get_lower_bound rec.key) (λ idx.
      let walked = walk t.records rec (length t.records - idx) idx in
      if leb (length t.records) idx then some none else walked)
