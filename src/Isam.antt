-- ===== src/Isam.antt =====
-- include/shard/ISAMTree.h: a shard that is a sorted array. The internal nodes above it are in Isam.Nodes.
pub mod Built
pub mod Nodes
pub mod Descent
pub mod Levels
pub mod Climb
pub mod Search
pub mod Laws
use mathlib.Core.Option
use dynamic_extension.Base.{ℕ, Option, none, some, List, [], ◌∷◌, map, length, get_elem?}
use dynamic_extension.Bloom.{Bloom}
use dynamic_extension.Record.{Wrapped}
use dynamic_extension.Merge.{MergeInfo, sorted_array_from_bufferview}
use dynamic_extension.Merge.Queue.{PriorityQueue}
use dynamic_extension.Merge.Cursors.{build_cursor_vec, sorted_array_merge}

-- `m_reccnt` is the length of the array. The filter is null in both constructors.
pub record IsamTree : Type 0 where
  pub records : List Wrapped
  pub tombstone_cnt : ℕ

abbrev pub from_info : {F : Type 0} → MergeInfo F → IsamTree
from_info info = record { records = info.buffer; tombstone_cnt = info.tombstone_count }

-- The constructors, up to the internal levels. `sort` is std::sort, `view` the records of the buffer.
unfoldable pub of_view :
    {F : Type 0} → Bloom F → (List Wrapped → List Wrapped) → List Wrapped → IsamTree
of_view b sort view = from_info (sorted_array_from_bufferview b sort view none)

-- `none` is a read outside of an array.
unfoldable pub of_shards :
    {Q F : Type 0} → PriorityQueue Q → Bloom F → List (Option IsamTree) → Option IsamTree
of_shards P b shards =
    Option.map from_info
      (sorted_array_merge P b (build_cursor_vec (map (Option.map (λ t. t.records)) shards)) none)

unfoldable pub get_record_count : IsamTree → ℕ
get_record_count t = length t.records

unfoldable pub get_tombstone_count : IsamTree → ℕ
get_tombstone_count t = t.tombstone_cnt

unfoldable pub get_record_at : IsamTree → ℕ → Option Wrapped
get_record_at t idx = get_elem? t.records idx
