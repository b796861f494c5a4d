-- ===== src/Shard.antt =====
-- include/framework/interface/Shard.h: the interface of a shard, the static structure that the
-- framework dynamizes. The framework's code is generic in it.
use dynamic_extension.Base.{ℕ, ◌<◌, ◌≡◌, Bool, Option, none, some, List, [], ◌∷◌, ◌++◌, length}
use dynamic_extension.Record.{Record, Wrapped}
use dynamic_extension.Record.Net.{SameNet}
use dynamic_extension.Merge.Scan.{Untagged}

-- The operations. Both constructors copy their input. `of_shards` takes pointers; `none` is a read
-- through a null pointer, or of a record that is not there. The last argument of `point_lookup` is
-- whether a buffer for a page is handed in. `tag` is what `point_lookup(rec, false)->set_delete()`
-- does to a shard that has the record.
pub record ShardInterface (S : Type 0) : Type 0 where
  pub of_view : List Wrapped → S
  pub of_shards : List (Option S) → Option S
  pub point_lookup : S → Record → Bool → Bool → Option Wrapped
  pub tag : S → Record → S
  pub get_record_count : S → ℕ
  pub get_tombstone_count : S → ℕ
  pub get_memory_usage : S → ℕ
  pub get_aux_memory_usage : S → ℕ

-- The records of a vector of shard pointers.
unfoldable pub all_records {ℓ} : {S : Type ℓ} → (S → List Wrapped) → List (Option S) → List Wrapped
all_records contents [] = []
all_records contents (none ∷ ss) = all_records contents ss
all_records contents (some s ∷ ss) = contents s ++ all_records contents ss

-- No pointer is null, and every shard has a record.
abbrev pub AllLive {ℓ} : {S : Type ℓ} → (S → List Wrapped) → List (Option S) → Type 0
AllLive contents [] = Unit
AllLive contents (none ∷ ss) = ⊥
AllLive contents (some s ∷ ss) = (0 < length (contents s)) × AllLive contents ss

-- What the framework relies on: a shard is a set of records, construction keeps the net content
-- of records without delete tags, and the count is that of the records. Shards are merged if there
-- is one, and none of them is null or empty.
pub record ShardLaws {S : Type 0} (I : ShardInterface S) : Type 0 where
  pub contents : S → List Wrapped
  pub of_view-SameNet : (ws : List Wrapped) → Untagged ws → SameNet ws (contents (I.of_view ws))
  pub of_view-Untagged : (ws : List Wrapped) → Untagged ws → Untagged (contents (I.of_view ws))
  pub of_shards-SameNet :
      (ss : List (Option S))
      → AllLive contents ss
      → 0 < length ss
      → Untagged (all_records contents ss)
      → (s : S) × (I.of_shards ss ≡ some s)
        × SameNet (all_records contents ss) (contents s)
        × Untagged (contents s)
  pub count_lem : (s : S) → I.get_record_count s ≡ length (contents s)
