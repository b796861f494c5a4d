-- ===== src/Checkpoint.antt =====
-- include/framework/structure/Checkpoint.h: the levels by the file names of their shards, written to a
-- file and read back. A file name is a number, and the key of a level is its index, which std::stoi
-- reads back from what std::to_string wrote. nlohmann::json is a library: a parameter gives the order
-- in which it visits the keys of an object. System calls succeed; `none` is a read through a null
-- shard pointer.
pub mod Names
pub mod Restart
pub mod Room
use mathlib.Core.Option
use dynamic_extension.Base.{
  ℕ, zero, suc, ◌+◌, ◌-◌, ◌≡◌, Bool, true, false, ◌||◌, ◌==◌, Option, none, some, List, [], ◌∷◌,
  ◌++◌, if◌then◌else◌, length, set, get_or, replicate,
}
use dynamic_extension.Shard.{ShardInterface}
use dynamic_extension.Level.{Level, make_level, get_shard, get_shard_count, get_record_count}
use dynamic_extension.Structure.{
  LayoutPolicy, LevelState, shard_capacity, calc_level_record_capacity,
}

-- An entry for each level: its index and the files of its shards.
abbrev pub LevelEntry : Type 0
LevelEntry = ℕ × List ℕ

pub record CheckpointFile : Type 0 where
  pub flush_seq : ℕ
  pub entries : List LevelEntry

-- The checkpoint, the temporary one, and the two directories of shards.
pub record Disk : Type 0 where
  pub checkpoint : Option CheckpointFile
  pub checkpoint_tmp : Option CheckpointFile
  pub shard_dir : List ℕ
  pub temp_shard_dir : List ℕ

unfoldable pub write_tmp : CheckpointFile → Disk → Disk
write_tmp file disk = record disk { checkpoint_tmp = some file }

unfoldable pub rename_tmp : Disk → Disk
rename_tmp disk = elim disk.checkpoint_tmp [
  | none ↦ disk
  | some file ↦ record disk { checkpoint = some file; checkpoint_tmp = none }
]

module _ {S : Type 0} (get_filename : S → ℕ) where
  -- The inner loop, from shard `k`, by the shards that are left.
  unfoldable pub file_names : Level S → ℕ → ℕ → Option (List ℕ)
  file_names l zero k = some []
  file_names l (suc n) k =
      Option.bind (get_shard l k)
        (λ shard. Option.map (λ names. get_filename shard ∷ names) (file_names l n (k + 1)))

  unfoldable pub level_entries : ℕ → List (Level S) → Option (List LevelEntry)
  level_entries i [] = some []
  level_entries i (l ∷ ls) =
      Option.bind (file_names l (get_shard_count l) 0)
        (λ names. Option.map (λ entries. (i, names) ∷ entries) (level_entries (i + 1) ls))

  unfoldable pub save_checkpoint : List (Level S) → ℕ → Disk → Option Disk
  save_checkpoint levels flush_seq disk =
      Option.map
        (λ entries.
          rename_tmp (write_tmp (record { flush_seq = flush_seq; entries = entries }) disk))
        (level_entries 0 levels)

module _ {S : Type 0} (open_shard : ℕ → S) where
  -- InternalLevel.h: the shard of a file goes to the next slot.
  unfoldable pub append_shard : Level S → ℕ → Level S
  append_shard l name = record l {
    shards = set l.shards l.shard_cnt (some (open_shard name));
    shard_cnt = l.shard_cnt + 1;
  }

  unfoldable pub append_shards : Level S → List ℕ → Level S
  append_shards l [] = l
  append_shards l (name ∷ names) = append_shards (append_shard l name) names

  -- `while (levels.size() <= level)`
  unfoldable pub pad : List (Option (Level S)) → ℕ → List (Option (Level S))
  pad levels level = levels ++ replicate (level + 1 - length levels) none

  unfoldable pub load_entry : List (Option (Level S)) → LevelEntry → List (Option (Level S))
  load_entry levels (level, names) =
      set (pad levels level) level (some (append_shards (make_level level (length names)) names))

  unfoldable pub load_entries : List (Option (Level S)) → List LevelEntry → List (Option (Level S))
  load_entries levels [] = levels
  load_entries levels (entry ∷ entries) = load_entries (load_entry levels entry) entries

unfoldable pub is_listed : ℕ → List ℕ → Bool
is_listed name [] = false
is_listed name (x ∷ xs) = name == x || is_listed name xs

unfoldable pub all_listed : List LevelEntry → List ℕ
all_listed [] = []
all_listed ((level, names) ∷ entries) = names ++ all_listed entries

unfoldable pub remove_unlisted : List ℕ → List ℕ → List ℕ
remove_unlisted listed [] = []
remove_unlisted listed (name ∷ names) =
    let rest = remove_unlisted listed names in if is_listed name listed then name ∷ rest else rest

-- `items` is the order in which the entries of an object are visited.
module _ {S : Type 0} (open_shard : ℕ → S) (items : List LevelEntry → List LevelEntry) where
  unfoldable pub load_checkpoint :
      Disk → List (Option (Level S)) → ℕ → List (Option (Level S)) × ℕ × Disk
  load_checkpoint disk levels flush_seq = elim disk.checkpoint [
    | none ↦ (levels, flush_seq, disk)
    | some file ↦ (
      load_entries open_shard levels (items file.entries),
      file.flush_seq,
      record disk {
        shard_dir = remove_unlisted (all_listed (items file.entries)) disk.shard_dir;
        temp_shard_dir = [];
      },
    )
  ]

-- ExtensionStructure.h: the state that the constructor gives the levels it has loaded.
module _ {S : Type 0} (I : ShardInterface S) (layout : LayoutPolicy)
    (buffer_size scale_factor : ℕ) where
  unfoldable pub loaded_state : ℕ → List (Option (Level S)) → List LevelState
  loaded_state i [] = []
  loaded_state i (none ∷ levels) =
      record {
        reccnt = 0;
        reccap = calc_level_record_capacity buffer_size scale_factor i;
        shardcnt = 0;
        shardcap = shard_capacity layout scale_factor;
      }
      ∷ loaded_state (i + 1) levels
  loaded_state i (some l ∷ levels) =
      record {
        reccnt = get_record_count I l;
        reccap = calc_level_record_capacity buffer_size scale_factor i;
        shardcnt = get_shard_count l;
        shardcap = shard_capacity layout scale_factor;
      }
      ∷ loaded_state (i + 1) levels
