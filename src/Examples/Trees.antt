-- ===== src/Examples/Trees.antt =====
-- Structures of ISAM shards at concrete inputs, under leveling, with merges.
use dynamic_extension.Base.{ℕ, ◌≡◌, inl, refl, List, [], ◌∷◌, none, some, arith}
use dynamic_extension.Bloom.{exact}
use dynamic_extension.Record.{Record, Wrapped, is_deleted}
use dynamic_extension.Merge
use dynamic_extension.Shard.{ShardInterface, ShardLaws, all_records}
use dynamic_extension.Level.{Level}
use dynamic_extension.Level.Contents.{records}
use dynamic_extension.Structure.{leveling, Structure}
use dynamic_extension.Structure.Apply.{ensure_level, reconstruction}
use dynamic_extension.Structure.Net.{SameLevels, AllWell, reconstruction-SameLevels}
use dynamic_extension.Isam
use dynamic_extension.Isam.{IsamTree}
use dynamic_extension.Isam.Laws.{isam_shards, isam_laws}
use dynamic_extension.Examples.Levels.{entry, state}
use dynamic_extension.Examples.Queue.{sorted_queue, sorted_queue-QueueLaws}
use dynamic_extension.Examples.Sort.{sort, sort-Perm, sort-IsOrdered}

abbrev trees : ShardInterface IsamTree
trees = isam_shards sorted_queue exact sort 4 4 64

abbrev tree_laws : ShardLaws trees
tree_laws = isam_laws sorted_queue sorted_queue-QueueLaws exact sort sort-Perm sort-IsOrdered 4 4 64

-- A level of one shard.
abbrev one_tree : ℕ → List Wrapped → Level IsamTree
one_tree level_no ws = record {
  level_no = level_no;
  shard_cnt = 1;
  shards = some (record { records = ws; tombstone_cnt = 0 }) ∷ [];
  pending_shard = none;
}

abbrev leveled : Structure IsamTree
leveled = record {
  scale_factor = 3;
  buffer_size = 2;
  flush_seq = 0;
  refcnt = 1;
  levels = one_tree 0 (entry 4 3 ∷ entry 4 7 ∷ []) ∷ one_tree 1 (entry 4 2 ∷ entry 4 9 ∷ []) ∷ [];
  current_state = state 1 2 ∷ state 1 2 ∷ [];
}

leveled-AllWell : AllWell tree_laws leveled.levels
unfolding records all_records is_deleted
leveled-AllWell = (
  record { filled = tt; settled = refl; clean = (refl, (refl, tt)) },
  (record { filled = tt; settled = refl; clean = (refl, (refl, tt)) }, tt),
)

reconstruction-SameLevels_example :
    (s' : Structure IsamTree) × (reconstruction trees leveling leveled 1 0 ≡ some s')
    × SameLevels tree_laws leveled.levels s'.levels
    × AllWell tree_laws s'.levels
unfolding ensure_level
reconstruction-SameLevels_example =
    reconstruction-SameLevels tree_laws leveling leveled 1 0 (omega arith) (omega arith)
      (omega arith) leveled-AllWell
      (refl, refl, inl (omega arith), λ p. ((omega arith, (omega arith, tt)), omega arith))
