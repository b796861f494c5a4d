-- ===== src/Examples/Checkpoints.antt =====
-- Checkpoints at concrete inputs. A shard is its file's number.
use mathlib.Core.Option
use dynamic_extension.Base.{
  ℕ, ◌+◌, ◌≡◌, refl, true, none, some, List, [], ◌∷◌, arith, get_or, get_elem?, length,
}
use dynamic_extension.Record.{Wrapped}
use dynamic_extension.Level.{Level, append_buffer, clone}
use dynamic_extension.Level.Contents.{records}
use dynamic_extension.Structure.{teiring, can_reconstruct_with}
use dynamic_extension.Checkpoint.{LevelEntry, Disk, save_checkpoint, load_checkpoint, loaded_state}
use dynamic_extension.Checkpoint.Restart.{
  ItemsLaws, reloaded, reopened, load_checkpoint-save_checkpoint,
}
use dynamic_extension.Checkpoint.Room.{append_buffer-reloaded}
use dynamic_extension.Examples.Levels.{lists, laws, upper, entry}

abbrev in_order : List LevelEntry → List LevelEntry
in_order entries = entries

in_order-ItemsLaws : ItemsLaws in_order
in_order-ItemsLaws = record { items-find = λ entries i d. refl; items-AreDistinct = λ entries d. d }

abbrev number : ℕ → ℕ
number n = n

-- What opening a file gives need not be the shard that was written.
abbrev open_next : ℕ → ℕ
open_next n = n + 100

-- Two levels, of which the second has a free slot.
abbrev two_levels : List (Level ℕ)
two_levels =
    record { level_no = 0; shard_cnt = 1; shards = some 31 ∷ []; pending_shard = none }
    ∷ record { level_no = 1; shard_cnt = 1; shards = some 32 ∷ none ∷ []; pending_shard = none }
    ∷ []

abbrev empty_disk : Disk
empty_disk = record {
  checkpoint = none;
  checkpoint_tmp = none;
  shard_dir = 31 ∷ 32 ∷ 33 ∷ [];
  temp_shard_dir = 34 ∷ [];
}

load_checkpoint-save_checkpoint_example :
    (disk' : Disk) × (save_checkpoint number two_levels 5 empty_disk ≡ some disk')
    × ((i : ℕ)
        → get_or (load_checkpoint open_next in_order disk' [] 0).0 i none
          ≡ Option.map (reloaded (reopened number open_next) i) (get_elem? two_levels i))
    × ((load_checkpoint open_next in_order disk' [] 0).1 ≡ 5)
    × ((load_checkpoint open_next in_order disk' [] 0).2.temp_shard_dir ≡ [])
load_checkpoint-save_checkpoint_example =
    load_checkpoint-save_checkpoint number open_next in_order in_order-ItemsLaws two_levels 5 0
      empty_disk (tt, (tt, tt))

append_buffer-reloaded_example :
    (l' : Level (List Wrapped)) × (can_reconstruct_with teiring 0
        (length (entry 4 1 ∷ []))
        (loaded_state lists teiring 4 3 0 (some (reloaded (λ s. s) 0 upper) ∷ []))
      ≡ true)
    × (append_buffer lists (reloaded (λ s. s) 0 upper) (entry 4 1 ∷ []) ≡ some l')
    × (records laws l' ≡ records laws (reloaded (λ s. s) 0 upper))
    × (clone l' ≡ reloaded (λ s. s) 0 upper)
append_buffer-reloaded_example =
    append_buffer-reloaded laws upper [] 4 3 (entry 4 1 ∷ []) (λ s. s) tt (omega arith)
