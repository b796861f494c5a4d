-- ===== src/Structure/Compaction.antt =====
-- include/framework/structure/ExtensionStructure.h: the tombstone proportion of the levels, and the
-- compactions that are planned where it is too high.
use mathlib.Core.Option
use dynamic_extension.Base.{
  ℕ, zero, suc, ◌+◌, ◌-◌, ◌*◌, Bool, true, false, Option, none, some, List, [], ◌∷◌, ltb, leb,
  if◌then◌else◌, length,
}
use dynamic_extension.Shard.{ShardInterface}
use dynamic_extension.Level
use dynamic_extension.Level.{Level}
use dynamic_extension.Tasks.{ReconstructionVector, no_tasks, add_reconstruction}
use dynamic_extension.Structure.{
  LayoutPolicy, leveling, Structure, LevelState, calc_level_record_capacity, can_reconstruct_with,
  find_reconstruction_target, target_or_grow,
}
use dynamic_extension.Structure.Apply.{level_at}

-- `m_max_delete_prop` as a fraction; the code compares long doubles.
pub record Proportion : Type 0 where
  pub num : ℕ
  pub den : ℕ

module _ {S : Type 0} (I : ShardInterface S) (max_delete_prop : Proportion) (s : Structure S) where
  -- The overload for the level of index `i`.
  unfoldable pub level_in_proportion : Level S → ℕ → Bool
  level_in_proportion l i =
      leb (Level.get_tombstone_count I l * max_delete_prop.den)
        (max_delete_prop.num * calc_level_record_capacity s.buffer_size s.scale_factor i)

  -- The loop over the levels, from index `i` on.
  unfoldable pub validate_from : List (Level S) → ℕ → Bool
  validate_from [] i = true
  validate_from (l ∷ ls) i =
      let rest = validate_from ls (i + 1) in if level_in_proportion l i then rest else false

  unfoldable pub validate_tombstone_proportion : Bool
  validate_tombstone_proportion = validate_from s.levels 0

  -- The loop that looks for the first level to violate the invariant; `none` is the result -1.
  unfoldable pub violation_from : List (Level S) → ℕ → Option ℕ
  violation_from [] i = none
  violation_from (l ∷ ls) i =
      let rest = violation_from ls (i + 1) in if level_in_proportion l i then rest else some i

  -- The records of the task into level `i`. Under leveling it reads `m_levels[i]`, and a level that
  -- is grown in the scratch state only is not there: `none`.
  unfoldable pub compaction_reccnt : LayoutPolicy → List LevelState → ℕ → Option ℕ
  compaction_reccnt leveling scratch i =
      let reccnt = Level.get_record_count I (level_at s.levels (i - 1)) in
      if can_reconstruct_with leveling i reccnt scratch
      then if ltb i (length s.levels)
        then some (reccnt + Level.get_record_count I (level_at s.levels i))
        else none
      else some reccnt
  compaction_reccnt layout scratch i = some (Level.get_record_count I (level_at s.levels (i - 1)))

  -- `for (i = base; i > 0; i--)`. The source is `i - i`.
  unfoldable pub compaction_loop :
      LayoutPolicy → List LevelState → ℕ → ReconstructionVector → Option ReconstructionVector
  compaction_loop layout scratch zero tasks = some tasks
  compaction_loop layout scratch (suc i) tasks =
      Option.bind (compaction_reccnt layout scratch (suc i)) (λ reccnt.
        compaction_loop layout scratch i (add_reconstruction tasks (suc i - suc i) (suc i) reccnt))

  unfoldable pub compact_from : LayoutPolicy → ℕ → Option ReconstructionVector
  compact_from layout violation_idx =
      let (base, scratch) =
        target_or_grow layout s (find_reconstruction_target layout violation_idx s.current_state)
          s.current_state in
      compaction_loop layout scratch base no_tasks

  -- `none` is also the failed assertion that a level violates the invariant.
  unfoldable pub get_compaction_tasks : LayoutPolicy → Option ReconstructionVector
  get_compaction_tasks layout =
      let planned = Option.bind (violation_from s.levels 0) (compact_from layout) in
      if validate_tombstone_proportion then some no_tasks else planned
