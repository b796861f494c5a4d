-- ===== src/Structure/Apply.antt =====
-- The operations of ExtensionStructure.h that change the levels. `save_checkpoint` only writes to
-- a file and is left out. `none` is a failed assertion.
use mathlib.Core.Option
use dynamic_extension.Base.{
  ℕ, ◌+◌, ◌-◌, Bool, true, false, Option, none, some, List, [], ◌∷◌, ◌++◌, ltb, leb, ◌==◌,
  if◌then◌else◌, length, get_or, set,
}
use dynamic_extension.Record.{Record, Wrapped}
use dynamic_extension.Shard.{ShardInterface}
use dynamic_extension.Level.{
  Level, make_level, get_shard_count, get_record_count, get_tombstone_count, finalize, clone,
}
use dynamic_extension.Level
use dynamic_extension.Tasks.{ReconstructionTask}
use dynamic_extension.Structure.{
  LayoutPolicy, leveling, teiring, bsm, LevelState, Structure, shard_capacity, grow,
  calc_level_record_capacity, can_reconstruct_with, state_at,
}

-- `m_levels[idx]`; the code reads it in range only.
abbrev pub level_at : {S : Type 0} → List (Level S) → ℕ → Level S
level_at levels idx = get_or levels idx (make_level 0 0)

module _ {S : Type 0} (I : ShardInterface S) where
  -- The capacity of level `idx`.
  abbrev pub capacity : Structure S → ℕ → ℕ
  capacity s idx = calc_level_record_capacity s.buffer_size s.scale_factor idx

  abbrev pub fresh_state : LayoutPolicy → Structure S → ℕ → LevelState
  fresh_state layout s idx = record {
    reccnt = 0;
    reccap = capacity s idx;
    shardcnt = 0;
    shardcap = shard_capacity layout s.scale_factor;
  }

  -- The level at `base` after the incoming level has gone into it.
  unfoldable pub combine_levels : LayoutPolicy → Level S → Level S → Option (Level S)
  combine_levels leveling base incoming =
      if ltb 0 (get_shard_count base) then Level.reconstruction I base incoming else some incoming
  combine_levels teiring base incoming = Option.map finalize (Level.append_level I base incoming)
  combine_levels bsm base incoming = Option.map finalize (Level.append_level I base incoming)

  -- The first block of the two-level `reconstruction`: a level at the bottom, if there is none.
  unfoldable pub ensure_level : LayoutPolicy → Structure S → ℕ → Structure S
  ensure_level layout s base =
      if leb (length s.levels) base
      then record s {
        levels = s.levels ++ make_level base (shard_capacity layout s.scale_factor) ∷ [];
        current_state = s.current_state ++ fresh_state layout s base ∷ [];
      }
      else s

  -- The rest of it, with the combined level.
  unfoldable pub install : LayoutPolicy → Structure S → ℕ → ℕ → Level S → Structure S
  install layout s base incoming combined = record s {
    levels =
        set (set s.levels base combined) incoming
          (make_level incoming (shard_capacity layout s.scale_factor));
    current_state =
        set
          (set s.current_state base (record {
            reccnt = get_record_count I combined;
            reccap = capacity s base;
            shardcnt = get_shard_count combined;
            shardcap = shard_capacity layout s.scale_factor;
          }))
          incoming (fresh_state layout s incoming);
  }

  unfoldable pub reconstruction : LayoutPolicy → Structure S → ℕ → ℕ → Option (Structure S)
  reconstruction layout s base incoming =
      let s' = ensure_level layout s base in
      Option.map (install layout s' base incoming)
        (combine_levels layout (level_at s'.levels base) (level_at s'.levels incoming))

  -- The calls that the framework's reconstruction job makes for its tasks, in their order.
  unfoldable pub run_tasks :
      LayoutPolicy → Structure S → List ReconstructionTask → Option (Structure S)
  run_tasks layout s [] = some s
  run_tasks layout s (t ∷ ts) =
      Option.bind (reconstruction layout s t.target (get_or t.sources 0 0))
        (λ s'. run_tasks layout s' ts)

  abbrev pub pick : List (Level S) → List ℕ → List (Level S)
  pick levels [] = []
  pick levels (i ∷ is) = level_at levels i ∷ pick levels is

  -- The last loop of the BSM form: each source becomes an empty level. Its capacity entry is that
  -- of the target.
  unfoldable pub clear_sources : Structure S → ℕ → List ℕ → Structure S
  clear_sources s target [] = s
  clear_sources s target (i ∷ is) =
      clear_sources
        (record s {
          levels = set s.levels i (make_level i 1);
          current_state =
              set s.current_state i
                (record { reccnt = 0; reccap = capacity s target; shardcnt = 0; shardcap = 1 });
        })
        target is

  unfoldable pub place_level : Structure S → ℕ → Level S → Structure S
  place_level s target l =
      let st : LevelState = record {
        reccnt = get_record_count I l;
        reccap = capacity s target;
        shardcnt = 1;
        shardcap = 1;
      } in
      if leb (length s.levels) target
      then record s { levels = s.levels ++ l ∷ []; current_state = s.current_state ++ st ∷ [] }
      else record s {
        levels = set s.levels target l;
        current_state = set s.current_state target st;
      }

  unfoldable pub reconstruction_bsm : Structure S → ReconstructionTask → Option (Structure S)
  reconstruction_bsm s task =
      Option.map (λ l. clear_sources (place_level s task.target l) task.target task.sources)
        (Level.reconstruction_all I (pick s.levels task.sources) task.target)

  -- Level 0 after a flush of `records`.
  unfoldable pub flush_level : LayoutPolicy → Level S → List Wrapped → Option (Level S)
  flush_level leveling old records =
      Option.bind (Level.append_buffer I (make_level 0 1) records)
        (λ temp. if ltb 0 (get_shard_count old) then Level.reconstruction I old temp else some temp)
  flush_level teiring old records = Level.append_buffer I old records
  flush_level bsm old records = Level.append_buffer I old records

  unfoldable pub install_l0 : Structure S → Level S → Structure S
  install_l0 s l = record s {
    levels = set s.levels 0 l;
    current_state = set s.current_state 0 (record (state_at s.current_state 0) {
      reccnt = get_record_count I l;
      shardcnt = get_shard_count l;
    });
  }

  unfoldable pub flush_buffer_into_l0 :
      LayoutPolicy → Structure S → List Wrapped → Option (Structure S)
  flush_buffer_into_l0 layout s records =
      let s' = (if length s.levels == 0 then ensure_level layout s 0 else s) in
      Option.map (install_l0 s') (flush_level layout (level_at s'.levels 0) records)

  abbrev pub count_flush : Structure S → Structure S
  count_flush s = record s { flush_seq = s.flush_seq + 1 }

  unfoldable pub flush_buffer : LayoutPolicy → Structure S → List Wrapped → Option (Structure S)
  flush_buffer layout s records =
      let tmp =
        (if length s.current_state == 0
          then (grow layout s s.current_state).1
          else s.current_state) in
      if can_reconstruct_with layout 0 (length records) tmp
      then Option.map count_flush (flush_buffer_into_l0 layout s records)
      else none

  -- The first level that has the record tags it.
  unfoldable pub delete_in_levels : List (Level S) → Record → Bool × List (Level S)
  delete_in_levels [] rec = (false, [])
  delete_in_levels (l ∷ ls) rec =
      let rest = delete_in_levels ls rec in
      let (found, l') = Level.delete_record I l rec in
      if found then (true, l' ∷ ls) else (rest.0, l' ∷ rest.1)

  unfoldable pub tagged_delete : Structure S → Record → Bool × Structure S
  tagged_delete s rec =
      let (found, levels) = delete_in_levels s.levels rec in (found, record s { levels = levels })

  abbrev pub sum_levels : (Level S → ℕ) → List (Level S) → ℕ
  sum_levels f [] = 0
  sum_levels f (l ∷ ls) = f l + sum_levels f ls

  unfoldable pub total_record_count : Structure S → ℕ
  total_record_count s = sum_levels (get_record_count I) s.levels

  unfoldable pub total_tombstone_count : Structure S → ℕ
  total_tombstone_count s = sum_levels (get_tombstone_count I) s.levels

  unfoldable pub total_memory_usage : Structure S → ℕ
  total_memory_usage s = sum_levels (Level.get_memory_usage I) s.levels

  unfoldable pub total_aux_memory_usage : Structure S → ℕ
  total_aux_memory_usage s = sum_levels (Level.get_aux_memory_usage I) s.levels

module _ {S : Type 0} where
  abbrev pub clone_all : List (Level S) → List (Level S)
  clone_all [] = []
  clone_all (l ∷ ls) = clone l ∷ clone_all ls

  unfoldable pub copy : Structure S → Structure S
  copy s = record s { levels = clone_all s.levels; refcnt = 0 }

  unfoldable pub take_reference : Structure S → Structure S
  take_reference s = record s { refcnt = s.refcnt + 1 }

  unfoldable pub release_reference : Structure S → Option (Structure S)
  release_reference s = if ltb 0 s.refcnt then some (record s { refcnt = s.refcnt - 1 }) else none
