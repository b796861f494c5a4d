-- ===== src/Structure.antt =====
-- include/framework/structure/ExtensionStructure.h: the levels of shards below the buffer. This
-- file has the state and the planning of reconstructions on a scratch copy of it.
pub mod Apply
pub mod Moves
pub mod Plan
pub mod Net
pub mod Compaction
pub mod Sources
use dynamic_extension.Base.{
  ℕ, zero, suc, ◌+◌, ◌-◌, ◌*◌, ◌^◌, Bool, true, false, not, ◌&&◌, Option, none, some, List, [], ◌∷◌,
  ◌++◌, ltb, leb, ◌==◌, if◌then◌else◌, length, get_elem?, get_or, set,
}
use dynamic_extension.Level.{Level}
use dynamic_extension.Tasks.{
  ReconstructionTask, ReconstructionVector, no_tasks, add_reconstruction, add_task, add_source,
}

-- include/framework/util/Configuration.h
pub data LayoutPolicy : Type 0 where
  leveling teiring bsm : LayoutPolicy

pub record LevelState : Type 0 where
  pub reccnt : ℕ
  pub reccap : ℕ
  pub shardcnt : ℕ
  pub shardcap : ℕ

-- No level is null here: only `load_checkpoint` makes such levels.
pub record Structure (S : Type 0) : Type 0 where
  pub scale_factor : ℕ
  pub buffer_size : ℕ
  pub flush_seq : ℕ
  pub refcnt : ℕ
  pub levels : List (Level S)
  pub current_state : List LevelState

abbrev pub no_state : LevelState
no_state = record { reccnt = 0; reccap = 0; shardcnt = 0; shardcap = 0 }

-- `state[idx]`; the code reads it in range only.
abbrev pub state_at : List LevelState → ℕ → LevelState
state_at state idx = get_or state idx no_state

abbrev pub shard_capacity : LayoutPolicy → ℕ → ℕ
shard_capacity leveling scale_factor = 1
shard_capacity _ scale_factor = scale_factor

-- `pow` is exact up to 2^53.
unfoldable pub calc_level_record_capacity : ℕ → ℕ → ℕ → ℕ
calc_level_record_capacity buffer_size scale_factor idx = buffer_size * scale_factor ^ (idx + 1)

abbrev pub has_room : LayoutPolicy → LevelState → ℕ → Bool
has_room leveling st incoming = leb (st.reccnt + incoming) st.reccap
has_room bsm st incoming = st.reccnt == 0
has_room teiring st incoming = ltb st.shardcnt st.shardcap

unfoldable pub can_reconstruct_with : LayoutPolicy → ℕ → ℕ → List LevelState → Bool
can_reconstruct_with layout idx incoming state =
    if leb (length state) idx then false else has_room layout (state_at state idx) incoming

-- The loop of `find_reconstruction_target`, with `n` rounds left. Each round sets the incoming
-- count to that of level `idx` again.
unfoldable pub find_from : LayoutPolicy → List LevelState → ℕ → ℕ → ℕ → Option ℕ
find_from layout state incoming i zero = none
find_from layout state incoming i (suc n) =
    let rest = find_from layout state incoming (i + 1) n in
    if can_reconstruct_with layout i incoming state then some i else rest

-- `none` is the result -1.
unfoldable pub find_reconstruction_target : LayoutPolicy → ℕ → List LevelState → Option ℕ
find_reconstruction_target layout idx state =
    if idx == 0 && length state == 0
    then none
    else find_from layout state (state_at state idx).reccnt (idx + 1) (length state - (idx + 1))

module _ {S : Type 0} (layout : LayoutPolicy) (s : Structure S) where
  -- The new level is numbered by the real levels, and appended to the scratch state.
  unfoldable pub grow : List LevelState → ℕ × List LevelState
  grow scratch = (
    length s.levels,
    scratch
        ++ record {
          reccnt = 0;
          reccap = calc_level_record_capacity s.buffer_size s.scale_factor (length s.levels);
          shardcnt = 0;
          shardcap = shard_capacity layout s.scale_factor;
        }
          ∷ [],
  )

  abbrev pub target_or_grow : Option ℕ → List LevelState → ℕ × List LevelState
  target_or_grow none scratch = grow scratch
  target_or_grow (some base) scratch = (base, scratch)

  unfoldable pub get_height : ℕ
  get_height = length s.levels

-- `if (L == TEIRING || shardcnt == 0) shardcnt += 1`
abbrev pub gains_shard : LayoutPolicy → ℕ → ℕ
gains_shard teiring shardcnt = shardcnt + 1
gains_shard _ shardcnt = if shardcnt == 0 then shardcnt + 1 else shardcnt

abbrev pub emptied : LevelState → LevelState
emptied st = record st { reccnt = 0; shardcnt = 0 }

-- The records that a task into level `i` handles. Leveling merges with those that are there.
abbrev pub task_reccnt : LayoutPolicy → ℕ → List LevelState → ℕ
task_reccnt leveling i state =
    if can_reconstruct_with leveling i (state_at state (i - 1)).reccnt state
    then (state_at state (i - 1)).reccnt + (state_at state i).reccnt
    else (state_at state (i - 1)).reccnt
task_reccnt _ i state = (state_at state (i - 1)).reccnt

-- The scratch state after level `i - 1` has moved into level `i`.
abbrev pub moved : LayoutPolicy → ℕ → List LevelState → List LevelState
moved layout i state =
    let above = set state (i - 1) (emptied (state_at state (i - 1))) in
    let st = state_at above i in
    set above i (record st {
      reccnt = st.reccnt + (state_at state (i - 1)).reccnt;
      shardcnt = gains_shard layout st.shardcnt;
    })

-- `for (i = base; i > source; i--)`, with `n` rounds left: `i` is `source + n`.
unfoldable pub plan_moves :
    LayoutPolicy
    → ℕ
    → ℕ
    → ReconstructionVector
    → List LevelState
    → ReconstructionVector × List LevelState
plan_moves layout source zero tasks state = (tasks, state)
plan_moves layout source (suc n) tasks state =
    let i = source + suc n in
    plan_moves layout source n (add_reconstruction tasks (i - 1) i (task_reccnt layout i state))
      (moved layout i state)

-- The same loop under BSM, which collects every level above the base in one task.
unfoldable pub plan_sources :
    ℕ → ℕ → ReconstructionTask → ℕ → List LevelState → ReconstructionTask × ℕ × List LevelState
plan_sources source zero task base_reccnt state = (task, base_reccnt, state)
plan_sources source (suc n) task base_reccnt state =
    let i = source + suc n in
    let recon = (state_at state (i - 1)).reccnt in
    plan_sources source n (add_source task (i - 1) recon) (base_reccnt + recon)
      (set state (i - 1) (emptied (state_at state (i - 1))))

-- The part of `get_reconstruction_tasks_from_level` under BSM. The count of a new task is not
-- initialized by the code: `uninit` is what the memory holds.
unfoldable pub plan_bsm : ℕ → ℕ → ℕ → List LevelState → ReconstructionVector × List LevelState
plan_bsm uninit source base state =
    if base == 0
    then (no_tasks, state)
    else let (task, base_reccnt, below) =
        plan_sources source (base - source)
          (record { sources = []; target = base; reccnt = uninit }) 0 state in
      (
        add_task no_tasks task,
        set below base (record (state_at below base) { reccnt = base_reccnt; shardcnt = 1 }),
      )

abbrev pub plan_to :
    LayoutPolicy → ℕ → ℕ → ℕ → List LevelState → ReconstructionVector × List LevelState
plan_to bsm uninit source base state = plan_bsm uninit source base state
plan_to layout uninit source base state = plan_moves layout source (base - source) no_tasks state

module _ {S : Type 0} (layout : LayoutPolicy) (uninit : ℕ) (s : Structure S) where
  unfoldable pub get_reconstruction_tasks_from_level :
      ℕ → List LevelState → ReconstructionVector × List LevelState
  get_reconstruction_tasks_from_level source scratch =
      let (base, grown) =
        target_or_grow layout s (find_reconstruction_target layout source scratch) scratch in
      plan_to layout uninit source base grown

  -- The one round of the loop (LOOKAHEAD is 1), with the tasks and the scratch state.
  unfoldable pub plan_flush : ℕ → List LevelState → ReconstructionVector × List LevelState
  plan_flush buffer_reccnt scratch =
      let (tasks, freed) =
        (if can_reconstruct_with layout 0 buffer_reccnt scratch
          then (no_tasks, scratch)
          else get_reconstruction_tasks_from_level 0 scratch) in
      let st = state_at freed 0 in
      (
        tasks,
        set freed 0 (record st {
          reccnt = st.reccnt + buffer_reccnt;
          shardcnt = gains_shard layout st.shardcnt;
        }),
      )

  unfoldable pub get_reconstruction_tasks : ℕ → List LevelState → ReconstructionVector
  get_reconstruction_tasks buffer_reccnt scratch =
      (plan_flush buffer_reccnt (if length scratch == 0 then s.current_state else scratch)).0
