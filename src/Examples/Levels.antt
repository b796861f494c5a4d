-- ===== src/Examples/Levels.antt =====
-- Levels and structures of sorted arrays at concrete inputs.
use dynamic_extension.Base.{
  ℕ, ◌≡◌, refl, List, [], ◌∷◌, Option, none, some, arith, length, zero, suc, ◌≤◌, ◌<◌,
  if◌then◌else◌, ◌≢◌, ltb, not,
}
use dynamic_extension.Record.{Record, Wrapped, is_deleted, rec_eq}
use dynamic_extension.Record.Net.{tombstones}
use dynamic_extension.Shard.{ShardInterface, ShardLaws, all_records}
use dynamic_extension.Level.{Level}
use dynamic_extension.Level.Contents.{records, IsWell}
use dynamic_extension.Structure.{leveling, teiring, LevelState, Structure, plan_flush, state_at}
use dynamic_extension.Structure.Moves.{Within}
use dynamic_extension.Tasks.{ReconstructionVector}
use dynamic_extension.Structure.Compaction.{
  Proportion, get_compaction_tasks, validate_tombstone_proportion,
}
use dynamic_extension.Structure.Sources.{FromFirst, get_compaction_tasks-FromFirst}
use dynamic_extension.Structure.Plan.{plan_flush-Within, plan_flush-overflow}

abbrev pub entry : ℕ → ℕ → Wrapped
entry header key = record { header = header; rec = record { key = key; value = 0 } }

-- A shard that is a list of its records, and is searched from the start.
abbrev pub find : List Wrapped → Record → Option Wrapped
find [] r = none
find (w ∷ ws) r = if rec_eq w.rec r then some w else find ws r

abbrev pub lists : ShardInterface (List Wrapped)
lists = record {
  of_view = λ ws. ws;
  of_shards = λ ss. some (all_records (λ s. s) ss);
  point_lookup = λ s r filter buffer. find s r;
  tag = λ s r. s;
  get_record_count = length;
  get_tombstone_count = λ s. 0;
  get_memory_usage = length;
  get_aux_memory_usage = λ s. 0;
}

abbrev pub laws : ShardLaws lists
laws = record {
  contents = λ s. s;
  of_view-SameNet = λ ws u r. refl;
  of_view-Untagged = λ ws u. u;
  of_shards-SameNet = λ ss live more u. (all_records (λ s. s) ss, refl, λ r. refl, u);
  count_lem = λ s. refl;
}

-- A level of three slots with one shard, and one that is full.
abbrev pub upper : Level (List Wrapped)
upper = record {
  level_no = 0;
  shard_cnt = 1;
  shards = some (entry 4 7 ∷ entry 5 3 ∷ []) ∷ none ∷ none ∷ [];
  pending_shard = none;
}

abbrev pub lower : Level (List Wrapped)
lower = record {
  level_no = 1;
  shard_cnt = 2;
  shards = some (entry 4 3 ∷ []) ∷ some (entry 4 9 ∷ []) ∷ none ∷ [];
  pending_shard = none;
}

abbrev full : Level (List Wrapped)
full = record {
  level_no = 1;
  shard_cnt = 1;
  shards = some (entry 4 3 ∷ []) ∷ [];
  pending_shard = none;
}

pub upper-IsWell : IsWell laws upper
unfolding records all_records is_deleted
upper-IsWell = record { filled = tt; settled = refl; clean = (refl, (refl, tt)) }

pub lower-IsWell : IsWell laws lower
unfolding records all_records is_deleted
lower-IsWell = record { filled = tt; settled = refl; clean = (refl, (refl, tt)) }

abbrev pub state : ℕ → ℕ → LevelState
state shardcnt reccnt = record { reccnt = reccnt; reccap = 10; shardcnt = shardcnt; shardcap = 3 }

abbrev pub tiered : Structure (List Wrapped)
tiered = record {
  scale_factor = 3;
  buffer_size = 2;
  flush_seq = 0;
  refcnt = 1;
  levels = upper ∷ lower ∷ [];
  current_state = state 1 2 ∷ state 2 2 ∷ [];
}

-- Level 0 is full, and so is level 1.
abbrev crowded : List LevelState
crowded = state 3 6 ∷ state 3 9 ∷ []

crowded-Within : Within crowded
crowded-Within = record { bounded = bounded_at; capable = capable_at }
  where
    bounded_at : (j : ℕ) → (state_at crowded j).shardcnt ≤ (state_at crowded j).shardcap
    bounded_at zero = omega arith
    bounded_at (suc zero) = omega arith
    bounded_at (suc (suc j)) = omega arith

    capable_at : (j : ℕ) → j < 2 → 0 < (state_at crowded j).shardcap
    capable_at zero h = omega arith
    capable_at (suc zero) h = omega arith
    capable_at (suc (suc j)) h = absurd (omega arith)

plan_flush-Within_example : Within (plan_flush teiring 0 tiered 2 crowded).1
plan_flush-Within_example = plan_flush-Within tiered 0 2 crowded (omega arith) refl crowded-Within

plan_flush-overflow_example :
    (state_at (plan_flush leveling 0 tiered 2 (state 1 9 ∷ state 1 8 ∷ state 1 0 ∷ [])).1 2).reccnt
    ≡ 8
plan_flush-overflow_example =
    plan_flush-overflow tiered 0 2 (state 1 9) (state 1 8) (state 1 0) (omega arith) (omega arith)
      (omega arith)

-- The same shards with their tombstones counted, of which there may be none.
abbrev counting : ShardInterface (List Wrapped)
counting = record lists { get_tombstone_count = tombstones }

abbrev no_tombstones : Proportion
no_tombstones = record { num = 0; den = 1 }

teiring_other : teiring ≢ leveling
teiring_other = cc

get_compaction_tasks-FromFirst_example :
    (v : ReconstructionVector) × (get_compaction_tasks counting no_tombstones tiered teiring
      ≡ some v)
    × FromFirst v.tasks
    × (ltb 0 (length v.tasks) ≡ not (validate_tombstone_proportion counting no_tombstones tiered))
get_compaction_tasks-FromFirst_example =
    get_compaction_tasks-FromFirst counting no_tombstones tiered teiring teiring_other
