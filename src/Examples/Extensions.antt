-- ===== src/Examples/Extensions.antt =====
-- A flush and an append of a whole extension at concrete inputs.
use mathlib.Core.Option.{some_inj}
use dynamic_extension.Base.{ℕ, ◌+◌, ◌≡◌, refl, subst, true, false, List, [], ◌∷◌, some, none, arith}
use dynamic_extension.Bloom.{exact}
use dynamic_extension.Record.{Record, Wrapped, is_deleted}
use dynamic_extension.Structure.{
  teiring, Structure, get_reconstruction_tasks, plan_flush, can_reconstruct_with,
}
use dynamic_extension.Structure
use dynamic_extension.Structure.Apply
use dynamic_extension.Level
use mathlib.Core.Option
use dynamic_extension.Structure.Apply.{copy, take_reference, run_tasks, ensure_level}
use dynamic_extension.Structure.Net.{AllWell}
use dynamic_extension.View
use dynamic_extension.View.{blank, make_view, get, to_idx}
use dynamic_extension.View.Contents.{contents, gets}
use dynamic_extension.Level.{Level, clone, copy_slots, present}
use dynamic_extension.Level.Contents.{records, IsWell}
use dynamic_extension.Shard.{all_records}
use dynamic_extension.Tasks.{ReconstructionTask, add_reconstruction}
use dynamic_extension.Buffer
use dynamic_extension.Buffer.{Buffer, view_at, is_at_low_watermark}
use dynamic_extension.Buffer.Append.{visible, stored}
use dynamic_extension.Extension.{
  DynamicExtension, run_merges, schedule_reconstruction, internal_append,
}
use dynamic_extension.Extension.Flush.{IsIdle, FlushFits}
use dynamic_extension.Extension.Content.{
  CanMerge, SameContent, held, planned, schedule_reconstruction-SameContent, internal_append-adds,
}
use dynamic_extension.Extension.Reads.{get_record_count}
use dynamic_extension.Extension.Static.{get_record_count-held}
use dynamic_extension.Examples.Levels.{
  entry, state, lower, lists, laws, tiered, upper-IsWell, lower-IsWell,
}
use dynamic_extension.Examples.Buffers.{pair, fresh, fresh-IsValid}

-- One record in the buffer, two levels with room.
abbrev one_record : Buffer (List Record)
one_record = record fresh {
  tail = 1;
  cells = record { header = 4; rec = pair } ∷ blank ∷ blank ∷ blank ∷ [];
}

abbrev loaded : DynamicExtension (List Record) (List Wrapped)
loaded = record {
  buffer = one_record;
  structure = tiered;
  buffer_head = 0;
  reconstruction_scheduled = true;
}

loaded_shows : visible loaded.buffer ≡ record { header = 4; rec = pair } ∷ []
unfolding contents view_at make_view View.get_record_count gets get to_idx
loaded_shows = refl

-- The same buffer over a level 0 without a free slot, so that a task is planned.
abbrev full_upper : Level (List Wrapped)
full_upper = record {
  level_no = 0;
  shard_cnt = 3;
  shards = some (entry 4 7 ∷ []) ∷ some (entry 5 3 ∷ []) ∷ some (entry 4 8 ∷ []) ∷ [];
  pending_shard = none;
}

abbrev crowded : DynamicExtension (List Record) (List Wrapped)
crowded = record loaded {
  structure = record tiered {
    levels = full_upper ∷ lower ∷ [];
    current_state = state 3 3 ∷ state 2 2 ∷ [];
  };
}

crowded-IsIdle : IsIdle crowded
crowded-IsIdle = record { head_lem = refl; unreferenced = (refl, refl); nonempty = omega arith }

full_upper-IsWell : IsWell laws full_upper
unfolding records all_records is_deleted
full_upper-IsWell = record { filled = tt; settled = refl; clean = (refl, (refl, (refl, tt))) }

abbrev first_task : ReconstructionTask
first_task = record { sources = 0 ∷ []; target = 1; reccnt = 3 }

crowded-planned : planned laws teiring 0 crowded ≡ first_task ∷ []
unfolding get_reconstruction_tasks plan_flush can_reconstruct_with take_reference copy
    Structure.get_reconstruction_tasks_from_level Structure.find_reconstruction_target
    Structure.find_from Structure.plan_moves add_reconstruction
crowded-planned = refl

crowded-CanMerge :
    CanMerge laws teiring (take_reference (copy crowded.structure)) (planned laws teiring 0 crowded)
unfolding take_reference copy ensure_level clone copy_slots present
crowded-CanMerge = rw crowded-planned (
  (
    (omega arith),
    (omega arith),
    (omega arith),
    (omega arith, λ p. ((omega arith, (omega arith, (omega arith, tt))), omega arith)),
  ),
  λ s' e. tt,
)

crowded-FlushFits :
    (vers : Structure (List Wrapped))
    → run_merges lists teiring
        (take_reference (copy crowded.structure))
        (planned laws teiring 0 crowded)
      ≡ some vers
    → FlushFits laws teiring vers (visible crowded.buffer)
unfolding run_merges run_tasks can_reconstruct_with take_reference copy ensure_level clone
    copy_slots present all_records Apply.reconstruction Apply.combine_levels Apply.install
    Level.append_level Level.finalize Option.bind Level.make_level
crowded-FlushFits vers h =
    subst (λ t. FlushFits laws teiring t (visible crowded.buffer))
      (some_inj.0 (rw crowded-planned at h)) (refl, omega arith)

schedule_reconstruction-SameContent_example :
    (e' : DynamicExtension (List Record) (List Wrapped)) × (schedule_reconstruction lists teiring 0
        crowded
      ≡ some e')
    × (visible e'.buffer ≡ [])
    × (e'.reconstruction_scheduled ≡ false)
    × SameContent laws crowded e'
    × AllWell laws e'.structure.levels
unfolding is_deleted
schedule_reconstruction-SameContent_example =
    schedule_reconstruction-SameContent laws teiring 0 crowded crowded-IsIdle
      (rw loaded_shows (refl, tt)) (full_upper-IsWell, (lower-IsWell, tt)) crowded-CanMerge
      crowded-FlushFits

internal_append-adds_example :
    (e' : DynamicExtension (List Record) (List Wrapped)) × (internal_append lists teiring 0 exact
        (record loaded { buffer = fresh })
        pair
        true
        false
      ≡ some (true, e'))
    × ((f : Wrapped → ℕ)
        → held laws f e'
          ≡ held laws f (record loaded { buffer = fresh }) + f (stored fresh pair true))
    × (e'.structure ≡ loaded.structure)
    × (e'.reconstruction_scheduled ≡ true)
unfolding is_at_low_watermark Buffer.get_record_count
internal_append-adds_example =
    internal_append-adds laws teiring 0 exact (record loaded { buffer = fresh }) pair true false
      fresh-IsValid (omega arith) refl

get_record_count-held_example :
    get_record_count lists loaded ≡ some (held laws (λ _. 1) loaded, loaded)
get_record_count-held_example =
    get_record_count-held laws loaded refl (upper-IsWell, (lower-IsWell, tt))
