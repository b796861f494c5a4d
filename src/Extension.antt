-- ===== src/Extension.antt =====
-- include/framework/DynamicExtension.h: inserts, erasures and the flush of the buffer, as a serial
-- scheduler (include/framework/scheduling/SerialScheduler.h) runs them, each job within the call that
-- schedules it. What other threads do in between is in the files on the buffer and the epochs.
-- `none` is a failed assertion, or a loop that waits for another thread.
pub mod Flush
pub mod Content
pub mod Reads
pub mod Static
pub mod Answer
pub mod Hit
use mathlib.Core.Option
use dynamic_extension.Base.{
  ℕ, ◌+◌, Bool, true, false, not, ◌&&◌, Option, none, some, List, [], ◌∷◌, if◌then◌else◌,
}
use dynamic_extension.Bloom.{Bloom}
use dynamic_extension.Record.{Record}
use dynamic_extension.View
use dynamic_extension.View.Contents.{contents}
use dynamic_extension.Buffer.{
  Buffer, append, is_at_low_watermark, get_buffer_view, get_buffer_view_at, release_head_reference,
  advance_head,
}
use dynamic_extension.Shard.{ShardInterface}
use dynamic_extension.Tasks.{ReconstructionTask}
use dynamic_extension.Structure.{
  LayoutPolicy, leveling, teiring, bsm, Structure, get_reconstruction_tasks,
}
use dynamic_extension.Structure.Apply.{
  run_tasks, reconstruction_bsm, flush_buffer, copy, take_reference, tagged_delete,
}

-- The buffer, and the active epoch's structure and head. The serial scheduler has no other state
-- that matters here.
pub record DynamicExtension (F S : Type 0) : Type 0 where
  pub buffer : Buffer F
  pub structure : Structure S
  pub buffer_head : ℕ
  pub reconstruction_scheduled : Bool

-- The reconstructions of the job.
unfoldable pub run_merges :
    {S : Type 0}
    → ShardInterface S
    → LayoutPolicy
    → Structure S
    → List ReconstructionTask
    → Option (Structure S)
run_merges I leveling vers merges = run_tasks I leveling vers merges
run_merges I teiring vers merges = run_tasks I teiring vers merges
run_merges I bsm vers [] = some vers
run_merges I bsm vers (task ∷ merges) = reconstruction_bsm I vers task

module _ {F S : Type 0} (I : ShardInterface S) (layout : LayoutPolicy) where
  -- The rest of the job, on the new epoch's structure: the flush, which releases the view, and the
  -- advance of the epoch, which waits while the head cannot advance.
  unfoldable pub flush_and_advance :
      DynamicExtension F S → Structure S → Option (DynamicExtension F S)
  flush_and_advance e vers =
      Option.bind (get_buffer_view_at e.buffer e.buffer_head) (λ (view, taken).
        Option.bind (flush_buffer I layout vers (contents view taken.cells)) (λ flushed.
          Option.bind (release_head_reference taken view.head) (λ released.
            Option.bind (advance_head released view.tail) (λ (done, advanced).
              if done
              then some (record {
                buffer = advanced;
                structure = flushed;
                buffer_head = view.tail;
                reconstruction_scheduled = false;
              })
              else none))))

  -- The job of the flush; a compaction is not one.
  unfoldable pub reconstruction_job :
      DynamicExtension F S → Structure S → List ReconstructionTask → Option (DynamicExtension F S)
  reconstruction_job e vers merges =
      Option.bind (run_merges I layout vers merges) (flush_and_advance e)

-- `uninit` is the count that a planned task starts with under BSM.
module _ {F S : Type 0} (I : ShardInterface S) (layout : LayoutPolicy) (uninit : ℕ) where
  unfoldable pub schedule_reconstruction : DynamicExtension F S → Option (DynamicExtension F S)
  schedule_reconstruction e =
      let vers = take_reference (copy e.structure) in
      reconstruction_job I layout e vers
        (get_reconstruction_tasks layout uninit vers e.buffer.hwm []).tasks

  unfoldable pub internal_append :
      Bloom F → DynamicExtension F S → Record → Bool → Bool → Option (Bool × DynamicExtension F S)
  internal_append b e rec ts logging =
      Option.map
        (λ e'.
          let (done, buffer) = append b e'.buffer rec ts logging in
          (done, record e' { buffer = buffer }))
        (if is_at_low_watermark e.buffer && not e.reconstruction_scheduled
          then schedule_reconstruction (record e { reconstruction_scheduled = true })
          else some e)

  unfoldable pub insert :
      Bloom F → DynamicExtension F S → Record → Bool → Option (Bool × DynamicExtension F S)
  insert b e rec logging = internal_append b e rec false logging

  -- `erase` by the two delete policies. The view of the tagging form is released at its end.
  unfoldable pub erase_tombstone :
      Bloom F → DynamicExtension F S → Record → Bool → Option (Bool × DynamicExtension F S)
  erase_tombstone b e rec logging = internal_append b e rec true logging

module _ {F S : Type 0} (I : ShardInterface S) where
  unfoldable pub erase_tagging :
      DynamicExtension F S → Record → Option (Bool × DynamicExtension F S)
  erase_tagging e rec = Option.bind (get_buffer_view e.buffer) (λ (view, taken).
      let (tagged, structure) = tagged_delete I e.structure rec in
      let (found, cells) =
        (if tagged then (true, taken.cells) else View.delete_record view taken.cells rec) in
      Option.map (λ released. (found, record e { buffer = released; structure = structure }))
        (release_head_reference (record taken { cells = cells }) view.head))
