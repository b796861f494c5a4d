-- ===== src/Extension/Content.antt =====
-- The job that a full buffer schedules (DynamicExtension.h) loses no record of the extension.
use mathlib.Core.Option
use dynamic_extension.Base.{
  ℕ, Bool, true, ◌<◌, ◌+◌, ◌≡◌, refl, ap, false, some, List, [], ◌∷◌, arith,
}
use dynamic_extension.Record.{Record, Wrapped}
use dynamic_extension.Record.Net.{sum_by, sum_by-append, insert_of, erasure_of}
use dynamic_extension.Merge.Scan.{Untagged}
use dynamic_extension.Shard.{ShardInterface, ShardLaws, all_records}
use dynamic_extension.Level.{Level, clone}
use dynamic_extension.Level.Contents.{records, IsWell}
use dynamic_extension.Tasks.{ReconstructionTask}
use dynamic_extension.Buffer.Append.{visible, stored, IsValid, append-visible}
use dynamic_extension.Buffer.{append, is_at_low_watermark}
use dynamic_extension.Bloom.{Bloom}
use dynamic_extension.Structure.{
  LayoutPolicy, leveling, teiring, bsm, Structure, get_reconstruction_tasks,
}
use dynamic_extension.Structure.Apply.{clone_all, copy, take_reference}
use dynamic_extension.Structure.Net.{total, AllWell, SameLevels}
use dynamic_extension.Extension.{
  DynamicExtension, run_merges, reconstruction_job, schedule_reconstruction, internal_append,
}
use dynamic_extension.Extension.Flush.{
  IsIdle, CanRunAll, FlushFits, run_tasks-SameLevels, flush_and_advance-adds, copy_slots-Filled,
}

module _ {S : Type 0} {I : ShardInterface S} (W : ShardLaws I) where
  -- Under BSM, only the case without a task is meant here.
  abbrev pub CanMerge : LayoutPolicy → Structure S → List ReconstructionTask → Type 0
  CanMerge leveling vers merges = CanRunAll W leveling vers merges
  CanMerge teiring vers merges = CanRunAll W teiring vers merges
  CanMerge bsm vers merges = merges ≡ []

  run_merges-SameLevels :
      (layout : LayoutPolicy) (vers : Structure S) (merges : List ReconstructionTask)
      → AllWell W vers.levels
      → CanMerge layout vers merges
      → (s' : Structure S) × (run_merges I layout vers merges ≡ some s')
        × SameLevels W vers.levels s'.levels
        × AllWell W s'.levels
  unfolding run_merges
  run_merges-SameLevels leveling vers merges w c = run_tasks-SameLevels W leveling vers merges w c
  run_merges-SameLevels teiring vers merges w c = run_tasks-SameLevels W teiring vers merges w c
  run_merges-SameLevels bsm vers merges w c = (vers, rw c refl, λ r. refl, w)

  clone-IsWell :
      (l : Level S) → IsWell W l → IsWell W (clone l) × (records W (clone l) ≡ records W l)
  unfolding clone records
  clone-IsWell l w =
      let e = copy_slots-Filled W l.shard_cnt l.shards w.filled in
      (
        record { filled = rw e w.filled; settled = refl; clean = rw e w.clean },
        ap (all_records W.contents) e,
      )

  -- The new epoch's copy of the levels has the records of the old one's.
  clone_all-keeps :
      (ls : List (Level S))
      → AllWell W ls
      → AllWell W (clone_all ls) × ((f : Wrapped → ℕ) → total W f (clone_all ls) ≡ total W f ls)
  unfolding total
  clone_all-keeps [] w = (tt, λ f. refl)
  clone_all-keeps (l ∷ ls) (w, ws) =
      let (c, e) = clone-IsWell l w in
      let (cs, es) = clone_all-keeps ls ws in ((c, cs), λ f. omega (arith, ap (sum_by f) e, es f))

module _ {F S : Type 0} {I : ShardInterface S} (W : ShardLaws I) where
  -- The records of the buffer and of the structure, summed up.
  abbrev pub held : (Wrapped → ℕ) → DynamicExtension F S → ℕ
  held f e = sum_by f (visible e.buffer) + total W f e.structure.levels

  -- The extension inserts each record as often as another, once the erasures are taken off.
  abbrev pub SameContent : DynamicExtension F S → DynamicExtension F S → Type 0
  SameContent e e' =
      (r : Record)
      → held (insert_of r) e + held (erasure_of r) e'
        ≡ held (insert_of r) e' + held (erasure_of r) e

  -- The tasks that are planned for the copy of the structure.
  abbrev pub planned : LayoutPolicy → ℕ → DynamicExtension F S → List ReconstructionTask
  planned layout uninit e =
      (get_reconstruction_tasks layout uninit (take_reference (copy e.structure)) e.buffer.hwm
        []).tasks

  -- If no view is out, nothing in the buffer is tagged, each planned task finds room and no null or
  -- empty shard to merge (under BSM: if no task is planned), and so does the flush behind them, the job
  -- that a flush schedules ends. It empties the buffer, keeps the net
  -- content of buffer and structure together, and the levels well formed.
  pub schedule_reconstruction-SameContent :
      (layout : LayoutPolicy) (uninit : ℕ) (e : DynamicExtension F S)
      → IsIdle e
      → Untagged (visible e.buffer)
      → AllWell W e.structure.levels
      → CanMerge W layout (take_reference (copy e.structure)) (planned layout uninit e)
      → ((vers : Structure S)
          → run_merges I layout (take_reference (copy e.structure)) (planned layout uninit e)
            ≡ some vers
          → FlushFits W layout vers (visible e.buffer))
      → (e' : DynamicExtension F S) × (schedule_reconstruction I layout uninit e ≡ some e')
        × (visible e'.buffer ≡ [])
        × (e'.reconstruction_scheduled ≡ false)
        × SameContent e e'
        × AllWell W e'.structure.levels
  unfolding schedule_reconstruction reconstruction_job Option.bind copy take_reference sum_by
  schedule_reconstruction-SameContent layout uninit e idle clean w c fits =
      let (w1, copied) = clone_all-keeps W e.structure.levels w in
      let (vers, done, same, w2) =
        run_merges-SameLevels W layout (take_reference (copy e.structure)) (planned layout uninit e)
          w1 c in
      let (e', ends, empty, off, net, w3) =
        flush_and_advance-adds W layout e vers idle clean w2 (fits vers done) in
      (
        e',
        rw done ends,
        empty,
        off,
        λ r. omega (
          arith,
          net r,
          same r,
          copied (insert_of r),
          copied (erasure_of r),
          ap (sum_by (insert_of r)) empty,
          ap (sum_by (erasure_of r)) empty,
        ),
        w3,
      )

  -- Below the low watermark, an append of a valid buffer with room and a tail below 2^31 - 1 succeeds.
  -- It adds the stored record, or tombstone, to what the extension holds. It schedules nothing: the
  -- structure and the mark of a scheduled reconstruction stay as they are.
  pub internal_append-adds :
      (layout : LayoutPolicy) (uninit : ℕ) (b : Bloom F) (e : DynamicExtension F S) (rec : Record)
      (ts logging : Bool)
      → IsValid e.buffer
      → e.buffer.tail < e.buffer.head.head_idx + e.buffer.hwm
      → is_at_low_watermark e.buffer ≡ false
      → (e' : DynamicExtension F S) × (internal_append I layout uninit b e rec ts logging
          ≡ some (true, e'))
        × ((f : Wrapped → ℕ) → held f e' ≡ held f e + f (stored e.buffer rec ts))
        × (e'.structure ≡ e.structure)
        × (e'.reconstruction_scheduled ≡ e.reconstruction_scheduled)
  unfolding internal_append sum_by
  internal_append-adds layout uninit b e rec ts logging v room low =
      let (done, shows) = append-visible b e.buffer rec ts logging v room in
      (
        record e { buffer = (append b e.buffer rec ts logging).1 },
        rw (low, done) refl,
        λ f. omega (
          arith,
          ap (sum_by f) shows,
          sum_by-append f (visible e.buffer) (stored e.buffer rec ts ∷ []),
        ),
        refl,
        refl,
      )
