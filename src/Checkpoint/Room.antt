-- ===== src/Checkpoint/Room.antt =====
-- A level that is loaded from a checkpoint (Checkpoint.h) has no free slot, although the state that
-- ExtensionStructure.h gives it says so.
use dynamic_extension.Base.{
  ℕ, zero, suc, ◌<◌, ◌≡◌, refl, ap, true, Option, none, some, List, [], ◌∷◌, arith, ◌==◌, length,
  map,
}
use mathlib.Core.Option
use dynamic_extension.Record.{Wrapped}
use dynamic_extension.Shard.{ShardInterface, ShardLaws}
use dynamic_extension.Level.{Level, present, append_buffer, clone, get_shard_count}
use dynamic_extension.Level.Slots.{Filled}
use dynamic_extension.Level.Contents.{records}
use dynamic_extension.Extension.Flush.{copy_slots-Filled}
use dynamic_extension.Structure.{teiring, can_reconstruct_with}
use dynamic_extension.Checkpoint.{loaded_state}
use dynamic_extension.Checkpoint.Restart.{reloaded}

-- The slots of a reloaded level are filled, and there are no others.
reopened-Filled :
    {S : Type 0} (reopen : S → S) (n : ℕ) (ss : List (Option S))
    → Filled n ss
    → Filled n (map (Option.map reopen) (present ss))
      × (length (map (Option.map reopen) (present ss)) ≡ n)
unfolding present
reopened-Filled reopen zero [] f = (tt, refl)
reopened-Filled reopen zero (none ∷ ss) f = reopened-Filled reopen zero ss f
reopened-Filled reopen zero (some s ∷ ss) f = absurd f
reopened-Filled reopen (suc n) [] f = absurd f
reopened-Filled reopen (suc n) (none ∷ ss) f = absurd f
reopened-Filled reopen (suc n) (some s ∷ ss) f =
    let (filled, count) = reopened-Filled reopen n ss f in (filled, ap suc count)

module _ {S : Type 0} {I : ShardInterface S} (W : ShardLaws I) where
  -- Under tiering, with fewer shards in level 0 than the scale factor, the state after a restart
  -- lets a flush go to level 0. The flush leaves the records of the level as they were, and the copy
  -- of the level that the next epoch gets is the level from before the flush: the flushed records are
  -- in neither.
  pub append_buffer-reloaded :
      (l : Level S) (lower : List (Option (Level S))) (buffer_size scale_factor : ℕ)
      (flushed : List Wrapped) (reopen : S → S)
      → Filled l.shard_cnt l.shards
      → l.shard_cnt < scale_factor
      → (l' : Level S) × (can_reconstruct_with teiring 0
            (length flushed)
            (loaded_state I teiring buffer_size scale_factor 0 (some (reloaded reopen 0 l) ∷ lower))
          ≡ true)
        × (append_buffer I (reloaded reopen 0 l) flushed ≡ some l')
        × (records W l' ≡ records W (reloaded reopen 0 l))
        × (clone l' ≡ reloaded reopen 0 l)
  unfolding can_reconstruct_with loaded_state append_buffer records get_shard_count clone
  append_buffer-reloaded l lower buffer_size scale_factor flushed reopen f h =
      let ss = map (Option.map reopen) (present l.shards) in
      let filled = reopened-Filled reopen l.shard_cnt l.shards f in
      let full : (l.shard_cnt == length ss) ≡ true = ground (arith, filled.1) in
      (
        record (reloaded reopen 0 l) { pending_shard = some (I.of_view flushed) },
        ground arith,
        rw full refl,
        refl,
        rw (copy_slots-Filled W l.shard_cnt ss filled.0) refl,
      )
