-- ===== src/Extension/Reads.antt =====
-- include/framework/DynamicExtension.h: the reads of the extension that count what it holds, or make
-- one shard of it. Each takes a view of the buffer and releases it.
use mathlib.Core.Option
use dynamic_extension.Base.{ℕ, ◌+◌, ltb, Option, some, List, [], ◌∷◌, ◌++◌, if◌then◌else◌}
use dynamic_extension.Record.{Wrapped}
use dynamic_extension.View
use dynamic_extension.View.{BufferView}
use dynamic_extension.View.Contents.{contents}
use dynamic_extension.Buffer.{get_buffer_view_at, release_head_reference}
use dynamic_extension.Shard.{ShardInterface}
use dynamic_extension.Level
use dynamic_extension.Level.{Level}
use dynamic_extension.Structure.Apply.{
  total_record_count, total_tombstone_count, total_aux_memory_usage,
}
use dynamic_extension.Extension.{DynamicExtension}

module _ {F S : Type 0} where
  -- The epoch's view of the buffer, which is released behind its use.
  unfoldable pub with_view :
      {A : Type 0}
      → DynamicExtension F S
      → (BufferView F → List Wrapped → A)
      → Option (A × DynamicExtension F S)
  with_view e use_view = Option.bind (get_buffer_view_at e.buffer e.buffer_head) (λ (view, taken).
      Option.map (λ released. (use_view view taken.cells, record e { buffer = released }))
        (release_head_reference taken view.head))

module _ {S : Type 0} (I : ShardInterface S) where
  -- The combined shards of the levels that hold a record, from the last level to the first.
  unfoldable pub combined_shards : List (Level S) → Option (List (Option S))
  combined_shards [] = some []
  combined_shards (l ∷ ls) = Option.bind (combined_shards ls) (λ below.
      let here = Option.map (λ s. below ++ s ∷ []) (Level.get_combined_shard I l) in
      if ltb 0 (Level.get_record_count I l) then here else some below)

  unfoldable pub buffer_shard : {F : Type 0} → BufferView F → List Wrapped → List (Option S)
  buffer_shard view cells =
      if ltb 0 (View.get_record_count view) then some (I.of_view (contents view cells)) ∷ [] else []

module _ {F S : Type 0} (I : ShardInterface S) where
  unfoldable pub get_record_count : DynamicExtension F S → Option (ℕ × DynamicExtension F S)
  get_record_count e =
      with_view e (λ view cells. View.get_record_count view + total_record_count I e.structure)

  unfoldable pub get_tombstone_count : DynamicExtension F S → Option (ℕ × DynamicExtension F S)
  get_tombstone_count e =
      with_view e
        (λ view cells. View.get_tombstone_count view + total_tombstone_count I e.structure)

  unfoldable pub get_aux_memory_usage : DynamicExtension F S → ℕ
  get_aux_memory_usage e = total_aux_memory_usage I e.structure

  -- `create_static_structure`, where no newer epoch is waited for.
  unfoldable pub create_static_structure : DynamicExtension F S → Option (S × DynamicExtension F S)
  create_static_structure e =
      Option.bind
        (with_view e (λ view cells.
          Option.bind (combined_shards I e.structure.levels)
            (λ shards. I.of_shards (shards ++ buffer_shard I view cells))))
        (λ (made, after). Option.map (λ s. (s, after)) made)
