-- ===== src/Isam/Built.antt =====
-- What the constructors of ISAMTree.h establish: a sorted array without delete tags, with its
-- tombstones counted, and with the net content of the input.
use mathlib.Core.Option
use mathlib.Core.Option.{some_inj}
use mathlib.Core.List.{Perm}
use dynamic_extension.Base.{
  ◌≡◌, ◌<◌, refl, sym, subst, ◌∙◌, Option, none, some, List, [], ◌∷◌, map, length, arith,
}
use dynamic_extension.Bloom.{Bloom}
use dynamic_extension.Record.{Wrapped}
use dynamic_extension.Record.Net.{SameNet, tombstones}
use dynamic_extension.Merge.Scan.{Untagged}
use dynamic_extension.Merge.Array.{IsSorted, IsOrdered, array-SameNet, array-IsSorted, array-counts}
use dynamic_extension.Merge.Queue.{PriorityQueue, QueueLaws}
use dynamic_extension.Merge.Disorder.{ArraysSorted}
use dynamic_extension.Merge.Loop.{NoEmpty, arrays}
use dynamic_extension.Merge.Merged.{sorted_array_merge-SameNet}
use dynamic_extension.Merge.Ordered.{sorted_array_merge-IsSorted}
use dynamic_extension.Isam.{IsamTree, from_info, of_view, of_shards}

-- The invariant of a shard.
pub record IsBuilt (t : IsamTree) : Type 0 where
  pub sorted : IsSorted t.records
  pub counted : t.tombstone_cnt ≡ tombstones t.records

abbrev pub array_of : Option IsamTree → Option (List Wrapped)
array_of = Option.map (λ t. t.records)

-- Each shard is built, and none of them is null or empty.
abbrev pub AllBuilt : List (Option IsamTree) → Type 0
AllBuilt [] = Unit
AllBuilt (none ∷ ss) = ⊥
AllBuilt (some t ∷ ss) = IsBuilt t × (0 < length t.records) × AllBuilt ss

pub NoEmpty-cons :
    (ws : List Wrapped) (ss : List (Option (List Wrapped)))
    → 0 < length ws
    → NoEmpty ss
    → NoEmpty (some ws ∷ ss)
NoEmpty-cons [] ss h n = absurd (omega arith)
NoEmpty-cons (w ∷ ws) ss h n = n

AllBuilt-NoEmpty : (ss : List (Option IsamTree)) → AllBuilt ss → NoEmpty (map array_of ss)
AllBuilt-NoEmpty [] h = tt
AllBuilt-NoEmpty (none ∷ ss) h = absurd h
AllBuilt-NoEmpty (some t ∷ ss) h =
    NoEmpty-cons t.records (map array_of ss) h.1 (AllBuilt-NoEmpty ss h.2)

AllBuilt-ArraysSorted : (ss : List (Option IsamTree)) → AllBuilt ss → ArraysSorted (map array_of ss)
AllBuilt-ArraysSorted [] h = tt
AllBuilt-ArraysSorted (none ∷ ss) h = absurd h
AllBuilt-ArraysSorted (some t ∷ ss) h = (h.0.sorted, AllBuilt-ArraysSorted ss h.2)

module _ {F : Type 0} (b : Bloom F) (sort : List Wrapped → List Wrapped)
    (permutes : (xs : List Wrapped) → Perm xs (sort xs))
    (orders : (xs : List Wrapped) → IsOrdered (sort xs)) where
  -- If std::sort permutes and orders its input, the shard that is built from records without delete
  -- tags is sorted, counts its tombstones, and has the net content of the records.
  pub of_view-IsBuilt :
      (records : List Wrapped)
      → Untagged records
      → IsBuilt (of_view b sort records) × SameNet records (of_view b sort records).records
  unfolding of_view
  of_view-IsBuilt records u = (
    record {
      sorted = array-IsSorted b sort orders records none;
      counted = array-counts b sort records none;
    },
    array-SameNet b sort permutes records none u,
  )

module _ {Q F : Type 0} (P : PriorityQueue Q) (L : QueueLaws P) (b : Bloom F) where
  -- Building a shard from shards that are built, neither null nor empty, and without delete tags
  -- ends. The new shard is built, has no delete tags, and has the net content of them all.
  pub of_shards-IsBuilt :
      (ss : List (Option IsamTree))
      → AllBuilt ss
      → Untagged (arrays (map array_of ss))
      → (t : IsamTree) × (of_shards P b ss ≡ some t)
        × IsBuilt t
        × Untagged t.records
        × SameNet (arrays (map array_of ss)) t.records
  unfolding of_shards
  of_shards-IsBuilt ss h u =
      let arr = map array_of ss in
      let n = AllBuilt-NoEmpty ss h in
      let (out, e, net, clean, count) = sorted_array_merge-SameNet P L b arr none n u in
      let (out', e', order) =
        sorted_array_merge-IsSorted P L b arr none n (AllBuilt-ArraysSorted ss h) in
      (
        from_info out,
        rw e refl,
        record {
          sorted = subst (λ i. IsSorted i.buffer) (some_inj.0 (sym e' ∙ e)) order;
          counted = count;
        },
        clean,
        net,
      )
