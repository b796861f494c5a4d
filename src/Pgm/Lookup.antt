-- ===== src/Pgm/Lookup.antt =====
-- `point_lookup` of include/shard/PGM.h on the shards that its constructors build.
use mathlib.Core.Option
use mathlib.Core.Option.{some_inj}
use mathlib.Core.List.{Perm}
use dynamic_extension.Base.{
  ◌<◌, ◌≡◌, refl, sym, ◌∙◌, subst, Option, none, some, List, [], ◌∷◌, map, arith, length, lt→ltb,
}
use dynamic_extension.Bloom.{Bloom}
use dynamic_extension.Record.{Record, Wrapped}
use dynamic_extension.Record.Net.{SameNet, tombstones}
use dynamic_extension.Merge.Scan.{Untagged}
use dynamic_extension.Merge.Array.{IsSorted, IsOrdered, array-SameNet, array-IsSorted, array-counts}
use dynamic_extension.Merge.Queue.{PriorityQueue, QueueLaws}
use dynamic_extension.Merge.Disorder.{ArraysSorted}
use dynamic_extension.Merge.Loop.{NoEmpty, arrays}
use dynamic_extension.Merge.Merged.{sorted_array_merge-SameNet}
use dynamic_extension.Merge.Ordered.{sorted_array_merge-IsSorted}
use dynamic_extension.Merge.{MergeInfo, sorted_array_from_bufferview}
use dynamic_extension.Isam.Built.{NoEmpty-cons}
use dynamic_extension.KeySearch.Split.{one_before, lower_bound, lower_bound-Splits}
use dynamic_extension.KeySearch.Walk.{Locates, lookup-Locates}
use dynamic_extension.Pgm.{
  PgmIndex, PgmLaws, Pgm, keys_of, from_info, of_view, of_shards, point_lookup,
}
use dynamic_extension.Pgm.LowerBound.{get_lower_bound_lem}

-- The invariant of a shard: the array is sorted, its tombstones are counted, and the index was
-- built over its keys, unless it is empty.
pub record IsIndexed {X : Type 0} (I : PgmIndex X) (t : Pgm X) : Type 0 where
  pub sorted : IsSorted t.records
  pub counted : t.tombstone_cnt ≡ tombstones t.records
  pub indexed : 0 < length t.records → t.pgm ≡ I.build (keys_of t.records)

module _ {X : Type 0} (I : PgmIndex X) (laws : PgmLaws I) (t : Pgm X) (inv : IsIndexed I t) where
  -- In a shard that a constructor has built and that is not empty, if the index predicts a window
  -- that holds the lower bound of a key, `point_lookup` returns the first position of the record; a
  -- null pointer only if no record is equal to it; and it reads behind the array only if every
  -- record is below the one that is sought.
  pub point_lookup-Locates :
      (rec : Record) → 0 < length t.records → Locates t.records rec (point_lookup I t rec)
  unfolding point_lookup Option.bind
  point_lookup-Locates rec h =
      let r = lower_bound t.records rec.key in
      let split = lower_bound-Splits t.records rec.key inv.sorted in
      rw (get_lower_bound_lem I laws t inv.sorted (inv.indexed h) h rec.key r split) (
        lookup-Locates t.records rec r (one_before t.records rec.key r) inv.sorted split
          (ground arith))

module _ {X : Type 0} (I : PgmIndex X) where
  from_info-IsIndexed :
      {F : Type 0} (info : MergeInfo F)
      → IsSorted info.buffer
      → info.tombstone_count ≡ tombstones info.buffer
      → IsIndexed I (from_info I info)
  unfolding from_info
  from_info-IsIndexed info s c = record {
    sorted = s;
    counted = c;
    indexed = λ h. rw (lt→ltb 0 (length info.buffer) h) refl;
  }

  -- The shards of a merge are built, and none of them is null or empty.
  abbrev pub AllIndexed : List (Option (Pgm X)) → Type 0
  AllIndexed [] = Unit
  AllIndexed (none ∷ ss) = ⊥
  AllIndexed (some t ∷ ss) = IsIndexed I t × (0 < length t.records) × AllIndexed ss

  abbrev pub arrays_of : List (Option (Pgm X)) → List (Option (List Wrapped))
  arrays_of = map (Option.map (λ t. t.records))

  AllIndexed-NoEmpty : (ss : List (Option (Pgm X))) → AllIndexed ss → NoEmpty (arrays_of ss)
  AllIndexed-NoEmpty [] h = tt
  AllIndexed-NoEmpty (none ∷ ss) h = absurd h
  AllIndexed-NoEmpty (some t ∷ ss) h =
      NoEmpty-cons t.records (arrays_of ss) h.1 (AllIndexed-NoEmpty ss h.2)

  AllIndexed-ArraysSorted :
      (ss : List (Option (Pgm X))) → AllIndexed ss → ArraysSorted (arrays_of ss)
  AllIndexed-ArraysSorted [] h = tt
  AllIndexed-ArraysSorted (none ∷ ss) h = absurd h
  AllIndexed-ArraysSorted (some t ∷ ss) h = (h.0.sorted, AllIndexed-ArraysSorted ss h.2)

module _ {X F : Type 0} (I : PgmIndex X) (b : Bloom F) (sort : List Wrapped → List Wrapped)
    (permutes : (xs : List Wrapped) → Perm xs (sort xs))
    (orders : (xs : List Wrapped) → IsOrdered (sort xs)) where
  -- If std::sort permutes and orders its input, the shard that is built from records without delete
  -- tags is sorted and indexed, counts its tombstones, and has the net content of the records.
  pub of_view-IsIndexed :
      (records : List Wrapped)
      → Untagged records
      → IsIndexed I (of_view I b sort records) × SameNet records (of_view I b sort records).records
  unfolding of_view from_info
  of_view-IsIndexed records u = (
    from_info-IsIndexed I (sorted_array_from_bufferview b sort records none)
        (array-IsSorted b sort orders records none) (array-counts b sort records none),
    array-SameNet b sort permutes records none u,
  )

module _ {X Q F : Type 0} (I : PgmIndex X) (P : PriorityQueue Q) (L : QueueLaws P)
    (b : Bloom F) where
  -- Building a shard from shards that are built, neither null nor empty, and without delete tags
  -- ends. The new shard is sorted and indexed, has no delete tags, and has the net content of all.
  pub of_shards-IsIndexed :
      (ss : List (Option (Pgm X)))
      → AllIndexed I ss
      → Untagged (arrays (arrays_of I ss))
      → (t : Pgm X) × (of_shards I P b ss ≡ some t)
        × IsIndexed I t
        × Untagged t.records
        × SameNet (arrays (arrays_of I ss)) t.records
  unfolding of_shards from_info
  of_shards-IsIndexed ss h u =
      let arr = arrays_of I ss in
      let n = AllIndexed-NoEmpty I ss h in
      let (out, e, net, clean, count) = sorted_array_merge-SameNet P L b arr none n u in
      let (out', e', order) =
        sorted_array_merge-IsSorted P L b arr none n (AllIndexed-ArraysSorted I ss h) in
      (
        from_info I out,
        rw e refl,
        from_info-IsIndexed I out (subst (λ i. IsSorted i.buffer) (some_inj.0 (sym e' ∙ e)) order)
            count,
        clean,
        net,
      )
