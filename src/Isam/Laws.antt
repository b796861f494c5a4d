-- ===== src/Isam/Laws.antt =====
-- The framework's interface of a shard (interface/Shard.h), filled by the shards of ISAMTree.h.
use mathlib.Core.Option
use mathlib.Core.List.{Perm}
use dynamic_extension.Base.{
  ℕ, ◌≡◌, ◌+◌, ◌*◌, refl, ap, sym, subst, ◌∙◌, Bool, false, Option, none, some, List, [], ◌∷◌, ◌++◌,
  map, length, arith, get_elem?, Bool-cases, inl, inr, bit_and, set,
}
use dynamic_extension.Base.Bits.{bit_and-two, bit_and-three}
use dynamic_extension.Bloom.{Bloom}
use dynamic_extension.Record.{Record, Wrapped, is_deleted, set_delete}
use dynamic_extension.Record.Net.{SameNet}
use dynamic_extension.Merge.{MergeInfo, emit, keep, scan, sorted_array_from_bufferview}
use dynamic_extension.Merge.Scan.{Untagged, masked}
use dynamic_extension.Merge.Array.{IsOrdered}
use dynamic_extension.Merge.Queue.{PriorityQueue, QueueLaws}
use dynamic_extension.Merge.Loop.{NoEmpty, arrays}
use dynamic_extension.Merge.Merged.{sorted_array_merge-SameNet}
use dynamic_extension.Level.Slots.{Untagged-append}
use dynamic_extension.Shard.{ShardInterface, ShardLaws, all_records, AllLive}
use dynamic_extension.Isam.{
  IsamTree, from_info, of_view, of_shards, get_record_count, get_tombstone_count,
}
use dynamic_extension.Isam.Nodes
use dynamic_extension.Isam.Nodes.{Child, leaf, internal, Entries, nil, entry, build_internal_levels}
use dynamic_extension.Isam.Built.{array_of, NoEmpty-cons, of_view-IsBuilt}

-- A scan without tags leaves none.
is_deleted-mask : (w : Wrapped) → is_deleted (masked w) ≡ is_deleted w
unfolding is_deleted
is_deleted-mask w =
    ground (arith, bit_and-three w.header, bit_and-two w.header, bit_and-two (bit_and w.header 3))

module _ {F : Type 0} (b : Bloom F) where
  keep-Untagged :
      (info : MergeInfo F) (w : Wrapped) → Untagged info.buffer → Untagged (keep b info w).buffer
  unfolding keep emit
  keep-Untagged info w u = elim (Bool-cases (is_deleted w)) [
    | inl e ↦ rw e u
    | inr e ↦ rw e (Untagged-append info.buffer (masked w ∷ []) u (is_deleted-mask w ∙ e, tt))
  ]

  scan-Untagged :
      (info : MergeInfo F) (xs : List Wrapped)
      → Untagged info.buffer
      → Untagged (scan b info xs).buffer
  unfolding scan
  scan-Untagged info [] u = u
  scan-Untagged info (x ∷ []) u = keep-Untagged info x u
  scan-Untagged info (x ∷ y ∷ rest) u = ground (
    arith,
    scan-Untagged info rest u,
    scan-Untagged (keep b info x) (y ∷ rest) (keep-Untagged info x u),
  )

-- The lookup of a shard through the internal levels that its constructor built.
module _ (internal_fanout leaf_fanout : ℕ) where
  unfoldable pub lookup_position : IsamTree → Record → Bool → Option (Option ℕ)
  lookup_position t rec filter =
      Option.bind (build_internal_levels t.records internal_fanout leaf_fanout)
        (λ root. Nodes.point_lookup t.records root rec filter)

  -- A read through a null pointer, and a null pointer that is returned, are both no record here.
  unfoldable pub lookup_record : IsamTree → Record → Bool → Option Wrapped
  lookup_record t rec filter = elim (lookup_position t rec filter) [
    | none ↦ none
    | some none ↦ none
    | some (some pos) ↦ get_elem? t.records pos
  ]

  unfoldable pub tag_record : IsamTree → Record → IsamTree
  tag_record t rec = elim (lookup_position t rec false) [
    | none ↦ t
    | some none ↦ t
    | some (some pos) ↦ elim (get_elem? t.records pos) [
      | none ↦ t
      | some w ↦ record t { records = set t.records pos (set_delete w) }
    ]
  ]

unfoldable mutual
  pub node_count_of : Child → ℕ
  node_count_of (leaf pos) = 0
  node_count_of (internal node) = 1 + node_count node

  pub node_count : Entries → ℕ
  node_count nil = 0
  node_count (entry k c rest) = node_count_of c + node_count rest

-- The internal nodes, the root among them.
abbrev pub memory_usage : ℕ → Option Entries → ℕ
memory_usage node_size none = 0
memory_usage node_size (some root) = (1 + node_count root) * node_size

-- What the framework calls.
module _ {Q F : Type 0} (P : PriorityQueue Q) (b : Bloom F) (sort : List Wrapped → List Wrapped)
    (internal_fanout leaf_fanout node_size : ℕ) where
  abbrev pub isam_shards : ShardInterface IsamTree
  isam_shards = record {
    of_view = of_view b sort;
    of_shards = of_shards P b;
    point_lookup = λ t rec filter buffer. lookup_record internal_fanout leaf_fanout t rec filter;
    tag = tag_record internal_fanout leaf_fanout;
    get_record_count = get_record_count;
    get_tombstone_count = get_tombstone_count;
    get_memory_usage =
        λ t. memory_usage node_size (build_internal_levels t.records internal_fanout leaf_fanout);
    get_aux_memory_usage = λ t. 0;
  }

arrays-records :
    (ss : List (Option IsamTree)) → arrays (map array_of ss) ≡ all_records (λ t. t.records) ss
unfolding all_records
arrays-records [] = refl
arrays-records (none ∷ ss) = arrays-records ss
arrays-records (some t ∷ ss) = ap (λ ws. t.records ++ ws) (arrays-records ss)

AllLive-NoEmpty :
    (ss : List (Option IsamTree)) → AllLive (λ t. t.records) ss → NoEmpty (map array_of ss)
AllLive-NoEmpty [] h = tt
AllLive-NoEmpty (none ∷ ss) h = absurd h
AllLive-NoEmpty (some t ∷ ss) h =
    NoEmpty-cons t.records (map array_of ss) h.0 (AllLive-NoEmpty ss h.1)

module _ {Q F : Type 0} (P : PriorityQueue Q) (L : QueueLaws P) (b : Bloom F)
    (sort : List Wrapped → List Wrapped) (permutes : (xs : List Wrapped) → Perm xs (sort xs))
    (orders : (xs : List Wrapped) → IsOrdered (sort xs))
    (internal_fanout leaf_fanout node_size : ℕ) where
  pub of_view-Untagged : (ws : List Wrapped) → Untagged (of_view b sort ws).records
  unfolding of_view sorted_array_from_bufferview
  of_view-Untagged ws = scan-Untagged b _ (sort ws) tt

  pub of_shards-SameNet :
      (ss : List (Option IsamTree))
      → AllLive (λ t. t.records) ss
      → Untagged (all_records (λ t. t.records) ss)
      → (t : IsamTree) × (of_shards P b ss ≡ some t)
        × SameNet (all_records (λ t. t.records) ss) t.records
        × Untagged t.records
  unfolding of_shards
  of_shards-SameNet ss live u =
      let (out, e, net, clean, count) =
        sorted_array_merge-SameNet P L b (map array_of ss) none (AllLive-NoEmpty ss live)
          (subst Untagged (sym (arrays-records ss)) u) in
      (from_info out, rw e refl, subst (λ t. SameNet t out.buffer) (arrays-records ss) net, clean)

  pub records-count : (t : IsamTree) → get_record_count t ≡ length t.records
  unfolding get_record_count
  records-count t = refl

  abbrev pub isam_laws : ShardLaws (isam_shards P b sort internal_fanout leaf_fanout node_size)
  isam_laws = record {
    contents = λ t. t.records;
    of_view-SameNet = λ ws u. (of_view-IsBuilt b sort permutes orders ws u).1;
    of_view-Untagged = λ ws u. of_view-Untagged ws;
    of_shards-SameNet = λ ss live more u. of_shards-SameNet ss live u;
    count_lem = records-count;
  }
