-- ===== src/Merge/Ordered.antt =====
-- The array that `sorted_array_merge` (SortedMerge.h) leaves is sorted.
use dynamic_extension.Base.{
  ◌≡◌, refl, ap, ◌∙◌, Option, some, List, [], ◌∷◌, ◌++◌, arith, Bool-cases, inl, inr,
}
use dynamic_extension.Bloom.{Bloom}
use dynamic_extension.Record.{Wrapped, is_deleted}
use dynamic_extension.Record.Net.{sum_by, sum_by-append}
use dynamic_extension.Merge.{MergeInfo, emit}
use dynamic_extension.Merge.Array.{IsSorted}
use dynamic_extension.Merge.Queue.{PriorityQueue, QueueLaws, NoneLess}
use dynamic_extension.Merge.Cursors.{MergeState, sum_rests, build_cursor_vec, sorted_array_merge}
use dynamic_extension.Merge.Heads.{sum_of, heads_sum}
use dynamic_extension.Merge.Rounds.{InStep, Round, Taken}
use dynamic_extension.Merge.Loop.{NoEmpty, sorted_array_merge-ends}
use dynamic_extension.Merge.Disorder.{
  below, disorder, disorder→IsSorted, disorder-snoc, heads-none_below, NoneLess→sum_of,
  ArraysSorted, disorder-build_cursor_vec, to_come_below, Taken-below, Taken-disorder,
}

module _ {Q F : Type 0} (P : PriorityQueue Q) (L : QueueLaws P) (b : Bloom F) where
  -- The arrays are sorted, the records written are, and no record to come is less than one of them.
  abbrev Sorted : MergeState Q F → Type 0
  Sorted s =
      (sum_rests disorder s.cursors ≡ 0)
      × (disorder s.info.buffer ≡ 0)
      × (to_come_below s.cursors s.info.buffer ≡ 0)

  -- No record to come is less than the first of the queue.
  least_last :
      (s s' : MergeState Q F) (w : Wrapped)
      → InStep P L b s
      → NoneLess w (L.entries s.pq)
      → Taken w s.cursors s'.cursors
      → sum_rests disorder s.cursors ≡ 0
      → sum_rests (sum_by (below w)) s'.cursors ≡ 0
  unfolding sum_of sum_by
  least_last s s' w (k, _) m (ws, g) d =
      let h : heads_sum (λ e. below w e.data_at) 0 s.cursors ≡ 0 =
        omega (arith, k (λ e. below w e.data_at), NoneLess→sum_of w (L.entries s.pq) m) in
      omega (arith, g (sum_by (below w)), heads-none_below w 0 s.cursors h d)

  Sorted-Round : (s s' : MergeState Q F) → InStep P L b s → Sorted s → Round P L b s s' → Sorted s'
  unfolding emit sum_by
  Sorted-Round s s' k (d, o, z) (Round.wrote w m t e) = elim (Bool-cases (is_deleted w)) [
    | inl x ↦
        let e' = rw x at e in
        (
          Taken-disorder w _ _ t d,
          ap (λ i. disorder i.buffer) e' ∙ o,
          omega (
            arith,
            ap (λ i. to_come_below s'.cursors i.buffer) e',
            Taken-below w _ _ s.info.buffer t,
          ),
        )
    | inr x ↦
        let e' : s'.info.buffer ≡ s.info.buffer ++ (w ∷ []) = ap (λ i. i.buffer) (rw x at e) in
        (
          Taken-disorder w _ _ t d,
          omega (
            arith,
            ap disorder e',
            disorder-snoc s.info.buffer w,
            Taken-below w _ _ s.info.buffer t,
          ),
          omega (
            arith,
            ap (to_come_below s'.cursors) e',
            sum_by-append (λ v. sum_rests (sum_by (below v)) s'.cursors) s.info.buffer (w ∷ []),
            least_last s s' w k m t d,
            Taken-below w _ _ s.info.buffer t,
          ),
        )
  ]
  Sorted-Round s s' k (d, o, z) (Round.skipped x y mid c t u e) = (
    Taken-disorder y _ _ u (Taken-disorder x _ _ t d),
    ap (λ i. disorder i.buffer) e ∙ o,
    omega (
      arith,
      ap (λ i. to_come_below s'.cursors i.buffer) e,
      Taken-below x _ _ s.info.buffer t,
      Taken-below y _ _ s.info.buffer u,
    ),
  )

  -- Merging sorted nonempty arrays leaves a sorted one.
  pub sorted_array_merge-IsSorted :
      (shards : List (Option (List Wrapped))) (bf : Option F)
      → NoEmpty shards
      → ArraysSorted shards
      → (out : MergeInfo F) × (sorted_array_merge P b (build_cursor_vec shards) bf ≡ some out)
        × IsSorted out.buffer
  unfolding sum_by disorder
  sorted_array_merge-IsSorted shards bf n a =
      let (s, e, i, _) =
        sorted_array_merge-ends P L b {I = Sorted} Sorted-Round shards bf n
          (λ q. (disorder-build_cursor_vec shards a, refl, refl)) in
      (s.info, e, disorder→IsSorted s.info.buffer i.1)
