-- ===== src/Merge/Within.antt =====
-- What the merge (SortedMerge.h) writes comes from the arrays.
use dynamic_extension.Base.{
  ℕ, ◌+◌, ◌≡◌, refl, ap, ◌∙◌, Option, some, List, arith, Bool-cases, inl, inr,
}
use dynamic_extension.Bloom.{Bloom}
use dynamic_extension.Record.{Wrapped, is_deleted}
use dynamic_extension.Record.Net.{sum_by}
use dynamic_extension.Merge.{MergeInfo, emit}
use dynamic_extension.Merge.Queue.{PriorityQueue, QueueLaws}
use dynamic_extension.Merge.Cursors.{MergeState, sum_rests, build_cursor_vec, sorted_array_merge}
use dynamic_extension.Merge.Rounds.{Round}
use dynamic_extension.Merge.Loop.{NoEmpty, arrays, sorted_array_merge-ends}
use dynamic_extension.Merge.Merged.{emit-sum, sum_rests-build_cursor_vec}

module _ {Q F : Type 0} (P : PriorityQueue Q) (L : QueueLaws P) (b : Bloom F)
    (f : Wrapped → ℕ) where
  -- Nothing that `f` counts is written or to come.
  abbrev Free : MergeState Q F → Type 0
  Free s = sum_by f s.info.buffer + sum_rests (sum_by f) s.cursors ≡ 0

  Free-Round : (s s' : MergeState Q F) → Free s → Round P L b s s' → Free s'
  unfolding sum_by
  Free-Round s s' h (Round.wrote w _ (ws, g) e) = elim (Bool-cases (is_deleted w)) [
    | inl d ↦
        let same : s'.info ≡ s.info = e ∙ rw d refl in
        omega (arith, g (sum_by f), ap (λ t. sum_by f t.buffer) same)
    | inr d ↦
        let more : s'.info ≡ emit b s.info w = e ∙ rw d refl in
        omega (arith, g (sum_by f), emit-sum P L b f s.info w, ap (λ t. sum_by f t.buffer) more)
  ]
  Free-Round s s' h (Round.skipped x y mid c (us, g) (vs, k) e) =
      omega (arith, g (sum_by f), k (sum_by f), ap (λ t. sum_by f t.buffer) e)

  -- If `f` counts nothing in the arrays, it counts nothing in the merged array.
  pub sorted_array_merge-free :
      (ss : List (Option (List Wrapped))) (bf : Option F)
      → NoEmpty ss
      → sum_by f (arrays ss) ≡ 0
      → (out : MergeInfo F) × (sorted_array_merge P b (build_cursor_vec ss) bf ≡ some out)
        × (sum_by f out.buffer ≡ 0)
  unfolding sum_by
  sorted_array_merge-free ss bf n u =
      let (s, e, h, z) =
        sorted_array_merge-ends P L b {I = Free} (λ s s' _. Free-Round s s') ss bf n
          (λ q. omega (arith, sum_rests-build_cursor_vec f ss)) in
      (s.info, e, omega arith)
