-- ===== src/External/Merged.antt =====
-- The whole merge of the runs (ExternalISAMTree.h).
use mathlib.Core.Option
use dynamic_extension.Base.{
  ℕ, zero, suc, ◌+◌, ◌<◌, ◌≡◌, refl, sym, ap, subst, ◌∙◌, some, List, [], map, arith, inl, inr,
  length,
}
use dynamic_extension.Base.Words.{sub64, size_mod}
use dynamic_extension.Record.{Wrapped}
use dynamic_extension.Record.Net.{
  SameNet, tombstone_of, sum_by, length-sum_by, tombstones, insert_of, erasure_of,
}
use dynamic_extension.Merge.Disorder
use dynamic_extension.RangeScan.{HeapEntry, refill_from}
use dynamic_extension.RangeScan.Heap.{heap_sum}
use dynamic_extension.RangeScan.Sources.{rest_of, sources}
use dynamic_extension.RangeScan.Covers.{disorder, total, Good, Covers, SortedSources}
use dynamic_extension.RangeScan.Input.{shard_rest-sorted, sum_to-shift, sum_to-shard_rest, lt-cases}
use dynamic_extension.RangeScan.Start.{Filled, refill_from-Filled, Covers-beyond}
use mathlib.Core.Option.{some_inj, none-ne-some}
use dynamic_extension.Base.{Option-cases}
use dynamic_extension.External.{
  Run, Stored, push_first, merge_loop, close_merge, external_merge_sort,
}
use dynamic_extension.External.Pages.{joined}
use dynamic_extension.External.Pull.{as_iter, as_scan, length-map, left}
use dynamic_extension.External.Runs.{AllRuns}
use dynamic_extension.External.Rounds.{Keeps}
use dynamic_extension.External.Loop.{IsStored, merge_loop-ends, close_merge-IsStored}
use dynamic_extension.External.Start.{
  push_first-Pushed, AllNew, AllNew-Fresh, AllNew-AllRuns, AllNew-AllSorted, iter_records-runs,
  run_records, record_key,
}

module _ (n k : ℕ) (runs : List Run) (new : AllNew n runs) (all : AllRuns n k runs) where
  start-sorted : SortedSources (as_scan k runs [])
  unfolding rest_of as_scan disorder
  start-sorted zero = refl
  start-sorted (suc j) = shard_rest-sorted k (map as_iter runs) j (AllNew-AllSorted n runs new)

  start-total : (f : Wrapped → ℕ) → total f (as_scan k runs []) ≡ sum_by f (run_records runs)
  unfolding total as_scan heap_sum rest_of sum_by
  start-total f = omega (
    arith,
    sum_to-shift (λ j. sum_by f (rest_of (as_scan k runs []) j)) (length (map as_iter runs)),
    sum_to-shard_rest f k (map as_iter runs),
    ap (sum_by f) (iter_records-runs n k runs new all),
  )

  start-sources : sources (as_scan k runs []) ≡ suc (length runs)
  unfolding as_scan
  start-sources = ap suc (length-map runs)

  start-covered : (j : ℕ) → j < 1 → Covers (as_scan k runs []) j
  unfolding rest_of as_scan sum_by
  start-covered zero l v z = refl
  start-covered (suc j) l v z = absurd (omega arith)

  start-Filled :
      Filled (as_scan k runs []) (refill_from (as_scan k runs []) 1 (length runs)) (1 + length runs)
  start-Filled =
      refill_from-Filled (length runs) 1 (as_scan k runs []) (as_scan k runs [])
        (record { sorted = start-sorted; covered = start-covered; same = λ f. refl; count = refl })

  start-Good : Good (refill_from (as_scan k runs []) 1 (length runs))
  start-Good = (
    start-Filled.sorted,
    λ j. elim (lt-cases j (1 + length runs)) [
      | inl l ↦ start-Filled.covered j l
      | inr l ↦
          Covers-beyond (refill_from (as_scan k runs []) 1 (length runs)) j
            (omega (arith, start-Filled.count, start-sources))
    ],
  )

  -- The first loop leaves the invariant of the second.
  start-Keeps :
      0 < n
      → (runs' : List Run) × (heap' : List HeapEntry) × (push_first n runs [] 0 (length runs)
          ≡ some (runs', heap'))
        × Keeps n k
            (run_records runs)
            (record { runs = runs'; heap = heap'; written = []; page = []; cancelled = 0 })
        × (left k (λ _. 1) runs' heap' ≡ sum_by (λ _. 1) (run_records runs))
  unfolding joined sum_by heap_sum Disorder.disorder
  start-Keeps pos =
      let (runs', heap', ends, p) =
        push_first-Pushed n k (length runs) 0 runs [] pos all (AllNew-Fresh n runs new)
          (omega arith) in
      let same : as_scan k runs' heap' ≡ refill_from (as_scan k runs []) 1 (length runs) = p.same in
      let whole : (f : Wrapped → ℕ) → left k f runs' heap' ≡ sum_by f (run_records runs) =
        λ f. ap (total f) same ∙ start-Filled.same f ∙ start-total f in
      (
        runs',
        heap',
        ends,
        record {
          merging = record {
            runs_lem = p.runs_lem;
            good = subst Good (sym same) start-Good;
            named = rw p.count (p.named refl);
          };
          full = tt;
          fits = omega arith;
          begun = λ e. refl;
          sorted = refl;
          apart = refl;
          counted = omega (arith, whole (λ _. 1));
          tombs = omega (arith, whole tombstone_of);
          balance = λ r. omega (arith, whole (insert_of r), whole (erasure_of r));
        },
        whole (λ _. 1),
      )

-- The merge of runs that were not read from, each of which has some records in order, ends if there
-- is fuel for the records and their number is a size_t. It reads inside of the pages, and writes a
-- sorted shard with exact figures and the net content of the runs.
-- The merge does not read the count of tombstones; it only takes those off that are cancelled.
pub external_merge_sort-any_count :
    (n fuel : ℕ) (runs : List Run) (reccnt count : ℕ) (t : Stored)
    → external_merge_sort n fuel runs reccnt count ≡ some t
    → (c : ℕ) × (t.tombstone_cnt ≡ sub64 count c)
      × ((other : ℕ)
          → external_merge_sort n fuel runs reccnt other
            ≡ some (record t { tombstone_cnt = sub64 other c }))
unfolding external_merge_sort Option.bind close_merge
external_merge_sort-any_count n fuel runs reccnt count t h =
    elim (Option-cases (push_first n runs [] 0 (length runs))) [
      | inl e ↦ absurd (none-ne-some t (rw e at h))
      | inr ((runs', heap), e) ↦
          elim (Option-cases (
            merge_loop n fuel
              (record { runs = runs'; heap = heap; written = []; page = []; cancelled = 0 }))) [
                | inl e' ↦ absurd (none-ne-some t (rw (e, e') at h))
                | inr (s, e') ↦
                    let same = some_inj.0 (rw (e, e') at h) in
                    (
                      s.cancelled,
                      sym (ap (λ x. x.tombstone_cnt) same),
                      λ other.
                          rw (e, e')
                            (ap
                              (λ (x : Stored).
                                some (record x { tombstone_cnt = sub64 other s.cancelled }))
                              same),
                    )
              ]
    ]

pub external_merge_sort-IsStored :
    (n fuel : ℕ) (runs : List Run)
    → 0 < n
    → AllNew n runs
    → length (run_records runs) < fuel
    → length (run_records runs) < size_mod
    → (t : Stored) × (external_merge_sort n fuel runs
          (length (run_records runs))
          (tombstones (run_records runs))
        ≡ some t)
      × IsStored n t
      × SameNet (run_records runs) (joined t.pages)
unfolding external_merge_sort Option.bind
external_merge_sort-IsStored n fuel runs pos new enough small =
    let k = sum_by record_key (run_records runs) in
    let all = AllNew-AllRuns n k runs new (omega arith) in
    let (runs', heap', pushes, g, whole) = start-Keeps n k runs new all pos in
    let (s, ends, g', gone) =
      merge_loop-ends n k (run_records runs) fuel _ pos g
        (omega (arith, whole, length-sum_by (run_records runs))) in
    let (stored, net) = close_merge-IsStored n k (run_records runs) s g' gone small in
    (_, rw (pushes, ends) refl, stored, net)
