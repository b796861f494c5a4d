-- ===== src/RangeScan/Start.antt =====
-- The constructor of a range scan (RangeScanIterator.h), and all that the scan returns.
use mathlib.Core.List.{Perm}
use dynamic_extension.Base.{
  ℕ, zero, suc, ◌+◌, ◌-◌, ◌≤◌, ◌<◌, ◌≡◌, refl, ap, ◌∙◌, some, List, arith, inl, inr, length,
}
use dynamic_extension.Record.{Record, Wrapped}
use dynamic_extension.Record.Net.{sum_by, sum_by-append, sum_by-Perm, erasure_of}
use dynamic_extension.Merge.Array.{IsSorted}
use dynamic_extension.RangeScan.{
  Iterator, RangeScanIterator, refill, refill_from, unfilled, make_scan, results, buffer_range,
}
use dynamic_extension.RangeScan.Heap.{heap_sum}
use dynamic_extension.RangeScan.Sources.{rest_of, sources, Refilled, refill-Refilled}
use dynamic_extension.RangeScan.Covers.{
  sum_to, total, Covers, SortedSources, Good, Refilled-total, Refilled-SortedSources,
  Refilled-Covers,
}
use dynamic_extension.RangeScan.Groups.{live_of}
use dynamic_extension.RangeScan.Advance.{advance-Advanced}
use dynamic_extension.RangeScan.Results.{count, IsAscending, results-content, Advanced-Ready}
use dynamic_extension.RangeScan.Input.{
  iter_records, scanned, AllSorted, IsSorted→disorder, shard_rest, shard_rest-sorted, sum_to-shift,
  sum_to-shard_rest, lt-cases, rest_of-beyond,
}

-- What the loop of `refill` keeps, and what it comes to.
pub record Filled (s s' : RangeScanIterator) (i : ℕ) : Type 0 where
  pub sorted : SortedSources s'
  pub covered : (j : ℕ) → j < i → Covers s' j
  pub same : (f : Wrapped → ℕ) → total f s' ≡ total f s
  pub count : sources s' ≡ sources s

Refilled-sources : (s s' : RangeScanIterator) (i : ℕ) → Refilled s s' i → sources s' ≡ sources s
Refilled-sources s s' i (Refilled.exhausted r e) = ap sources e
Refilled-sources s s' i (Refilled.pushed w ws l r r' o h c) = c

pub refill_from-Filled :
    (n i : ℕ) (s0 s : RangeScanIterator) → Filled s0 s i → Filled s0 (refill_from s i n) (i + n)
unfolding refill_from
refill_from-Filled zero i s0 s g = record {
  sorted = g.sorted;
  covered = λ j h. g.covered j (omega arith);
  same = g.same;
  count = g.count;
}
refill_from-Filled (suc n) i s0 s g =
    let r = refill-Refilled s i in
    let t = refill_from-Filled n (i + 1) s0 (refill s i) (record {
      sorted = Refilled-SortedSources s (refill s i) i r g.sorted;
      covered =
          λ j h. Refilled-Covers s (refill s i) i r g.sorted j (λ x. g.covered j (omega arith));
      same = λ f. Refilled-total f s (refill s i) i r ∙ g.same f;
      count = Refilled-sources s (refill s i) i r ∙ g.count;
    }) in
    record {
      sorted = t.sorted;
      covered = λ j h. t.covered j (omega arith);
      same = t.same;
      count = t.count;
    }

pub Covers-beyond : (s : RangeScanIterator) (j : ℕ) → sources s ≤ j → Covers s j
unfolding sum_by
Covers-beyond s j h v _ = rw (rest_of-beyond s j h) refl

module _ (sort : List Wrapped → List Wrapped) (permutes : (ws : List Wrapped) → Perm ws (sort ws))
    (orders : (ws : List Wrapped) → IsSorted (sort ws)) where
  unfilled-total :
      (f : Wrapped → ℕ) (start finish : Record) (view : List Wrapped) (iters : List Iterator)
      → total f (unfilled sort start finish view iters) ≡ sum_by f (scanned start finish view iters)
  unfolding total unfilled heap_sum rest_of
  unfilled-total f start finish view iters =
      let xs = buffer_range start.key finish.key view in
      let s = unfilled sort start finish view iters in
      let x : sum_to (λ j. sum_by f (rest_of s j)) (suc (length iters))
          ≡ sum_by f (sort xs)
            + sum_to (λ j. sum_by f (shard_rest finish.key iters j)) (length iters) =
        sum_to-shift (λ j. sum_by f (rest_of s j)) (length iters) in
      omega (
        arith,
        x,
        sum_to-shard_rest f finish.key iters,
        sum_by-append f xs (iter_records finish.key iters),
        sum_by-Perm f xs (sort xs) (permutes xs),
      )

  unfilled-sorted :
      (start finish : Record) (view : List Wrapped) (iters : List Iterator)
      → AllSorted iters
      → SortedSources (unfilled sort start finish view iters)
  unfolding unfilled rest_of
  unfilled-sorted start finish view iters h zero = IsSorted→disorder _ (orders _)
  unfilled-sorted start finish view iters h (suc j) = shard_rest-sorted finish.key iters j h

  unfilled-sources :
      (start finish : Record) (view : List Wrapped) (iters : List Iterator)
      → sources (unfilled sort start finish view iters) ≡ suc (length iters)
  unfolding unfilled
  unfilled-sources start finish view iters = refl

  filled-Good :
      (start finish : Record) (view : List Wrapped) (iters : List Iterator)
      → AllSorted iters
      → Good (refill_from (unfilled sort start finish view iters) 0 (suc (length iters)))
        × ((f : Wrapped → ℕ)
            → total f (refill_from (unfilled sort start finish view iters) 0 (suc (length iters)))
              ≡ sum_by f (scanned start finish view iters))
  filled-Good start finish view iters h =
      let u = unfilled sort start finish view iters in
      let n = suc (length iters) in
      let g = refill_from-Filled n 0 u u (record {
        sorted = unfilled-sorted start finish view iters h;
        covered = λ j l. absurd (omega arith);
        same = λ f. refl;
        count = refl;
      }) in
      (
        (
          g.sorted,
          λ j. elim (lt-cases j n) [
            | inl l ↦ g.covered j (omega arith)
            | inr l ↦
                Covers-beyond (refill_from u 0 n) j
                  (omega (arith, g.count, unfilled-sources start finish view iters))
          ],
        ),
        λ f. g.same f ∙ unfilled-total f start finish view iters,
      )

  -- If std::sort permutes and orders its input, the iterators of the shards give their records in
  -- order, and there is fuel for the records of the scan, then the constructor ends, the calls of
  -- `next` end, and they return records in ascending order, each as often as the buffer and the
  -- shards insert it untagged in the range, less how often they erase it.
  pub scan-content :
      (m : ℕ) (start finish : Record) (view : List Wrapped) (iters : List Iterator)
      → AllSorted iters
      → sum_by (λ _. 1) (scanned start finish view iters) < m
      → (s : RangeScanIterator) × (rs : List Record) × (make_scan m sort start finish view iters
          ≡ some s)
        × (results m m s ≡ some rs)
        × IsAscending rs
        × ((r : Record)
            → count r rs
              ≡ sum_by (live_of r) (scanned start finish view iters)
                - sum_by (erasure_of r) (scanned start finish view iters))
  unfolding make_scan
  scan-content m start finish view iters h l =
      let (g, t) = filled-Good start finish view iters h in
      let (s, a, v) =
        advance-Advanced m m _ g (omega (arith, t (λ _. 1))) (omega (arith, t (λ _. 1))) in
      let (rs, e, o, _, c) =
        results-content m m s (Advanced-Ready _ s v) (omega (arith, v.fewer (λ _. 1), t (λ _. 1)))
          (omega (arith, v.within, t (λ _. 1))) in
      (s, rs, a, e, o, λ r. omega (arith, c r, v.content r, t (live_of r), t (erasure_of r)))
