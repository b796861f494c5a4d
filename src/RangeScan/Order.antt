-- ===== src/RangeScan/Order.antt =====
-- The heap of a range scan (RangeScanIterator.h) holds a least record of every source that has more.
use dynamic_extension.Base.{ℕ, zero, suc, ◌+◌, ◌≤◌, ◌≡◌, refl, ap, List, [], ◌∷◌, arith}
use dynamic_extension.Record.{Record, Wrapped, rec_lt}
use dynamic_extension.Record.Net.{sum_by}
use dynamic_extension.RangeScan.{HeapEntry, RangeScanIterator}
use dynamic_extension.RangeScan.Heap.{heap_sum, heap_sum_mono, entry_below, IsLeast}
use dynamic_extension.RangeScan.Sources.{rest_of, sources}
use dynamic_extension.RangeScan.Covers.{below, sum_to, sum_to-ext, total, entry_from, Good}

sum_to_mono : (g h : ℕ → ℕ) (n : ℕ) → ((j : ℕ) → g j ≤ h j) → sum_to g n ≤ sum_to h n
unfolding sum_to
sum_to_mono g h zero e = omega arith
sum_to_mono g h (suc n) e = omega (arith, e n, sum_to_mono g h n e)

pub sum_by_mono :
    (f g : Wrapped → ℕ)
    → ((w : Wrapped) → f w ≤ g w)
    → (ws : List Wrapped) → sum_by f ws ≤ sum_by g ws
unfolding sum_by
sum_by_mono f g h [] = omega arith
sum_by_mono f g h (w ∷ ws) = omega (arith, h w, sum_by_mono f g h ws)

pub total_mono :
    (f g : Wrapped → ℕ)
    → ((w : Wrapped) → f w ≤ g w)
    → (s : RangeScanIterator) → total f s ≤ total g s
unfolding total
total_mono f g h s = omega (
  arith,
  heap_sum_mono (λ e. f e.rec) (λ e. g e.rec) (λ e. h e.rec) s.heap,
  sum_to_mono _ _ (sources s) (λ j. sum_by_mono f g h (rest_of s j)),
)

sum_to-zero : (g : ℕ → ℕ) (n : ℕ) → ((j : ℕ) → g j ≡ 0) → sum_to g n ≡ 0
unfolding sum_to
sum_to-zero g zero h = refl
sum_to-zero g (suc n) h = omega (arith, h n, sum_to-zero g n h)

-- No record is less than the first of the heap.
pub Good-least :
    (s : RangeScanIterator) (e : HeapEntry) (others : List HeapEntry)
    → Good s
    → IsLeast s.heap e others
    → total (below e.rec.rec) s ≡ 0
unfolding total
Good-least s e others (o, c) l = omega (
  arith,
  l.1,
  sum_to-zero _ (sources s) (λ j. c j e.rec.rec (
      omega (
        arith,
        l.1,
        heap_sum_mono (entry_from j e.rec.rec) (entry_below e.rec.rec) (λ x. ground arith) s.heap,
      ))),
)

all_none_below : (ws : List Wrapped) → ((v : Record) → sum_by (below v) ws ≡ 0) → ws ≡ []
unfolding sum_by rec_lt
all_none_below [] h = refl
all_none_below (w ∷ ws) h = absurd (ground (arith, h (record { key = w.rec.key + 1; value = 0 })))

-- If the heap is empty, no record is left.
pub Good-empty : (s : RangeScanIterator) → Good s → s.heap ≡ [] → (f : Wrapped → ℕ) → total f s ≡ 0
unfolding total heap_sum sum_by
Good-empty s (o, c) h f = omega (
  arith,
  ap (heap_sum (λ e. f e.rec)) h,
  sum_to-zero (λ j. sum_by f (rest_of s j)) (sources s)
      (λ j. rw (all_none_below (rest_of s j) (λ v. c j v (ap (heap_sum (entry_from j v)) h))) refl),
)

-- The current record and the number of copies have no part in this.
rest_of-shown :
    (s : RangeScanIterator) (r : Record) (n : ℕ) (j : ℕ)
    → rest_of (record s { current = r; pending = n }) j ≡ rest_of s j
unfolding rest_of
rest_of-shown s r n zero = refl
rest_of-shown s r n (suc j) = refl

pub total-shown :
    (f : Wrapped → ℕ) (s : RangeScanIterator) (r : Record) (n : ℕ)
    → total f (record s { current = r; pending = n }) ≡ total f s
unfolding total
total-shown f s r n =
    omega (arith, sum_to-ext _ _ (sources s) (λ j _. ap (sum_by f) (rest_of-shown s r n j)))

pub Good-shown :
    (s : RangeScanIterator) (r : Record) (n : ℕ)
    → Good s
    → Good (record s { current = r; pending = n })
Good-shown s r n (o, c) =
    (λ j. rw (rest_of-shown s r n j) (o j), λ j v h. rw (rest_of-shown s r n j) (c j v h))
