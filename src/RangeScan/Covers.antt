-- ===== src/RangeScan/Covers.antt =====
-- A range scan (RangeScanIterator.h): the records that are left, and what the heap has of each source.
use dynamic_extension.Base.{
  ℕ, zero, suc, ◌+◌, ◌<◌, ◌≡◌, ◌≢◌, refl, sym, ap, subst, ◌∙◌, false, ◌&&◌, ◌==◌, List, [], ◌∷◌,
  arith, ℕ-cases, inl, inr,
}
use dynamic_extension.Record.{Record, Wrapped, rec_lt}
use dynamic_extension.Record.Net.{bit, sum_by}
use dynamic_extension.RangeScan.{HeapEntry, RangeScanIterator, refill}
use dynamic_extension.RangeScan.Heap.{heap_sum, IsLeast}
use dynamic_extension.RangeScan.Sources.{rest_of, sources, Refilled, refill-Refilled}

-- The record is less than `v`.
abbrev pub below : Record → Wrapped → ℕ
below v w = bit (rec_lt w.rec v)

-- The number of records that are less than one before them.
unfoldable pub disorder : List Wrapped → ℕ
disorder [] = 0
disorder (w ∷ ws) = sum_by (below w.rec) ws + disorder ws

unfoldable pub sum_to : (ℕ → ℕ) → ℕ → ℕ
sum_to g zero = 0
sum_to g (suc n) = sum_to g n + g n

pub sum_to-ext : (g h : ℕ → ℕ) (n : ℕ) → ((j : ℕ) → j < n → h j ≡ g j) → sum_to h n ≡ sum_to g n
unfolding sum_to
sum_to-ext g h zero e = refl
sum_to-ext g h (suc n) e =
    omega (arith, e n (omega arith), sum_to-ext g h n (λ j l. e j (omega arith)))

-- Two functions that differ at `i` only.
sum_to-one :
    (g h : ℕ → ℕ) (i n : ℕ)
    → i < n
    → ((j : ℕ) → j ≢ i → h j ≡ g j)
    → sum_to h n + g i ≡ sum_to g n + h i
unfolding sum_to
sum_to-one g h i zero l e = absurd (omega arith)
sum_to-one g h i (suc n) l e = elim (ℕ-cases i n) [
  | inl x ↦ rw x (omega (arith, sum_to-ext g h n (λ j m. e j (λ y. omega arith))))
  | inr x ↦ omega (arith, sum_to-one g h i n (omega arith) e, e n (λ y. x (sym y)))
]

-- A function summed over the records in the heap and those that the sources have still to give.
unfoldable pub total : (Wrapped → ℕ) → RangeScanIterator → ℕ
total f s = heap_sum (λ e. f e.rec) s.heap + sum_to (λ j. sum_by f (rest_of s j)) (sources s)

abbrev pub entry_from : ℕ → Record → HeapEntry → ℕ
entry_from j v e = bit (e.source == j && rec_lt e.rec.rec v)

-- What the heap has of the source is not greater than what the source has still to give.
abbrev pub Covers : RangeScanIterator → ℕ → Type 0
Covers s j =
    (v : Record) → heap_sum (entry_from j v) s.heap ≡ 0 → sum_by (below v) (rest_of s j) ≡ 0

abbrev pub SortedSources : RangeScanIterator → Type 0
SortedSources s = (j : ℕ) → disorder (rest_of s j) ≡ 0

abbrev pub Good : RangeScanIterator → Type 0
Good s = SortedSources s × ((j : ℕ) → Covers s j)

below_trans : (u v : Record) (w : Wrapped) → rec_lt u v ≡ false → below u w ≡ 0 → below v w ≡ 0
unfolding rec_lt
below_trans u v w h k = ground arith

none_below :
    (u v : Record) (ws : List Wrapped)
    → rec_lt u v ≡ false
    → sum_by (below u) ws ≡ 0
    → sum_by (below v) ws ≡ 0
unfolding sum_by
none_below u v [] h k = refl
none_below u v (w ∷ ws) h k =
    omega (arith, none_below u v ws h (omega arith), below_trans u v w h (omega arith))

pub Refilled-total :
    (f : Wrapped → ℕ) (s s' : RangeScanIterator) (i : ℕ) → Refilled s s' i → total f s' ≡ total f s
unfolding total heap_sum sum_by
Refilled-total f s s' i (Refilled.exhausted r e) = ap (total f) e
Refilled-total f s s' i (Refilled.pushed w ws l r r' o h c) =
    let x =
      sum_to-one (λ j. sum_by f (rest_of s j)) (λ j. sum_by f (rest_of s' j)) i (sources s) l
        (λ j n. ap (sum_by f) (o j n)) in
    omega (
      arith,
      x,
      ap (sum_by f) r,
      ap (sum_by f) r',
      ap (heap_sum (λ e. f e.rec)) h,
      ap (sum_to (λ j. sum_by f (rest_of s' j))) c,
    )

pub Refilled-SortedSources :
    (s s' : RangeScanIterator) (i : ℕ) → Refilled s s' i → SortedSources s → SortedSources s'
unfolding disorder
Refilled-SortedSources s s' i (Refilled.exhausted r e) g j = subst SortedSources (sym e) g j
Refilled-SortedSources s s' i (Refilled.pushed w ws l r r' o h c) g j = elim (ℕ-cases j i) [
  | inl x ↦ rw (x, r') (omega (arith, ap disorder r, g i))
  | inr x ↦ rw (o j x) (g j)
]

-- The source that is refilled is covered, and the others stay so.
pub Refilled-Covers :
    (s s' : RangeScanIterator) (i : ℕ)
    → Refilled s s' i
    → SortedSources s
    → (j : ℕ) → (j ≢ i → Covers s j)
    → Covers s' j
unfolding heap_sum disorder sum_by
Refilled-Covers s s' i (Refilled.exhausted r e) g j k v z = elim (ℕ-cases j i) [
  | inl x ↦ rw (e, x, r) refl
  | inr x ↦ subst (λ t. Covers t j) (sym e) (k x) v z
]
Refilled-Covers s s' i (Refilled.pushed w ws l r r' o h c) g j k v z =
    let y = subst (λ t. heap_sum (entry_from j v) t ≡ 0) h z in
    elim (ℕ-cases j i) [
      | inl x ↦
          rw (x, r') (none_below w.rec v ws (ground arith) (omega (arith, ap disorder r, g i)))
      | inr x ↦ rw (o j x) (k x v (omega arith))
    ]

-- The state once `e` is off the heap, and its source is refilled.
abbrev pub popped : RangeScanIterator → HeapEntry → List HeapEntry → RangeScanIterator
popped s e others = refill (record s { heap = others }) e.source

rest_of-heap :
    (s : RangeScanIterator) (others : List HeapEntry) (j : ℕ)
    → rest_of (record s { heap = others }) j ≡ rest_of s j
unfolding rest_of
rest_of-heap s others zero = refl
rest_of-heap s others (suc j) = refl

total-heap :
    (f : Wrapped → ℕ) (s : RangeScanIterator) (others : List HeapEntry)
    → total f (record s { heap = others }) + heap_sum (λ e. f e.rec) s.heap
      ≡ total f s + heap_sum (λ e. f e.rec) others
unfolding total
total-heap f s others =
    omega (arith, sum_to-ext _ _ (sources s) (λ j _. ap (sum_by f) (rest_of-heap s others j)))

pub total-popped :
    (f : Wrapped → ℕ) (s : RangeScanIterator) (e : HeapEntry) (others : List HeapEntry)
    → IsLeast s.heap e others
    → total f (popped s e others) + f e.rec ≡ total f s
total-popped f s e others l =
    let s1 : RangeScanIterator = record s { heap = others } in
    omega (
      arith,
      Refilled-total f s1 _ e.source (refill-Refilled s1 e.source),
      total-heap f s others,
      l.0 (λ x. f x.rec),
    )

pub Good-popped :
    (s : RangeScanIterator) (e : HeapEntry) (others : List HeapEntry)
    → IsLeast s.heap e others
    → Good s
    → Good (popped s e others)
Good-popped s e others l (o, c) =
    let s1 : RangeScanIterator = record s { heap = others } in
    let r = refill-Refilled s1 e.source in
    let o1 : SortedSources s1 = λ j. rw (rest_of-heap s others j) (o j) in
    (
      Refilled-SortedSources s1 _ e.source r o1,
      λ j.
          Refilled-Covers s1 _ e.source r o1 j
            (λ n v h. rw (rest_of-heap s others j) (c j v (l.0 (entry_from j v) ∙ ground arith))),
    )
