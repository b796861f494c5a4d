-- ===== src/RangeScan/Outcome.antt =====
-- What a round of `advance` (RangeScanIterator.h) does to an iterator.
use dynamic_extension.Base.{
  ℕ, ◌+◌, ◌-◌, ◌≤◌, ◌<◌, ◌≡◌, refl, subst, ◌∙◌, false, List, [], arith, Bool-cases, inl, inr,
  if◌then◌else◌,
}
use dynamic_extension.Record.{Record, Wrapped, rec_lt, rec_eq}
use dynamic_extension.Record.Net.{sum_by, erasure_of}
use dynamic_extension.Record.Order.{rec_eq_iff}
use dynamic_extension.RangeScan.{HeapEntry, RangeScanIterator}
use dynamic_extension.RangeScan.Heap.{IsLeast}
use dynamic_extension.RangeScan.Covers.{total, Good, total-popped}
use dynamic_extension.RangeScan.Order.{total_mono, sum_by_mono, Good-empty, total-shown, Good-shown}
use dynamic_extension.RangeScan.Groups.{live_of, is, is_other, not_above, Grouped}

-- How often the records that are left insert `r`, less how often they erase it.
abbrev pub net : Record → RangeScanIterator → ℕ
net r s = total (live_of r) s - total (erasure_of r) s

-- How often the iterator is going to return `r` before it advances.
abbrev pub shown : Record → RangeScanIterator → ℕ
shown r s = if rec_eq s.current r then s.pending else 0

-- What `advance` makes of an iterator.
pub record Advanced (s s' : RangeScanIterator) : Type 0 where
  pub good : Good s'
  pub content : (r : Record) → shown r s' + net r s' ≡ net r s
  pub fewer : (f : Wrapped → ℕ) → total f s' ≤ total f s
  pub ended : s'.pending ≡ 0 → total (λ _. 1) s' ≡ 0
  pub above : 0 < s'.pending → total (not_above s'.current) s' ≡ 0
  pub within : s'.pending + total (λ _. 1) s' ≤ total (λ _. 1) s
  pub from :
      0 < s'.pending → (w : Wrapped) × (s'.current ≡ w.rec) × ((f : Wrapped → ℕ) → f w ≤ total f s)

live-other : (r x : Record) (w : Wrapped) → rec_eq r x ≡ false → live_of x w ≤ is_other r w
unfolding rec_eq
live-other r x w h = ground arith

erasure-other : (r x : Record) (w : Wrapped) → rec_eq r x ≡ false → erasure_of x w ≤ is_other r w
unfolding rec_eq
erasure-other r x w h = ground arith

live-not_above : (r : Record) (w : Wrapped) → live_of r w ≤ not_above r w
unfolding rec_eq rec_lt
live-not_above r w = ground arith

erasure-not_above : (r : Record) (w : Wrapped) → erasure_of r w ≤ not_above r w
unfolding rec_eq rec_lt
erasure-not_above r w = ground arith

abbrev pub balance : Record → List Wrapped → ℕ
balance r group = sum_by (live_of r) group - sum_by (erasure_of r) group

Grouped-net_self :
    (r : Record) (s s' : RangeScanIterator) (group : List Wrapped)
    → Grouped r s s' group
    → balance r group + net r s' ≡ net r s
Grouped-net_self r s s' group g = omega (
  arith,
  g.taken (live_of r),
  g.taken (erasure_of r),
  g.above,
  total_mono (live_of r) (not_above r) (live-not_above r) s',
  total_mono (erasure_of r) (not_above r) (erasure-not_above r) s',
)

Grouped-net_other :
    (r x : Record) (s s' : RangeScanIterator) (group : List Wrapped)
    → Grouped r s s' group
    → rec_eq r x ≡ false
    → net x s' ≡ net x s
Grouped-net_other r x s s' group g h = omega (
  arith,
  g.taken (live_of x),
  g.taken (erasure_of x),
  g.no_other,
  sum_by_mono (live_of x) (is_other r) (λ w. live-other r x w h) group,
  sum_by_mono (erasure_of x) (is_other r) (λ w. erasure-other r x w h) group,
)

-- The group of `r` accounts for what is no longer left.
Grouped-net :
    (r x : Record) (s s' : RangeScanIterator) (group : List Wrapped)
    → Grouped r s s' group
    → (if rec_eq r x then balance r group else 0) + net x s' ≡ net x s
Grouped-net r x s s' group g = elim (Bool-cases (rec_eq r x)) [
  | inl h ↦ rw h (
      subst (λ t. balance r group + net t s' ≡ net t s) ((rec_eq_iff r x).0 h)
        (Grouped-net_self r s s' group g))
  | inr h ↦ rw h (omega (arith, Grouped-net_other r x s s' group g h))
]

is-not_above : (r : Record) (w : Wrapped) → is r w ≤ not_above r w
unfolding rec_eq rec_lt
is-not_above r w = ground arith

is_self : (w : Wrapped) → is w.rec w ≡ 1
unfolding rec_eq
is_self w = ground arith

-- The group of the first record is not empty.
pub Grouped-fewer :
    (s s' : RangeScanIterator) (e : HeapEntry) (others : List HeapEntry) (group : List Wrapped)
    → IsLeast s.heap e others
    → Grouped e.rec.rec s s' group
    → total (λ _. 1) s' < total (λ _. 1) s
unfolding rec_eq
Grouped-fewer s s' e others group l g =
    let r = e.rec.rec in
    omega (
      arith,
      total-popped (is r) s e others l,
      is_self e.rec,
      g.taken (is r),
      g.taken (λ _. 1),
      g.above,
      total_mono (is r) (not_above r) (is-not_above r) s',
      sum_by_mono (is r) (λ _. 1) (λ w. ground arith) group,
    )

pub Advanced-empty :
    (s : RangeScanIterator) → Good s → s.heap ≡ [] → Advanced s (record s { pending = 0 })
Advanced-empty s g h = record {
  good = Good-shown s s.current 0 g;
  content = λ r.
      ground
        (arith, total-shown (live_of r) s s.current 0, total-shown (erasure_of r) s s.current 0);
  fewer = λ f. omega (arith, total-shown f s s.current 0);
  ended = λ _. omega (arith, total-shown (λ _. 1) s s.current 0, Good-empty s g h (λ _. 1));
  above = λ l. absurd (omega arith);
  within = omega (arith, total-shown (λ _. 1) s s.current 0);
  from = λ l. absurd (omega arith);
}

pub Advanced-shown :
    (s s' : RangeScanIterator) (e : HeapEntry) (others : List HeapEntry) (group : List Wrapped)
    → IsLeast s.heap e others
    → Grouped e.rec.rec s s' group
    → 0 < balance e.rec.rec group
    → Advanced s (record s' { current = e.rec.rec; pending = balance e.rec.rec group })
Advanced-shown s s' e others group l g p =
    let r = e.rec.rec in
    let n = balance r group in
    record {
      good = Good-shown s' r n g.good;
      content = λ x. omega (
        arith,
        Grouped-net r x s s' group g,
        total-shown (live_of x) s' r n,
        total-shown (erasure_of x) s' r n,
      );
      fewer = λ f. omega (arith, g.taken f, total-shown f s' r n);
      ended = λ z. absurd (omega arith);
      above = λ _. total-shown (not_above r) s' r n ∙ g.above;
      within = omega (
        arith,
        total-shown (λ _. 1) s' r n,
        g.taken (λ _. 1),
        sum_by_mono (live_of r) (λ _. 1) (λ w. ground arith) group,
      );
      from = λ _. (e.rec, refl, λ f. omega (arith, total-popped f s e others l));
    }

pub Advanced-skipped :
    (r : Record) (s s1 s' : RangeScanIterator) (group : List Wrapped)
    → Grouped r s s1 group
    → balance r group ≡ 0
    → Advanced s1 s'
    → Advanced s s'
Advanced-skipped r s s1 s' group g z a = record {
  good = a.good;
  content = λ x. ground (arith, a.content x, Grouped-net r x s s1 group g);
  fewer = λ f. omega (arith, a.fewer f, g.taken f);
  ended = a.ended;
  above = a.above;
  within = omega (arith, a.within, g.taken (λ _. 1));
  from = λ l. let (w, e, k) = a.from l in (w, e, λ f. omega (arith, k f, g.taken f));
}
