-- ===== src/RangeScan/Groups.antt =====
-- The inner loop of `advance` (RangeScanIterator.h) takes all records that equal the first one.
use native.Mathlib.Nat.{add-zero}
use native.Mathlib.Numerals.{add-one}
use dynamic_extension.Base.{
  ℕ, zero, suc, ◌+◌, ◌-◌, ◌≤◌, ◌<◌, ◌≡◌, refl, ap, ◌∙◌, true, false, not, ◌&&◌, some, List, [], ◌∷◌,
  arith, Bool-cases, inl, inr,
}
use dynamic_extension.Record.{Record, Wrapped, rec_lt, rec_eq, is_tombstone, is_deleted}
use dynamic_extension.Record.Net.{bit, sum_by, erasure_of}
use dynamic_extension.RangeScan.{
  ℤ, increment, decrement, positive, HeapEntry, RangeScanIterator, count_entry, count_equal, pop,
}
use dynamic_extension.RangeScan.Heap.{IsLeast, pop-IsLeast}
use dynamic_extension.RangeScan.Covers.{below, total, Good, popped, total-popped, Good-popped}
use dynamic_extension.RangeScan.Order.{total_mono, Good-least, Good-empty}

-- The integer `a - b`.
unfoldable pub diff : ℕ → ℕ → ℤ
diff zero zero = ℤ.pos 0
diff (suc a) zero = ℤ.pos (suc a)
diff zero (suc b) = ℤ.negsuc b
diff (suc a) (suc b) = diff a b

increment-diff : (a b : ℕ) → increment (diff a b) ≡ diff (suc a) b
unfolding diff increment
increment-diff zero zero = refl
increment-diff (suc a) zero = ap ℤ.pos (omega arith)
increment-diff zero (suc zero) = refl
increment-diff zero (suc (suc b)) = refl
increment-diff (suc a) (suc b) = increment-diff a b

decrement-diff : (a b : ℕ) → decrement (diff a b) ≡ diff a (suc b)
unfolding diff decrement
decrement-diff zero zero = refl
decrement-diff (suc zero) zero = refl
decrement-diff (suc (suc a)) zero = refl
decrement-diff zero (suc b) = ap ℤ.negsuc (omega arith)
decrement-diff (suc a) (suc b) = decrement-diff a b

pub positive-diff : (a b : ℕ) → positive (diff a b) ≡ a - b
unfolding diff
positive-diff zero zero = refl
positive-diff (suc a) zero = omega arith
positive-diff zero (suc b) = omega arith
positive-diff (suc a) (suc b) = omega (arith, positive-diff a b)

-- A record `r` that is not a tombstone and not tagged as deleted.
abbrev pub live_of : Record → Wrapped → ℕ
live_of r w = bit (rec_eq w.rec r && (not (is_tombstone w) && not (is_deleted w)))

-- The record is `r`, or is another.
abbrev pub is : Record → Wrapped → ℕ
is r w = bit (rec_eq w.rec r)

abbrev pub is_other : Record → Wrapped → ℕ
is_other r w = bit (not (rec_eq w.rec r))

-- The record is not greater than `r`.
abbrev pub not_above : Record → Wrapped → ℕ
not_above r w = bit (not (rec_lt r w.rec))

count_entry-diff :
    (r : Record) (a b : ℕ) (w : Wrapped)
    → rec_eq w.rec r ≡ true
    → count_entry (diff a b) w ≡ diff (a + live_of r w) (b + erasure_of r w)
unfolding count_entry
count_entry-diff r a b w h = elim (Bool-cases (is_tombstone w)) [
  | inl t ↦ rw (h, t, add-zero a, add-one b) (decrement-diff a b)
  | inr t ↦ elim (Bool-cases (is_deleted w)) [
    | inl d ↦ rw (h, t, d, add-zero a, add-zero b) refl
    | inr d ↦ rw (h, t, d, add-one a, add-zero b) (increment-diff a b)
  ]
]

-- What the inner loop leaves: the records of `group` are gone, all of them are `r`, and all
-- that are left are greater.
pub record Grouped (r : Record) (s s' : RangeScanIterator) (group : List Wrapped) : Type 0 where
  pub good : Good s'
  pub taken : (f : Wrapped → ℕ) → total f s' + sum_by f group ≡ total f s
  pub above : total (not_above r) s' ≡ 0
  pub no_other : sum_by (is_other r) group ≡ 0

not_above-below :
    (r e : Record) (w : Wrapped)
    → rec_lt e r ≡ false
    → rec_eq e r ≡ false
    → not_above r w ≤ below e w
unfolding rec_lt rec_eq
not_above-below r e w h k = ground arith

-- The first record of the heap is not `r`, and none is less: the group ends.
Grouped-end :
    (r : Record) (s : RangeScanIterator) (e : HeapEntry) (others : List HeapEntry)
    → Good s
    → total (below r) s ≡ 0
    → IsLeast s.heap e others
    → rec_eq e.rec.rec r ≡ false
    → Grouped r s s []
unfolding sum_by
Grouped-end r s e others g z l n = record {
  good = g;
  taken = λ f. omega arith;
  above =
      let b : rec_lt e.rec.rec r ≡ false = ground (arith, total-popped (below r) s e others l) in
      let x =
        total_mono (not_above r) (below e.rec.rec) (λ w. not_above-below r e.rec.rec w b n) s in
      omega (arith, x, Good-least s e others g l);
  no_other = refl;
}

Grouped-empty : (r : Record) (s : RangeScanIterator) → Good s → s.heap ≡ [] → Grouped r s s []
unfolding sum_by
Grouped-empty r s g h = record {
  good = g;
  taken = λ f. omega arith;
  above = Good-empty s g h (not_above r);
  no_other = refl;
}

Grouped-cons :
    (r : Record) (s s' : RangeScanIterator) (e : HeapEntry) (others : List HeapEntry)
    (group : List Wrapped)
    → IsLeast s.heap e others
    → rec_eq e.rec.rec r ≡ true
    → Grouped r (popped s e others) s' group
    → Grouped r s s' (e.rec ∷ group)
unfolding sum_by
Grouped-cons r s s' e others group l h g = record {
  good = g.good;
  taken = λ f. omega (arith, g.taken f, total-popped f s e others l);
  above = g.above;
  no_other = ground (arith, g.no_other);
}

count_equal-next :
    (m : ℕ) (r : Record) (a b : ℕ) (s : RangeScanIterator) (e : HeapEntry) (others : List HeapEntry)
    → pop s.heap ≡ some (e, others)
    → rec_eq e.rec.rec r ≡ true
    → count_equal (suc m) r (diff a b) s
      ≡ count_equal m r (diff (a + live_of r e.rec) (b + erasure_of r e.rec)) (popped s e others)
unfolding count_equal
count_equal-next m r a b s e others p h =
    rw (count_equal, p, ← count_entry-diff r a b e.rec h) (rw h refl)

-- The loop ends, and has counted the records of the group.
pub count_equal-Grouped :
    (m : ℕ) (r : Record) (a b : ℕ) (s : RangeScanIterator)
    → Good s
    → total (below r) s ≡ 0
    → total (λ _. 1) s < m
    → (s' : RangeScanIterator) × (group : List Wrapped) × (x : ℕ) × (y : ℕ) × (count_equal m r
          (diff a b)
          s
        ≡ some (diff x y, s'))
      × (x ≡ a + sum_by (live_of r) group)
      × (y ≡ b + sum_by (erasure_of r) group)
      × Grouped r s s' group
unfolding count_equal sum_by
count_equal-Grouped zero r a b s g z l = absurd (omega arith)
count_equal-Grouped (suc m) r a b s g z l = elim (pop-IsLeast s.heap) [
  | inl (p, h) ↦
      (s, [], a, b, rw (count_equal, p) refl, omega arith, omega arith, Grouped-empty r s g h)
  | inr (e, others, p, q) ↦ elim (Bool-cases (rec_eq e.rec.rec r)) [
    | inr n ↦ (
      s,
      [],
      a,
      b,
      rw (count_equal, p, n) refl,
      omega arith,
      omega arith,
      Grouped-end r s e others g z q n,
    )
    | inl h ↦
        let (s', group, x, y, c, i, j, k) =
          count_equal-Grouped m r (a + live_of r e.rec) (b + erasure_of r e.rec) (popped s e others)
            (Good-popped s e others q g) (omega (arith, total-popped (below r) s e others q))
            (omega (arith, total-popped (λ _. 1) s e others q)) in
        (
          s',
          e.rec ∷ group,
          x,
          y,
          count_equal-next m r a b s e others p h ∙ c,
          omega (arith, i),
          omega (arith, j),
          Grouped-cons r s s' e others group q h k,
        )
  ]
]
