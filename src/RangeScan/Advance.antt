-- ===== src/RangeScan/Advance.antt =====
-- `advance` (RangeScanIterator.h) shows the next record that is inserted more often than erased.
use mathlib.Core.Option
use dynamic_extension.Base.{
  ℕ, zero, suc, ◌<◌, ◌≡◌, refl, ◌∙◌, some, List, arith, Bool-cases, inl, inr, if◌then◌else◌, ltb,
}
use dynamic_extension.Record.{Wrapped}
use dynamic_extension.RangeScan.{
  ℤ, positive, HeapEntry, RangeScanIterator, count_equal, advance, pop,
}
use dynamic_extension.RangeScan.Heap.{IsLeast, pop-IsLeast}
use dynamic_extension.RangeScan.Covers.{total, Good}
use dynamic_extension.RangeScan.Order.{Good-least}
use dynamic_extension.RangeScan.Groups.{Grouped, count_equal-Grouped, diff, positive-diff}
use dynamic_extension.RangeScan.Outcome.{
  Advanced, balance, Grouped-fewer, Advanced-empty, Advanced-shown, Advanced-skipped,
}

advance-next :
    (m n : ℕ) (s s1 : RangeScanIterator) (e : HeapEntry) (others : List HeapEntry) (live : ℤ)
    → pop s.heap ≡ some (e, others)
    → count_equal m e.rec.rec (ℤ.pos 0) s ≡ some (live, s1)
    → advance m (suc n) s ≡ (
        if ltb 0 (positive live)
        then some (record s1 { current = e.rec.rec; pending = positive live })
        else advance m n s1)
unfolding advance Option.bind
advance-next m n s s1 e others live p c = rw (advance, p, c) refl

-- The inner loop, begun by the outer one.
first_group :
    (m : ℕ) (s : RangeScanIterator) (e : HeapEntry) (others : List HeapEntry)
    → Good s
    → IsLeast s.heap e others
    → total (λ _. 1) s < m
    → (s1 : RangeScanIterator) × (group : List Wrapped) × (live : ℤ) × (count_equal m e.rec.rec
          (ℤ.pos 0)
          s
        ≡ some (live, s1))
      × (positive live ≡ balance e.rec.rec group)
      × Grouped e.rec.rec s s1 group
unfolding diff
first_group m s e others g l h =
    let (s1, group, x, y, c, i, j, q) =
      count_equal-Grouped m e.rec.rec 0 0 s g (Good-least s e others g l) h in
    (s1, group, diff x y, c, omega (arith, positive-diff x y, i, j), q)

-- With fuel for the records that are left, `advance` ends, and shows the records as it should.
pub advance-Advanced :
    (m n : ℕ) (s : RangeScanIterator)
    → Good s
    → total (λ _. 1) s < m
    → total (λ _. 1) s < n
    → (s' : RangeScanIterator) × (advance m n s ≡ some s') × Advanced s s'
unfolding advance
advance-Advanced m zero s g h k = absurd (omega arith)
advance-Advanced m (suc n) s g h k = elim (pop-IsLeast s.heap) [
  | inl (p, z) ↦ (record s { pending = 0 }, rw (advance, p) refl, Advanced-empty s g z)
  | inr (e, others, p, l) ↦
      let (s1, group, live, c, i, q) = first_group m s e others g l h in
      elim (Bool-cases (ltb 0 (positive live))) [
        | inl t ↦ (
          _,
          advance-next m n s s1 e others live p c ∙ rw (t, i) refl,
          Advanced-shown s s1 e others group l q (ground (arith, i)),
        )
        | inr t ↦
            let b : total (λ _. 1) s1 < total (λ _. 1) s = Grouped-fewer s s1 e others group l q in
            let (s', a, v) = advance-Advanced m n s1 q.good (omega arith) (omega arith) in
            (
              s',
              advance-next m n s s1 e others live p c ∙ rw t a,
              Advanced-skipped e.rec.rec s s1 s' group q (ground (arith, i)) v,
            )
      ]
]
