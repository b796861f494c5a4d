-- ===== src/RangeScan/Heap.antt =====
-- The heap of a range scan (RangeScanIterator.h): `pop` takes a least entry off it.
use dynamic_extension.Base.{
  ℕ, ◌+◌, ◌≤◌, ◌≡◌, refl, sym, subst, ◌∙◌, false, none, some, List, [], ◌∷◌, arith, Bool-cases, inl,
  inr, ◌⊎◌, if◌then◌else◌,
}
use dynamic_extension.Record.{Record, rec_lt}
use dynamic_extension.Record.Order.{rec_lt_irrefl, rec_lt_asym}
use dynamic_extension.Record.Net.{bit}
use dynamic_extension.RangeScan.{HeapEntry, entry_gt, take_least, pop}

unfoldable pub heap_sum : (HeapEntry → ℕ) → List HeapEntry → ℕ
heap_sum f [] = 0
heap_sum f (e ∷ es) = f e + heap_sum f es

-- The entry's record is less than `v`.
abbrev pub entry_below : Record → HeapEntry → ℕ
entry_below v e = bit (rec_lt e.rec.rec v)

pub heap_sum_mono :
    (f g : HeapEntry → ℕ)
    → ((e : HeapEntry) → f e ≤ g e)
    → (es : List HeapEntry) → heap_sum f es ≤ heap_sum g es
unfolding heap_sum
heap_sum_mono f g h [] = omega arith
heap_sum_mono f g h (e ∷ es) = omega (arith, h e, heap_sum_mono f g h es)

below_mono :
    (u v : Record) → rec_lt v u ≡ false → (e : HeapEntry) → entry_below u e ≤ entry_below v e
unfolding rec_lt
below_mono u v h e = ground arith

-- `m` is a least entry of the list, and `others` are the others.
abbrev pub IsLeast : List HeapEntry → HeapEntry → List HeapEntry → Type 0
IsLeast es m others =
    ((f : HeapEntry → ℕ) → heap_sum f es ≡ f m + heap_sum f others)
    × (heap_sum (entry_below m.rec.rec) es ≡ 0)

below_itself : (e : HeapEntry) → entry_below e.rec.rec e ≡ 0
below_itself e = ground (arith, rec_lt_irrefl e.rec.rec)

choose-IsLeast :
    (e m : HeapEntry) (es others : List HeapEntry) (p : HeapEntry × List HeapEntry)
    → IsLeast es m others
    → p ≡ (if entry_gt e m then (m, e ∷ others) else (e, m ∷ others))
    → IsLeast (e ∷ es) p.0 p.1
unfolding heap_sum entry_gt
choose-IsLeast e m es others p h x = elim (Bool-cases (rec_lt m.rec.rec e.rec.rec)) [
  | inl t ↦
      let y : p ≡ (m, e ∷ others) = x ∙ rw t refl in
      subst (λ t. IsLeast (e ∷ es) t.0 t.1) (sym y)
        (λ f. omega (arith, h.0 f), ground (arith, h.1, rec_lt_asym m.rec.rec e.rec.rec t))
  | inr t ↦
      let y : p ≡ (e, m ∷ others) = x ∙ rw t refl in
      subst (λ t. IsLeast (e ∷ es) t.0 t.1) (sym y)
        (
          λ f. omega (arith, h.0 f),
          omega
              (arith, h.1, below_itself e, heap_sum_mono _ _ (below_mono e.rec.rec m.rec.rec t) es),
        )
]

take_least-IsLeast :
    (e : HeapEntry) (es : List HeapEntry) → IsLeast (e ∷ es) (take_least e es).0 (take_least e es).1
unfolding take_least heap_sum
take_least-IsLeast e [] = (λ f. refl, omega (arith, below_itself e))
take_least-IsLeast e (x ∷ xs) =
    choose-IsLeast e _ (x ∷ xs) _ (take_least e (x ∷ xs)) (take_least-IsLeast x xs) refl

-- `pop` takes a least entry, if there is one.
pub pop-IsLeast :
    (es : List HeapEntry)
    → ((pop es ≡ none) × (es ≡ []))
      ⊎ (e : HeapEntry) × (others : List HeapEntry) × (pop es ≡ some (e, others))
        × IsLeast es e others
unfolding pop
pop-IsLeast [] = inl (refl, refl)
pop-IsLeast (e ∷ es) = inr ((take_least e es).0, (take_least e es).1, refl, take_least-IsLeast e es)
