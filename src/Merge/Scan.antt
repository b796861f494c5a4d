-- ===== src/Merge/Scan.antt =====
-- The scan of `sorted_array_from_bufferview` (SortedMerge.h) keeps what the records amount to.
use dynamic_extension.Base.{
  ◌≡◌, refl, ap, true, false, List, [], ◌∷◌, ◌++◌, arith, bit_and, Bool-cases, inl, inr,
  append_assoc, append-nil,
}
use dynamic_extension.Base.Bits.{bit_and-one, bit_and-three}
use dynamic_extension.Bloom.{Bloom}
use dynamic_extension.Record.{Wrapped, rec_eq, is_tombstone, is_deleted}
use dynamic_extension.Record.Order.{rec_eq_iff}
use dynamic_extension.Record.Net.{
  bit, tombstones, SameNet, sum_by, sum_by-append, tombstone_of, SameNet-append, SameNet-trans,
}
use dynamic_extension.Merge.{MergeInfo, cancels, emit, keep, scan}

-- `header &= 3` leaves the tombstone bit alone.
pub is_tombstone-mask :
    (w : Wrapped) → is_tombstone (record w { header = bit_and w.header 3 }) ≡ is_tombstone w
unfolding is_tombstone
is_tombstone-mask w =
    ground (arith, bit_and-three w.header, bit_and-one w.header, bit_and-one (bit_and w.header 3))

abbrev pub masked : Wrapped → Wrapped
masked w = record w { header = bit_and w.header 3 }

-- No record carries the delete tag.
abbrev pub Untagged : List Wrapped → Type 0
Untagged [] = Unit {0}
Untagged (w ∷ ws) = (is_deleted w ≡ false) × Untagged ws

SameNet-masked : (w : Wrapped) → SameNet (w ∷ []) (masked w ∷ [])
unfolding sum_by
SameNet-masked w r = rw (is_tombstone-mask w) refl

pub SameNet-cancelled : (x y : Wrapped) → cancels x y ≡ true → SameNet (x ∷ y ∷ []) []
unfolding sum_by cancels
SameNet-cancelled x y h r = ground (
  arith,
  rec_eq_iff x.rec y.rec,
  ap (λ t. rec_eq t r) ((rec_eq_iff x.rec y.rec).0 (ground arith)),
)

tombstones_one : (w : Wrapped) → tombstones (w ∷ []) ≡ bit (is_tombstone w)
unfolding sum_by
tombstones_one w = omega arith

module _ {F : Type 0} (b : Bloom F) where
  keep-SameNet :
      (info : MergeInfo F) (w : Wrapped)
      → is_deleted w ≡ false
      → SameNet (info.buffer ++ (w ∷ [])) (keep b info w).buffer
  unfolding keep emit
  keep-SameNet info w h = rw h (
      SameNet-append info.buffer info.buffer (w ∷ []) (masked w ∷ []) (λ r. refl)
        (SameNet-masked w))

  pub scan-SameNet :
      (info : MergeInfo F) (xs : List Wrapped)
      → Untagged xs
      → SameNet (info.buffer ++ xs) (scan b info xs).buffer
  unfolding scan
  scan-SameNet info [] u = rw (append-nil info.buffer) (λ r. refl)
  scan-SameNet info (x ∷ []) u = keep-SameNet info x u.0
  scan-SameNet info (x ∷ y ∷ rest) u = elim (Bool-cases (cancels x y)) [
    | inl c ↦
        rw (c, scan)
          (SameNet-trans (info.buffer ++ x ∷ y ∷ rest) (info.buffer ++ rest) _
            (SameNet-append info.buffer info.buffer (x ∷ y ∷ rest) rest (λ r. refl)
              (SameNet-append (x ∷ y ∷ []) [] rest rest (SameNet-cancelled x y c) (λ r. refl)))
            (scan-SameNet info rest u.1.1))
    | inr c ↦
        rw (c, scan)
          (SameNet-trans (info.buffer ++ x ∷ y ∷ rest) ((keep b info x).buffer ++ y ∷ rest) _
            (rw (← append_assoc info.buffer (x ∷ []) (y ∷ rest)) (
              SameNet-append (info.buffer ++ x ∷ []) _ (y ∷ rest) (y ∷ rest)
                (keep-SameNet info x u.0) (λ r. refl)))
            (scan-SameNet (keep b info x) (y ∷ rest) u.1))
  ]

  -- The count, kept along the scan.
  keep-counts :
      (info : MergeInfo F) (w : Wrapped)
      → info.tombstone_count ≡ tombstones info.buffer
      → (keep b info w).tombstone_count ≡ tombstones (keep b info w).buffer
  unfolding keep emit
  keep-counts info w h = ground (
    arith,
    is_tombstone-mask w,
    sum_by-append tombstone_of info.buffer (masked w ∷ []),
    tombstones_one (masked w),
  )

  pub scan-counts :
      (info : MergeInfo F) (xs : List Wrapped)
      → info.tombstone_count ≡ tombstones info.buffer
      → (scan b info xs).tombstone_count ≡ tombstones (scan b info xs).buffer
  unfolding scan
  scan-counts info [] h = h
  scan-counts info (x ∷ []) h = keep-counts info x h
  scan-counts info (x ∷ y ∷ rest) h =
      ground (
        arith,
        keep-counts info x h,
        scan-counts info rest h,
        scan-counts (keep b info x) (y ∷ rest),
      )
