-- ===== src/External/Rounds.antt =====
-- What a round of the merge of the runs (ExternalISAMTree.h) keeps.
use mathlib.Core.Option
use dynamic_extension.Base.{
  ℕ, ◌+◌, ◌*◌, ◌≤◌, ◌<◌, ◌≡◌, refl, sym, ap, ◌∙◌, true, some, List, [], ◌∷◌, ◌++◌, arith,
  Bool-cases, inl, inr, ◌==◌, length, length-append, append_assoc, append-nil,
}
use dynamic_extension.Record.{Record, Wrapped, rec_eq}
use dynamic_extension.Record.Order.{rec_eq_iff}
use dynamic_extension.Record.Net.{
  sum_by, sum_by-append, inserts, erasures, insert_of, erasure_of, tombstones, tombstone_of,
}
use dynamic_extension.Merge.Disorder.{disorder, disorder-snoc}
use dynamic_extension.Merge.Disorder
use dynamic_extension.RangeScan.{HeapEntry}
use dynamic_extension.RangeScan.Heap.{IsLeast, pop-IsLeast}
use dynamic_extension.RangeScan.Covers.{below}
use dynamic_extension.RangeScan.Order.{sum_by_mono}
use dynamic_extension.External.{Run, MergeState, erases, put, cancel_or_put, merge_round}
use dynamic_extension.External.Pages.{joined, joined-append, AllFull, AllFull-snoc}
use dynamic_extension.External.Pull.{IsMerging, left, left-least, pull}

-- The records that went out.
abbrev pub out : MergeState → List Wrapped
out s = joined s.written ++ s.page

-- The records that are still to come, summed up.
abbrev pub to_come : ℕ → MergeState → (Wrapped → ℕ) → ℕ
to_come k s f = left k f s.runs s.heap

-- What the merge of the records `all` keeps.
pub record Keeps (n k : ℕ) (all : List Wrapped) (s : MergeState) : Type 0 where
  pub merging : IsMerging n k s.runs s.heap
  pub full : AllFull n s.written
  pub fits : length s.page ≤ n
  pub begun : length s.page ≡ 0 → length s.written ≡ 0
  pub sorted : disorder (out s) ≡ 0
  pub apart : sum_by (λ w. to_come k s (below w.rec)) (out s) ≡ 0
  pub counted :
      sum_by (λ _. 1) (out s) + to_come k s (λ _. 1) + 2 * s.cancelled ≡ sum_by (λ _. 1) all
  pub tombs : tombstones (out s) + to_come k s tombstone_of + s.cancelled ≡ tombstones all
  pub balance :
      (r : Record)
      → inserts r all + erasures r (out s) + to_come k s (erasure_of r)
        ≡ inserts r (out s) + to_come k s (insert_of r) + erasures r all

erases-tombstone : (x y : Wrapped) → erases x y ≡ true → tombstone_of x + tombstone_of y ≡ 1
unfolding erases
erases-tombstone x y h = ground arith

erases-balance :
    (x y : Wrapped) (r : Record)
    → erases x y ≡ true
    → insert_of r x + insert_of r y ≡ erasure_of r x + erasure_of r y
unfolding erases
erases-balance x y r h = ground (
  arith,
  rec_eq_iff y.rec x.rec,
  ap (λ t. rec_eq t r) ((rec_eq_iff y.rec x.rec).0 (ground arith)),
)

-- What `put` does to the pages.
record Placed (n : ℕ) (s s' : MergeState) (w : Wrapped) : Type 0 where
  same : out s' ≡ out s ++ w ∷ []
  full : AllFull n s'.written
  fits : length s'.page ≤ n
  begun : 0 < length s'.page

put-Placed :
    (n : ℕ) (s : MergeState) (w : Wrapped)
    → 0 < n
    → AllFull n s.written
    → length s.page ≤ n
    → Placed n s (put n s w) w
unfolding put joined
put-Placed n s w pos full fits = elim (Bool-cases (length s.page == n)) [
  | inl e ↦ rw e (record {
    same =
        ap (λ t. t ++ w ∷ [])
          (joined-append s.written (s.page ∷ [])
            ∙ ap (λ t. joined s.written ++ t) (append-nil s.page));
    full = AllFull-snoc n s.written s.page full (ground arith);
    fits = omega arith;
    begun = omega arith;
  })
  | inr e ↦ rw e (record {
    same = sym (append_assoc (joined s.written) s.page (w ∷ []));
    full = full;
    fits = ground (arith, length-append s.page (w ∷ []));
    begun = omega (arith, length-append s.page (w ∷ []));
  })
]

-- `min` is off the heap, and its run has given the next record.
record Held (n k : ℕ) (all : List Wrapped) (s : MergeState) (min : Wrapped) (runs : List Run)
    (heap : List HeapEntry) : Type 0 where
  keeps : Keeps n k all s
  merging : IsMerging n k runs heap
  taken : (f : Wrapped → ℕ) → left k f runs heap + f min ≡ to_come k s f
  least : to_come k s (below min.rec) ≡ 0

-- Where fewer records are to come, none of them is less than one that went out.
still_apart :
    (k : ℕ) (s s' : MergeState) (ws : List Wrapped)
    → ((f : Wrapped → ℕ) → to_come k s' f ≤ to_come k s f)
    → sum_by (λ w. to_come k s (below w.rec)) ws ≡ 0
    → sum_by (λ w. to_come k s' (below w.rec)) ws ≡ 0
still_apart k s s' ws h z = omega (
  arith,
  z,
  sum_by_mono (λ w. to_come k s' (below w.rec)) (λ w. to_come k s (below w.rec))
      (λ w. h (below w.rec)) ws,
)

module _ (n k : ℕ) (all : List Wrapped) (s : MergeState) (min : Wrapped) (runs : List Run)
    (heap : List HeapEntry) (pos : 0 < n) (held : Held n k all s min runs heap) where
  abbrev now : MergeState
  now = record s { runs = runs; heap = heap }

  put-runs :
      ((put n now min).runs ≡ runs)
      × ((put n now min).heap ≡ heap)
      × ((put n now min).cancelled ≡ s.cancelled)
  unfolding put
  put-runs = elim (Bool-cases (length s.page == n)) [
    | inl e ↦ rw e (refl, refl, refl)
    | inr e ↦ rw e (refl, refl, refl)
  ]

  put-to_come : (f : Wrapped → ℕ) → to_come k (put n now min) f + f min ≡ to_come k s f
  put-to_come f = rw (put-runs.0, put-runs.1) (held.taken f)

  put-out : (f : Wrapped → ℕ) → sum_by f (out (put n now min)) ≡ sum_by f (out s) + f min
  unfolding sum_by
  put-out f =
      let p = put-Placed n now min pos held.keeps.full held.keeps.fits in
      ap (sum_by f) p.same ∙ omega (arith, sum_by-append f (out s) (min ∷ []))

  put-Keeps : Keeps n k all (put n now min)
  unfolding sum_by
  put-Keeps =
      let p = put-Placed n now min pos held.keeps.full held.keeps.fits in
      let g = held.keeps in
      record {
        merging = rw (put-runs.0, put-runs.1) held.merging;
        full = p.full;
        fits = p.fits;
        begun = λ e. absurd (omega (arith, p.begun));
        sorted = omega (
          arith,
          ap disorder p.same,
          disorder-snoc (out s) min,
          g.sorted,
          g.apart,
          sum_by_mono (λ v. Disorder.below v min) (λ v. to_come k s (below v.rec))
              (λ v. omega (arith, held.taken (below v.rec))) (out s),
        );
        apart = omega (
          arith,
          put-out (λ w. to_come k (put n now min) (below w.rec)),
          still_apart k s (put n now min) (out s) (λ f. omega (arith, put-to_come f)) g.apart,
          put-to_come (below min.rec),
          held.least,
        );
        counted = omega (arith, g.counted, put-out (λ _. 1), put-to_come (λ _. 1), put-runs.2);
        tombs = omega (arith, g.tombs, put-out tombstone_of, put-to_come tombstone_of, put-runs.2);
        balance = λ r. omega (
          arith,
          g.balance r,
          put-out (insert_of r),
          put-out (erasure_of r),
          put-to_come (insert_of r),
          put-to_come (erasure_of r),
        );
      }

  -- `other` is at the front of the heap, and is off it too.
  cancel-Keeps :
      (other : Wrapped) (runs' : List Run) (heap' : List HeapEntry)
      → erases min other ≡ true
      → IsMerging n k runs' heap'
      → ((f : Wrapped → ℕ) → left k f runs' heap' + f other ≡ left k f runs heap)
      → Keeps n k all (record s { runs = runs'; heap = heap'; cancelled = s.cancelled + 1 })
  cancel-Keeps other runs' heap' e m taken =
      let g = held.keeps in
      let s' : MergeState = record s { runs = runs'; heap = heap'; cancelled = s.cancelled + 1 } in
      record {
        merging = m;
        full = g.full;
        fits = g.fits;
        begun = g.begun;
        sorted = g.sorted;
        apart = still_apart k s s' (out s) (λ f. omega (arith, held.taken f, taken f)) g.apart;
        counted = omega (arith, g.counted, held.taken (λ _. 1), taken (λ _. 1));
        tombs = omega (
          arith,
          g.tombs,
          held.taken tombstone_of,
          taken tombstone_of,
          erases-tombstone min other e,
        );
        balance = λ r. omega (
          arith,
          g.balance r,
          held.taken (insert_of r),
          held.taken (erasure_of r),
          taken (insert_of r),
          taken (erasure_of r),
          erases-balance min other r e,
        );
      }

  -- What follows in the round keeps the invariant, and fewer records are to come.
  cancel_or_put-Keeps :
      (s' : MergeState) × (cancel_or_put n now min ≡ some s')
      × Keeps n k all s'
      × (to_come k s' (λ _. 1) < to_come k s (λ _. 1))
  unfolding cancel_or_put
  cancel_or_put-Keeps = elim (pop-IsLeast heap) [
    | inl (e, nothing) ↦
        (put n now min, rw (cancel_or_put, e) refl, put-Keeps, omega (arith, put-to_come (λ _. 1)))
    | inr (other, others, e, l) ↦ elim (Bool-cases (erases min other.rec)) [
      | inr t ↦ (
        put n now min,
        rw (cancel_or_put, e, t) refl,
        put-Keeps,
        omega (arith, put-to_come (λ _. 1)),
      )
      | inl t ↦
          let (runs', heap', fetched, m, taken) =
            pull n k runs heap other others pos held.merging l in
          (
            record s { runs = runs'; heap = heap'; cancelled = s.cancelled + 1 },
            rw (cancel_or_put, e, t, fetched) refl,
            cancel-Keeps other.rec runs' heap' t m taken,
            omega (arith, held.taken (λ _. 1), taken (λ _. 1)),
          )
    ]
  ]

-- A round reads inside of the pages and keeps the invariant, and fewer records are to come.
pub merge_round-Keeps :
    (n k : ℕ) (all : List Wrapped) (s : MergeState) (min : HeapEntry) (others : List HeapEntry)
    → 0 < n
    → Keeps n k all s
    → IsLeast s.heap min others
    → (s' : MergeState) × (merge_round n s min others ≡ some s')
      × Keeps n k all s'
      × (to_come k s' (λ _. 1) < to_come k s (λ _. 1))
unfolding merge_round Option.bind
merge_round-Keeps n k all s min others pos g l =
    let (runs, heap, fetched, m, taken) = pull n k s.runs s.heap min others pos g.merging l in
    let (s', e, g', fewer) = cancel_or_put-Keeps n k all s min.rec runs heap pos (record {
      keeps = g;
      merging = m;
      taken = taken;
      least = left-least n k s.runs s.heap min others g.merging l;
    }) in
    (s', rw fetched e, g', fewer)
