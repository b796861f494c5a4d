-- ===== src/External/Loop.antt =====
-- The merge of the runs (ExternalISAMTree.h) ends, and what it writes.
use mathlib.Core.Option
use dynamic_extension.Base.{
  ℕ, zero, suc, ◌+◌, ◌*◌, ◌≤◌, ◌<◌, ◌≡◌, refl, sym, ap, ◌∙◌, true, some, List, [], ◌∷◌, ◌++◌, arith,
  inl, inr, ltb, if◌then◌else◌, length, append-nil, length-append,
}
use dynamic_extension.Base.Words.{size_mod, sub64, sub64-exact}
use dynamic_extension.Record.{Wrapped}
use dynamic_extension.Record.Net.{
  SameNet, length-sum_by, tombstones, tombstone_of, insert_of, erasure_of,
}
use dynamic_extension.Merge.Array.{IsSorted}
use dynamic_extension.Merge.Disorder.{disorder→IsSorted}
use dynamic_extension.RangeScan.Heap.{pop-IsLeast}
use dynamic_extension.RangeScan.Order.{sum_by_mono, Good-empty}
use dynamic_extension.External.{MergeState, Stored, merge_loop, close_merge}
use dynamic_extension.External.Pages.{joined, joined-append, IsPaged, AllFull, IsPaged-snoc}
use dynamic_extension.External.Pull.{as_scan}
use dynamic_extension.External.Rounds.{out, to_come, Keeps, merge_round-Keeps}

-- The loop ends if there is fuel for the records to come, and no record is to come then.
pub merge_loop-ends :
    (n k : ℕ) (all : List Wrapped) (fuel : ℕ) (s : MergeState)
    → 0 < n
    → Keeps n k all s
    → to_come k s (λ _. 1) < fuel
    → (s' : MergeState) × (merge_loop n fuel s ≡ some s')
      × Keeps n k all s'
      × ((f : Wrapped → ℕ) → to_come k s' f ≡ 0)
unfolding merge_loop as_scan Option.bind
merge_loop-ends n k all zero s pos g h = absurd (omega arith)
merge_loop-ends n k all (suc fuel) s pos g h = elim (pop-IsLeast s.heap) [
  | inl (e, nothing) ↦ (
    s,
    rw (merge_loop, e) refl,
    g,
    Good-empty (as_scan k s.runs s.heap) g.merging.good (rw nothing refl),
  )
  | inr (min, others, e, l) ↦
      let (s1, round, g1, fewer) = merge_round-Keeps n k all s min others pos g l in
      let (s', ends, g', gone) = merge_loop-ends n k all fuel s1 pos g1 (omega arith) in
      (s', rw (merge_loop, e, round) ends, g', gone)
]

-- The shard's figures are those of its pages, on which the records stand in order.
pub record IsStored (n : ℕ) (t : Stored) : Type 0 where
  pub paged : IsPaged n t.pages
  pub sorted : IsSorted (joined t.pages)
  pub counted : t.reccnt ≡ length (joined t.pages)
  pub tombs : t.tombstone_cnt ≡ tombstones (joined t.pages)
  pub last : t.last_data_page ≡ length t.pages

-- The pages once the last one is written.
abbrev pages_of : List (List Wrapped) → List Wrapped → List (List Wrapped)
pages_of written page = if ltb 0 (length page) then written ++ page ∷ [] else written

record Closed (n : ℕ) (written : List (List Wrapped)) (page : List Wrapped) : Type 0 where
  paged : IsPaged n (pages_of written page)
  same : joined (pages_of written page) ≡ joined written ++ page
  last :
      (if ltb 0 (length (joined written ++ page)) then length written + 1 else 0)
      ≡ length (pages_of written page)

pages_of-Closed :
    (n : ℕ) (written : List (List Wrapped)) (page : List Wrapped)
    → AllFull n written
    → length page ≤ n
    → (length page ≡ 0 → length written ≡ 0)
    → Closed n written page
unfolding joined
pages_of-Closed n [] [] full fits begun = record { paged = tt; same = refl; last = refl }
pages_of-Closed n (p ∷ ps) [] full fits begun = absurd (omega (arith, begun refl))
pages_of-Closed n ps (w ∷ ws) full fits begun =
    let some_left : ltb 0 (suc (length ws)) ≡ true = ground arith in
    record {
      paged = rw some_left (IsPaged-snoc n ps (w ∷ ws) full (omega arith) fits);
      same =
          rw some_left
            (joined-append ps ((w ∷ ws) ∷ []) ∙ ap (λ t. joined ps ++ t) (append-nil (w ∷ ws)));
      last = ground (arith, length-append (joined ps) (w ∷ ws), length-append ps ((w ∷ ws) ∷ []));
    }

tombstones-length : (ws : List Wrapped) → tombstones ws ≤ length ws
tombstones-length ws =
    omega (arith, sum_by_mono tombstone_of (λ _. 1) (λ w. ground arith) ws, length-sum_by ws)

-- What is written at the end of the merge.
pub close_merge-IsStored :
    (n k : ℕ) (all : List Wrapped) (s : MergeState)
    → Keeps n k all s
    → ((f : Wrapped → ℕ) → to_come k s f ≡ 0)
    → length all < size_mod
    → IsStored n (close_merge (length all) (tombstones all) s)
      × SameNet all (joined (close_merge (length all) (tombstones all) s).pages)
unfolding close_merge
close_merge-IsStored n k all s g gone small =
    let c = pages_of-Closed n s.written s.page g.full g.fits g.begun in
    let total_out : length (out s) + 2 * s.cancelled ≡ length all =
      omega (arith, g.counted, gone (λ _. 1), length-sum_by (out s), length-sum_by all) in
    let left : sub64 (length all) (2 * s.cancelled) ≡ length (out s) =
      omega (arith, total_out, sub64-exact (length all) (2 * s.cancelled) (omega arith) small) in
    let marks : tombstones (out s) + s.cancelled ≡ tombstones all =
      omega (arith, g.tombs, gone tombstone_of) in
    let marks_left : sub64 (tombstones all) s.cancelled ≡ tombstones (out s) = omega (
      arith,
      marks,
      sub64-exact (tombstones all) s.cancelled (omega arith) (omega (arith, tombstones-length all)),
    ) in
    (
      record {
        paged = c.paged;
        sorted = rw c.same (disorder→IsSorted (out s) g.sorted);
        counted = left ∙ ap length (sym c.same);
        tombs = marks_left ∙ ap tombstones (sym c.same);
        last = ap (λ t. if ltb 0 t then length s.written + 1 else 0) left ∙ c.last;
      },
      λ r. rw c.same (omega (arith, g.balance r, gone (insert_of r), gone (erasure_of r))),
    )
