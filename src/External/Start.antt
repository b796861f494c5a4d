-- ===== src/External/Start.antt =====
-- The first loop of the merge of the runs (ExternalISAMTree.h), and the runs that it starts from.
use mathlib.Core.Option
use native.Mathlib.Nat.{zero-mod}
use native.Mathlib.Numerals.{add-one}
use dynamic_extension.Base.{
  ℕ, zero, suc, ◌+◌, ◌%◌, ◌≤◌, ◌<◌, ◌≡◌, refl, sym, ap, subst, ◌∙◌, true, some, List, [], ◌∷◌, ◌++◌,
  map, arith, ltb, leb, length, take_all,
}
use dynamic_extension.Record.{Wrapped}
use dynamic_extension.Record.Net.{bit, sum_by, sum_by-append}
use dynamic_extension.Merge.Array.{All, IsSorted}
use dynamic_extension.RangeScan.{HeapEntry, refill, refill_from}
use dynamic_extension.RangeScan.Heap.{heap_sum}
use dynamic_extension.RangeScan.Sources.{to_give, upto}
use dynamic_extension.RangeScan.Input.{iter_records, AllSorted}
use dynamic_extension.External.{Run, push_next, push_first, fetch}
use dynamic_extension.External.Pages.{joined, IsPaged}
use dynamic_extension.External.Runs.{AllRuns, at_run, Fresh, Fresh-get}
use dynamic_extension.External.Pull.{as_iter, as_scan, fetch-Fetched}

-- A run with a record left is fetched from whether it is asked or not.
push_next-fetch :
    (n : ℕ) (runs : List Run) (heap : List HeapEntry) (i : ℕ)
    → Fresh i runs
    → i < length runs
    → push_next n runs heap i ≡ fetch n runs heap i
unfolding fetch push_next
push_next-fetch n runs heap i f l =
    let (r, at) = at_run runs i l in
    let some_left : ltb 0 r.remaining ≡ true = ground (arith, Fresh-get i runs r f at) in
    rw (fetch, at, some_left) refl

-- What the first loop comes to, from run `i` on.
pub record Pushed (n k i m : ℕ) (runs runs' : List Run) (heap heap' : List HeapEntry) : Type 0 where
  pub runs_lem : AllRuns n k runs'
  pub count : length runs' ≡ length runs
  pub same : as_scan k runs' heap' ≡ refill_from (as_scan k runs heap) (i + 1) m
  pub named :
      heap_sum (λ e. bit (leb (length runs) e.source)) heap ≡ 0
      → heap_sum (λ e. bit (leb (length runs) e.source)) heap' ≡ 0

pub push_first-Pushed :
    (n k m i : ℕ) (runs : List Run) (heap : List HeapEntry)
    → 0 < n
    → AllRuns n k runs
    → Fresh i runs
    → i + m ≤ length runs
    → (runs' : List Run) × (heap' : List HeapEntry) × (push_first n runs heap i m
        ≡ some (runs', heap'))
      × Pushed n k i m runs runs' heap heap'
unfolding push_first refill_from Option.bind
push_first-Pushed n k zero i runs heap pos all fresh l =
    (runs, heap, refl, record { runs_lem = all; count = refl; same = refl; named = λ z. z })
push_first-Pushed n k (suc m) i runs heap pos all fresh l =
    let inside : i < length runs = omega arith in
    let (runs1, heap1, fetched, d) = fetch-Fetched n k runs heap i pos all inside in
    let (runs', heap', ends, p) =
      push_first-Pushed n k m (i + 1) runs1 heap1 pos d.runs_lem
        (subst (λ t. Fresh t runs1) (sym (add-one i)) (d.fresh fresh)) (omega (arith, d.count)) in
    (
      runs',
      heap',
      rw (push_next-fetch n runs heap i fresh inside, fetched) ends,
      record {
        runs_lem = p.runs_lem;
        count = p.count ∙ d.count;
        same =
            p.same
            ∙ ap (λ t. refill_from t (i + 1 + 1) m)
                (d.same ∙ ap (refill (as_scan k runs heap)) (sym (add-one i)));
        named = λ z.
            subst (λ t. heap_sum (λ e. bit (leb t e.source)) heap' ≡ 0) d.count
              (p.named (rw d.count (d.sources (λ j. bit (leb (length runs) j)) (ground arith) z)));
      },
    )

-- A run that was not read from, with some records in order, all of which remain.
pub record IsNew (n : ℕ) (r : Run) : Type 0 where
  pub paged : IsPaged n r.pages
  pub sorted : IsSorted (joined r.pages)
  pub unread : r.insert_cnt ≡ 0
  pub counted : r.remaining ≡ length (joined r.pages)
  pub nonempty : 0 < r.remaining

abbrev pub AllNew : ℕ → List Run → Type 0
AllNew n [] = Unit
AllNew n (r ∷ rs) = IsNew n r × AllNew n rs

unfoldable pub run_records : List Run → List Wrapped
run_records [] = []
run_records (r ∷ rs) = joined r.pages ++ run_records rs

pub AllNew-Fresh : (n : ℕ) (rs : List Run) → AllNew n rs → Fresh 0 rs
AllNew-Fresh n [] h = tt
AllNew-Fresh n (r ∷ rs) h = (h.0.nonempty, AllNew-Fresh n rs h.1)

-- The sum of the keys bounds them.
abbrev pub record_key : Wrapped → ℕ
record_key w = w.rec.key

All-bounded :
    (k : ℕ) (ws : List Wrapped) → sum_by record_key ws ≤ k → All (λ w. leb w.rec.key k ≡ true) ws
unfolding sum_by
All-bounded k [] h = tt
All-bounded k (w ∷ ws) h = (ground arith, All-bounded k ws (omega arith))

pub AllNew-AllRuns :
    (n k : ℕ) (rs : List Run)
    → AllNew n rs
    → sum_by record_key (run_records rs) ≤ k
    → AllRuns n k rs
unfolding run_records
AllNew-AllRuns n k [] h l = tt
AllNew-AllRuns n k (r ∷ rs) (h, hs) l =
    let split = sum_by-append record_key (joined r.pages) (run_records rs) in
    (
      record {
        paged = h.paged;
        counted = omega (arith, h.unread, h.counted);
        loaded = λ m. absurd (m (ap (λ t. t % n) h.unread ∙ zero-mod n));
        within = All-bounded k (joined r.pages) (omega (arith, split));
      },
      AllNew-AllRuns n k rs hs (omega (arith, split)),
    )

upto_all : (k : ℕ) (ws : List Wrapped) → All (λ w. leb w.rec.key k ≡ true) ws → upto k ws ≡ ws
unfolding upto
upto_all k [] h = refl
upto_all k (w ∷ ws) h = rw h.0 (ap (λ t. w ∷ t) (upto_all k ws h.1))

to_give-joined : (n : ℕ) (r : Run) → IsNew n r → to_give (as_iter r) ≡ joined r.pages
unfolding to_give as_iter
to_give-joined n r h =
    rw h.unread (take_all (0 + r.remaining) (joined r.pages) (omega (arith, h.counted)))

pub iter_records-runs :
    (n k : ℕ) (rs : List Run)
    → AllNew n rs
    → AllRuns n k rs
    → iter_records k (map as_iter rs) ≡ run_records rs
unfolding iter_records run_records
iter_records-runs n k [] h g = refl
iter_records-runs n k (r ∷ rs) h g =
    rw
      (
        to_give-joined n r h.0,
        upto_all k (joined r.pages) g.0.within,
        iter_records-runs n k rs h.1 g.1,
      )
      refl

pub AllNew-AllSorted : (n : ℕ) (rs : List Run) → AllNew n rs → AllSorted (map as_iter rs)
AllNew-AllSorted n [] h = tt
AllNew-AllSorted n (r ∷ rs) h =
    (subst IsSorted (sym (to_give-joined n r h.0)) h.0.sorted, AllNew-AllSorted n rs h.1)
