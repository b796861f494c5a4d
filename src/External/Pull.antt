-- ===== src/External/Pull.antt =====
-- The merge of the runs (ExternalISAMTree.h) seen as a range scan without an upper end, which takes
-- one record off its heap and lets the source of it give the next.
use mathlib.Core.Option.{some_inj}
use dynamic_extension.Base.{
  ℕ, zero, suc, ◌+◌, ◌-◌, ◌<◌, ◌≡◌, refl, sym, ap, subst, ◌∙◌, true, false, none, some, List, [],
  ◌∷◌, map, arith, inl, inr, Bool-cases, ltb, leb, length, length-set, get_elem?, set,
}
use dynamic_extension.Record.{Wrapped}
use dynamic_extension.Record.Net.{bit}
use dynamic_extension.RangeScan.{
  Iterator, HeapEntry, RangeScanIterator, refill, get_current, get_next,
}
use dynamic_extension.RangeScan.Heap.{heap_sum, entry_below, IsLeast}
use dynamic_extension.RangeScan.Covers.{below, total, Good, total-popped, Good-popped}
use dynamic_extension.RangeScan.Order.{Good-least}
use dynamic_extension.External.{Run, push_next, fetch}
use dynamic_extension.External.Pages.{joined}
use dynamic_extension.External.Runs.{
  AllRuns, AllRuns-get, AllRuns-set, at_run, Fresh, Fresh-set, Fresh-suc, advanced, next_record_lem,
}

-- The run as an iterator, and an entry with the buffer's place in front of the runs.
unfoldable pub as_iter : Run → Iterator
as_iter r = record {
  records = joined r.pages;
  idx = r.insert_cnt;
  end = r.insert_cnt + r.remaining;
}

abbrev pub shift : HeapEntry → HeapEntry
shift e = record { rec = e.rec; source = suc e.source }

-- The merge as a range scan up to the key `k`, with an empty buffer.
unfoldable pub as_scan : ℕ → List Run → List HeapEntry → RangeScanIterator
as_scan k runs heap = record {
  finish = record { key = k; value = 0 };
  buffer_recs = [];
  buffer_idx = 0;
  shard_iters = map as_iter runs;
  heap = map shift heap;
  current = record { key = 0; value = 0 };
  pending = 0;
}

pub length-map : (rs : List Run) → length (map as_iter rs) ≡ length rs
length-map [] = refl
length-map (r ∷ rs) = ap suc (length-map rs)

get_elem?-map :
    (rs : List Run) (i : ℕ) (r : Run)
    → get_elem? rs i ≡ some r
    → get_elem? (map as_iter rs) i ≡ some (as_iter r)
get_elem?-map [] i r h = absurd (ground arith)
get_elem?-map (x ∷ rs) zero r h = ap (λ t. some (as_iter t)) (some_inj.0 h)
get_elem?-map (x ∷ rs) (suc i) r h = get_elem?-map rs i r h

map-set :
    (rs : List Run) (i : ℕ) (r : Run)
    → map as_iter (set rs i r) ≡ set (map as_iter rs) i (as_iter r)
map-set [] i r = refl
map-set (x ∷ rs) zero r = refl
map-set (x ∷ rs) (suc i) r = ap (λ t. as_iter x ∷ t) (map-set rs i r)

advanced-as_iter :
    (n : ℕ) (r : Run) → 0 < r.remaining → as_iter (advanced n r) ≡ get_next (as_iter r)
unfolding as_iter get_next
advanced-as_iter n r h =
    let e : r.insert_cnt + 1 + (r.remaining - 1) ≡ r.insert_cnt + r.remaining = omega arith in
    ap (λ (t : ℕ). record { records = joined r.pages; idx = r.insert_cnt + 1; end = t }) e

current_none : (r : Run) → ltb 0 r.remaining ≡ false → get_current (as_iter r) ≡ none
unfolding get_current as_iter
current_none r h = ground arith

current_some :
    (r : Run) (w : Wrapped)
    → ltb 0 r.remaining ≡ true
    → get_elem? (joined r.pages) r.insert_cnt ≡ some w
    → get_current (as_iter r) ≡ some w
unfolding get_current as_iter
current_some r w h e = ground arith

-- What a fetch from run `i` comes to.
pub record Fetched (n k : ℕ) (runs runs' : List Run) (heap heap' : List HeapEntry) (i : ℕ)
    : Type 0 where
  pub same : as_scan k runs' heap' ≡ refill (as_scan k runs heap) (suc i)
  pub runs_lem : AllRuns n k runs'
  pub count : length runs' ≡ length runs
  pub fresh : Fresh i runs → Fresh (suc i) runs'
  pub sources :
      (f : ℕ → ℕ)
      → f i ≡ 0
      → heap_sum (λ e. f e.source) heap ≡ 0
      → heap_sum (λ e. f e.source) heap' ≡ 0

-- A fetch reads inside of the pages, and is the refill of the scan.
pub fetch-Fetched :
    (n k : ℕ) (runs : List Run) (heap : List HeapEntry) (i : ℕ)
    → 0 < n
    → AllRuns n k runs
    → i < length runs
    → (runs' : List Run) × (heap' : List HeapEntry) × (fetch n runs heap i ≡ some (runs', heap'))
      × Fetched n k runs runs' heap heap' i
unfolding fetch push_next refill as_scan heap_sum
fetch-Fetched n k runs heap i pos all l =
    let (r, at) = at_run runs i l in
    let h = AllRuns-get n k runs i r all at in
    let mapped = get_elem?-map runs i r at in
    elim (Bool-cases (ltb 0 r.remaining)) [
      | inr e ↦ (
        runs,
        heap,
        rw (fetch, at, e) refl,
        record {
          same = rw (refill, mapped, current_none r e) refl;
          runs_lem = all;
          count = refl;
          fresh = Fresh-suc i runs;
          sources = λ f z s. s;
        },
      )
      | inl e ↦
          let (w, next, shown, low, h') = next_record_lem n k r pos h (ground arith) in
          (
            set runs i (advanced n r),
            record { rec = w; source = i } ∷ heap,
            rw (fetch, at, e, push_next, at, next) refl,
            record {
              same =
                  rw
                    (
                      refill,
                      mapped,
                      current_some r w e shown,
                      low,
                      map-set runs i (advanced n r),
                      advanced-as_iter n r (ground arith),
                    )
                    refl;
              runs_lem = AllRuns-set n k runs i (advanced n r) all h';
              count = length-set runs i (advanced n r);
              fresh = Fresh-set i runs (advanced n r);
              sources = λ f z s. omega (arith, z, s);
            },
          )
    ]

heap_sum-shift :
    (f : HeapEntry → ℕ) (es : List HeapEntry)
    → heap_sum f (map shift es) ≡ heap_sum (λ e. f (shift e)) es
unfolding heap_sum
heap_sum-shift f [] = refl
heap_sum-shift f (e ∷ es) = ap (λ t. f (shift e) + t) (heap_sum-shift f es)

IsLeast-shift :
    (es : List HeapEntry) (e : HeapEntry) (others : List HeapEntry)
    → IsLeast es e others
    → IsLeast (map shift es) (shift e) (map shift others)
IsLeast-shift es e others l = (
  λ f.
      heap_sum-shift f es
      ∙ l.0 (λ x. f (shift x))
      ∙ ap (λ t. f (shift e) + t) (sym (heap_sum-shift f others)),
  heap_sum-shift (entry_below e.rec.rec) es ∙ l.1,
)

-- The runs are in order, the heap has a least record of each, and its entries name runs.
pub record IsMerging (n k : ℕ) (runs : List Run) (heap : List HeapEntry) : Type 0 where
  pub runs_lem : AllRuns n k runs
  pub good : Good (as_scan k runs heap)
  pub named : heap_sum (λ e. bit (leb (length runs) e.source)) heap ≡ 0

-- What the merge has still to give, summed up.
abbrev pub left : ℕ → (Wrapped → ℕ) → List Run → List HeapEntry → ℕ
left k f runs heap = total f (as_scan k runs heap)

-- A least record is off the heap, and its run has given its next record.
pub pull :
    (n k : ℕ) (runs : List Run) (heap : List HeapEntry) (e : HeapEntry) (others : List HeapEntry)
    → 0 < n
    → IsMerging n k runs heap
    → IsLeast heap e others
    → (runs' : List Run) × (heap' : List HeapEntry) × (fetch n runs others e.source
        ≡ some (runs', heap'))
      × IsMerging n k runs' heap'
      × ((f : Wrapped → ℕ) → left k f runs' heap' + f e.rec ≡ left k f runs heap)
unfolding as_scan
pull n k runs heap e others pos m l =
    let split = l.0 (λ x. bit (leb (length runs) x.source)) in
    let inside : e.source < length runs = ground (arith, split, m.named) in
    let (runs', heap', runs_fetch, d) =
      fetch-Fetched n k runs others e.source pos m.runs_lem inside in
    let shifted = IsLeast-shift heap e others l in
    (
      runs',
      heap',
      runs_fetch,
      record {
        runs_lem = d.runs_lem;
        good =
            subst Good (sym d.same)
              (Good-popped (as_scan k runs heap) (shift e) (map shift others) shifted m.good);
        named = rw d.count (
            d.sources (λ i. bit (leb (length runs) i)) (ground arith)
              (omega (arith, split, m.named)));
      },
      λ f.
          ap (λ t. total f t + f e.rec) d.same
          ∙ total-popped f (as_scan k runs heap) (shift e) (map shift others) shifted,
    )

-- No record that is left is less than the first of the heap.
pub left-least :
    (n k : ℕ) (runs : List Run) (heap : List HeapEntry) (e : HeapEntry) (others : List HeapEntry)
    → IsMerging n k runs heap
    → IsLeast heap e others
    → left k (below e.rec.rec) runs heap ≡ 0
unfolding as_scan
left-least n k runs heap e others m l =
    Good-least (as_scan k runs heap) (shift e) (map shift others) m.good
      (IsLeast-shift heap e others l)
