-- ===== src/External.antt =====
-- include/shard/ExternalISAMTree.h: a shard in a file of pages, of fewer than 2^32 pages. This file
-- has the data pages and how they are built: sorted runs, and their merge. The pages are the lists
-- of their records; the zeros that fill up a page are left out, and a read of such a slot is
-- `none`.
pub mod Pages
pub mod Runs
pub mod Pull
pub mod Rounds
pub mod Loop
pub mod Start
pub mod Merged
pub mod Built
pub mod Reads
pub mod Nodes
pub mod Levels
pub mod Around
pub mod Slots
pub mod Bound
pub mod Search
pub mod Lookup
use mathlib.Core.Option
use dynamic_extension.Base.{
  ℕ, zero, suc, ◌+◌, ◌-◌, ◌*◌, ◌/◌, ◌%◌, Bool, true, false, not, ◌&&◌, Option, none, some, List, [],
  ◌∷◌, ◌++◌, map, ltb, ◌==◌, if◌then◌else◌, min, length, get_elem?, get_or, set, take, drop,
}
use dynamic_extension.Base.Words.{sub64}
use dynamic_extension.Record.{Record, Wrapped, rec_eq, is_tombstone}
use dynamic_extension.View.{BufferView, get, get_record_count, get_tombstone_count}
use dynamic_extension.RangeScan.{HeapEntry, pop}

-- A run, with the entries of the merge's vectors for it: the file's data pages, the page that was
-- read last, the records that were pushed, and those that remain. Both callers give the counts.
pub record Run : Type 0 where
  pub pages : List (List Wrapped)
  pub buffer : List Wrapped
  pub insert_cnt : ℕ
  pub remaining : ℕ

abbrev pub opened : List (List Wrapped) → ℕ → Run
opened pages records = record { pages = pages; buffer = []; insert_cnt = 0; remaining = records }

-- Two records of which one erases the other.
unfoldable pub erases : Wrapped → Wrapped → Bool
erases x y = rec_eq y.rec x.rec && (if is_tombstone x then not (is_tombstone y) else is_tombstone y)

pub record MergeState : Type 0 where
  pub runs : List Run
  pub heap : List HeapEntry
  pub written : List (List Wrapped)
  pub page : List Wrapped
  pub cancelled : ℕ

-- The shard: its data pages, and the figures that go with them.
pub record Stored : Type 0 where
  pub pages : List (List Wrapped)
  pub last_data_page : ℕ
  pub reccnt : ℕ
  pub tombstone_cnt : ℕ

-- The last page is written, and the counts of the cancelled records are taken off.
unfoldable pub close_merge : ℕ → ℕ → MergeState → Stored
close_merge reccnt tombstone_cnt s =
    let left = sub64 reccnt (2 * s.cancelled) in
    record {
      pages = if ltb 0 (length s.page) then s.written ++ s.page ∷ [] else s.written;
      last_data_page = if ltb 0 left then length s.written + 1 else 0;
      reccnt = left;
      tombstone_cnt = sub64 tombstone_cnt s.cancelled;
    }

unfoldable pub sum_shards : (Stored → ℕ) → List Stored → ℕ
sum_shards f [] = 0
sum_shards f (t ∷ ts) = f t + sum_shards f ts

-- `leaf_fanout` is LEAF_FANOUT, the records that fit on a page.
module _ (leaf_fanout : ℕ) where
  -- The next record of a run. A page is read when the one before is used up. A run with no record
  -- has no first one, and its count would wrap: `none`.
  unfoldable pub next_record : Run → Option (Wrapped × Run)
  next_record r =
      let buffer =
        (if r.insert_cnt % leaf_fanout == 0
          then get_or r.pages (r.insert_cnt / leaf_fanout) []
          else r.buffer) in
      Option.map
        (λ w. (
          w,
          record r { buffer = buffer; insert_cnt = r.insert_cnt + 1; remaining = r.remaining - 1 },
        ))
        (get_elem? buffer (r.insert_cnt % leaf_fanout))

  -- Run `i` gives its next record to the heap.
  unfoldable pub push_next : List Run → List HeapEntry → ℕ → Option (List Run × List HeapEntry)
  push_next runs heap i = elim (get_elem? runs i) [
    | none ↦ none
    | some r ↦
        Option.map (λ (w, r'). (set runs i r', record { rec = w; source = i } ∷ heap))
          (next_record r)
  ]

  -- The first loop, from run `i` on, with `n` runs left.
  unfoldable pub push_first : List Run → List HeapEntry → ℕ → ℕ → Option (List Run × List HeapEntry)
  push_first runs heap i zero = some (runs, heap)
  push_first runs heap i (suc n) =
      Option.bind (push_next runs heap i) (λ (runs', heap'). push_first runs' heap' (i + 1) n)

  -- The same, if any record remains.
  unfoldable pub fetch : List Run → List HeapEntry → ℕ → Option (List Run × List HeapEntry)
  fetch runs heap i = elim (get_elem? runs i) [
    | none ↦ none
    | some r ↦ if ltb 0 r.remaining then push_next runs heap i else some (runs, heap)
  ]

  -- A record goes to the page, which is written first if it is full.
  unfoldable pub put : MergeState → Wrapped → MergeState
  put s w =
      if length s.page == leaf_fanout
      then record s { written = s.written ++ s.page ∷ []; page = w ∷ [] }
      else record s { page = s.page ++ w ∷ [] }

  -- What follows in a round once `min` is off the heap and its run has given its next record.
  unfoldable pub cancel_or_put : MergeState → Wrapped → Option MergeState
  cancel_or_put s min = elim (pop s.heap) [
    | none ↦ some (put s min)
    | some (other, heap) ↦
        let cancel =
          Option.map
            (λ (runs, heap'). record s { runs = runs; heap = heap'; cancelled = s.cancelled + 1 })
            (fetch s.runs heap other.source) in
        if erases min other.rec then cancel else some (put s min)
  ]

  unfoldable pub merge_round : MergeState → HeapEntry → List HeapEntry → Option MergeState
  merge_round s min heap =
      Option.bind (fetch s.runs heap min.source)
        (λ (runs, heap'). cancel_or_put (record s { runs = runs; heap = heap' }) min.rec)

  -- The second loop, on fuel: `none` if it runs out.
  unfoldable pub merge_loop : ℕ → MergeState → Option MergeState
  merge_loop zero s = none
  merge_loop (suc n) s = elim (pop s.heap) [
    | none ↦ some s
    | some (min, heap) ↦ Option.bind (merge_round s min heap) (λ s'. merge_loop n s')
  ]

  unfoldable pub external_merge_sort : ℕ → List Run → ℕ → ℕ → Option Stored
  external_merge_sort fuel runs reccnt tombstone_cnt =
      Option.bind (push_first runs [] 0 (length runs)) (λ (runs', heap).
        Option.map (close_merge reccnt tombstone_cnt) (
          merge_loop fuel
            (record { runs = runs'; heap = heap; written = []; page = []; cancelled = 0 })))

  -- The runs of a view: chunks of a page, each sorted. `sort` is std::sort; with `n` chunks left.
  unfoldable pub create_sorted_runs : (List Wrapped → List Wrapped) → List Wrapped → ℕ → List Run
  create_sorted_runs sort view zero = []
  create_sorted_runs sort view (suc n) =
      let chunk = take leaf_fanout view in
      opened (sort chunk ∷ []) (length chunk) ∷ create_sorted_runs sort (drop leaf_fanout view) n

  -- The rounds of `for (start = 0; start < reccnt; start += LEAF_FANOUT)`.
  unfoldable pub chunk_count : ℕ → ℕ
  chunk_count reccnt = (reccnt + (leaf_fanout - 1)) / leaf_fanout

  -- The constructors, up to the internal levels. `view` are the records of the buffer, and
  -- `tombstones` the count that its view reports.
  unfoldable pub of_view : ℕ → (List Wrapped → List Wrapped) → List Wrapped → ℕ → Option Stored
  of_view fuel sort view tombstones =
      external_merge_sort fuel (create_sorted_runs sort view (chunk_count (length view)))
        (length view) tombstones

  unfoldable pub of_shards : ℕ → List Stored → Option Stored
  of_shards fuel shards =
      external_merge_sort fuel (map (λ t. opened t.pages t.reccnt) shards)
        (sum_shards (λ t. t.reccnt) shards) (sum_shards (λ t. t.tombstone_cnt) shards)
