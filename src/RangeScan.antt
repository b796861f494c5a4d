-- ===== src/RangeScan.antt =====
-- include/framework/structure/RangeScanIterator.h: the records of a key range, merged in sorted order
-- across the buffer and every shard, with the iterator of include/shard/ExternalISAMTree.h.
pub mod Heap
pub mod Sources
pub mod Covers
pub mod Order
pub mod Groups
pub mod Outcome
pub mod Advance
pub mod Results
pub mod Input
pub mod Start
pub mod Range
use mathlib.Core.Option
use dynamic_extension.Base.{
  ℕ, zero, suc, ◌+◌, ◌-◌, ◌==◌, Bool, true, false, ◌&&◌, Option, none, some, List, [], ◌∷◌, ◌++◌,
  ltb, leb, if◌then◌else◌, length, get_elem?, set,
}
use dynamic_extension.Record.{Record, Wrapped, rec_lt, rec_eq, is_tombstone, is_deleted}
use dynamic_extension.View.{BufferView, get, get_record_count}
use dynamic_extension.Level.{Level, get_shard, get_shard_count}

-- A shard's iterator: an index, and the end of the records that its file holds in order.
pub record Iterator : Type 0 where
  pub records : List Wrapped
  pub idx : ℕ
  pub end : ℕ

unfoldable pub get_current : Iterator → Option Wrapped
get_current it = if leb it.end it.idx then none else get_elem? it.records it.idx

unfoldable pub get_next : Iterator → Iterator
get_next it = record it { idx = it.idx + 1 }

pub record HeapEntry : Type 0 where
  pub rec : Wrapped
  pub source : ℕ

-- `a > b`
unfoldable pub entry_gt : HeapEntry → HeapEntry → Bool
entry_gt a b = rec_lt b.rec.rec a.rec.rec

-- A least entry, and the others.
unfoldable pub take_least : HeapEntry → List HeapEntry → HeapEntry × List HeapEntry
take_least e [] = (e, [])
take_least e (x ∷ xs) =
    let (least, others) = take_least x xs in
    if entry_gt e least then (least, e ∷ others) else (e, least ∷ others)

-- `top` and `pop` of std::priority_queue with std::greater.
unfoldable pub pop : List HeapEntry → Option (HeapEntry × List HeapEntry)
pop [] = none
pop (e ∷ es) = some (take_least e es)

-- `ssize_t`, with the steps that the code takes.
pub data ℤ : Type 0 where
  pos : ℕ → ℤ
  negsuc : ℕ → ℤ

unfoldable pub increment : ℤ → ℤ
increment (ℤ.pos n) = ℤ.pos (n + 1)
increment (ℤ.negsuc zero) = ℤ.pos 0
increment (ℤ.negsuc (suc n)) = ℤ.negsuc n

unfoldable pub decrement : ℤ → ℤ
decrement (ℤ.pos zero) = ℤ.negsuc 0
decrement (ℤ.pos (suc n)) = ℤ.pos n
decrement (ℤ.negsuc n) = ℤ.negsuc (n + 1)

pub record RangeScanIterator : Type 0 where
  pub finish : Record
  pub buffer_recs : List Wrapped
  pub buffer_idx : ℕ
  pub shard_iters : List Iterator
  pub heap : List HeapEntry
  pub current : Record
  pub pending : ℕ

-- The buffer is source 0.
unfoldable pub refill : RangeScanIterator → ℕ → RangeScanIterator
refill s zero = elim (get_elem? s.buffer_recs s.buffer_idx) [
  | none ↦ s
  | some w ↦ record s {
    heap = record { rec = w; source = 0 } ∷ s.heap;
    buffer_idx = s.buffer_idx + 1;
  }
]
refill s (suc i) = elim (get_elem? s.shard_iters i) [
  | none ↦ s
  | some it ↦ elim (get_current it) [
    | none ↦ s
    | some w ↦
        if leb w.rec.key s.finish.key
        then record s {
          heap = record { rec = w; source = suc i } ∷ s.heap;
          shard_iters = set s.shard_iters i (get_next it);
        }
        else s
  ]
]

unfoldable pub count_entry : ℤ → Wrapped → ℤ
count_entry live w =
    if is_tombstone w then decrement live else if is_deleted w then live else increment live

-- The inner loop, on fuel.
unfoldable pub count_equal : ℕ → Record → ℤ → RangeScanIterator → Option (ℤ × RangeScanIterator)
count_equal zero rec live s = none
count_equal (suc n) rec live s = elim (pop s.heap) [
  | none ↦ some (live, s)
  | some (entry, heap) ↦
      let rest =
        count_equal n rec (count_entry live entry.rec)
          (refill (record s { heap = heap }) entry.source) in
      if rec_eq entry.rec.rec rec then rest else some (live, s)
]

-- `m_pending`, once `live > 0` is known.
abbrev pub positive : ℤ → ℕ
positive (ℤ.pos n) = n
positive (ℤ.negsuc n) = 0

-- The outer loop, on fuel; `m` is that of the inner one.
unfoldable pub advance : ℕ → ℕ → RangeScanIterator → Option RangeScanIterator
advance m zero s = none
advance m (suc n) s = elim (pop s.heap) [
  | none ↦ some (record s { pending = 0 })
  | some (top, _) ↦ Option.bind (count_equal m top.rec.rec (ℤ.pos 0) s) (λ (live, s').
      let rest = advance m n s' in
      if ltb 0 (positive live)
      then some (record s' { current = top.rec.rec; pending = positive live })
      else rest)
]

unfoldable pub has_next : RangeScanIterator → Bool
has_next s = ltb 0 s.pending

-- The assertion is `none`.
unfoldable pub next : ℕ → RangeScanIterator → Option (Record × RangeScanIterator)
next m s =
    if ltb 0 s.pending
    then (if s.pending - 1 == 0
        then Option.map (λ s'. (s.current, s')) (advance m m (record s { pending = 0 }))
        else some (s.current, record s { pending = s.pending - 1 }))
    else none

-- What a caller gets who calls `next` while `has_next`, on fuel.
unfoldable pub results : ℕ → ℕ → RangeScanIterator → Option (List Record)
results m zero s = none
results m (suc k) s =
    let rest = Option.bind (next m s) (λ (r, s'). Option.map (λ rs. r ∷ rs) (results m k s')) in
    if has_next s then rest else some []

-- The loop of the constructor over the buffer's records.
unfoldable pub buffer_range : ℕ → ℕ → List Wrapped → List Wrapped
buffer_range start finish [] = []
buffer_range start finish (w ∷ ws) =
    let rest = buffer_range start finish ws in
    if leb start w.rec.key && leb w.rec.key finish then w ∷ rest else rest

-- The iterators of the `n` shards of a level from `i`, and those of all levels. `get_iterator` is
-- that of the shards, `key` the first key of the range.
unfoldable pub level_iters : {S : Type 0} → (S → ℕ → Iterator) → ℕ → Level S → ℕ → ℕ → List Iterator
level_iters get_iterator key l i zero = []
level_iters get_iterator key l i (suc n) =
    let rest = level_iters get_iterator key l (i + 1) n in
    elim (get_shard l i) [ none ↦ rest | some s ↦ get_iterator s key ∷ rest ]

unfoldable pub all_iters : {S : Type 0} → (S → ℕ → Iterator) → ℕ → List (Level S) → List Iterator
all_iters get_iterator key [] = []
all_iters get_iterator key (l ∷ ls) =
    level_iters get_iterator key l 0 (get_shard_count l) ++ all_iters get_iterator key ls

unfoldable pub refill_from : RangeScanIterator → ℕ → ℕ → RangeScanIterator
refill_from s source zero = s
refill_from s source (suc n) = refill_from (refill s source) (source + 1) n

-- The members before the first `refill`. `sort` is std::sort by the order on records.
unfoldable pub unfilled :
    (List Wrapped → List Wrapped)
    → Record
    → Record
    → List Wrapped
    → List Iterator
    → RangeScanIterator
unfilled sort start finish view iters = record {
  finish = finish;
  buffer_recs = sort (buffer_range start.key finish.key view);
  buffer_idx = 0;
  shard_iters = iters;
  heap = [];
  current = record { key = 0; value = 0 };
  pending = 0;
}

-- The loop of `refill` and the first `advance`; `view` are the records of the buffer's view, and `m` is
-- the fuel.
unfoldable pub make_scan :
    ℕ
    → (List Wrapped → List Wrapped)
    → Record
    → Record
    → List Wrapped
    → List Iterator
    → Option RangeScanIterator
make_scan m sort start finish view iters =
    advance m m (refill_from (unfilled sort start finish view iters) 0 (suc (length iters)))

-- The constructor, over the view and the levels of an epoch.
unfoldable pub range_scan :
    {S : Type 0}
    → ℕ
    → (List Wrapped → List Wrapped)
    → (S → ℕ → Iterator)
    → Record
    → Record
    → List Wrapped
    → List (Level S)
    → Option RangeScanIterator
range_scan m sort get_iterator start finish view levels =
    make_scan m sort start finish view (all_iters get_iterator start.key levels)
