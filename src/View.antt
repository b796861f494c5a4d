-- ===== src/View.antt =====
-- include/framework/structure/BufferView.h: a window on the ring of a mutable buffer. The view
-- shares the buffer's array, which is an argument of every operation here.
pub mod Contents
pub mod Tombstone
pub mod Marks
pub mod Delete
use dynamic_extension.Base.{
  ℕ, zero, suc, ◌+◌, ◌-◌, ◌%◌, Bool, true, false, not, ◌&&◌, Option, none, some, List, [], ◌∷◌,
  ◌++◌, ltb, leb, if◌then◌else◌, get_or, set, take, drop,
}
use dynamic_extension.Base.Words.{sub64}
use dynamic_extension.Bloom.{Bloom}
use dynamic_extension.Record.{Record, Wrapped, rec_eq, set_delete, is_tombstone}

pub record BufferView (F : Type 0) : Type 0 where
  pub head : ℕ
  pub tail : ℕ
  pub start : ℕ
  pub stop : ℕ
  pub cap : ℕ
  pub approx_ts_cnt : ℕ
  pub tombstone_filter : Option F
  pub active : Bool

-- A cell of the array as `new Wrapped<R>[cap]()` makes it.
abbrev pub blank : Wrapped
blank = record { header = 0; rec = record { key = 0; value = 0 } }

-- The cell at an index of the array.
abbrev pub cell : List Wrapped → ℕ → Wrapped
cell cells i = get_or cells i blank

module _ {F : Type 0} where
  unfoldable pub make_view : ℕ → ℕ → ℕ → ℕ → Option F → BufferView F
  make_view cap head tail ts filter = record {
    head = head;
    tail = tail;
    start = head % cap;
    stop = tail % cap;
    cap = cap;
    approx_ts_cnt = ts;
    tombstone_filter = filter;
    active = true;
  }

  unfoldable pub get_record_count : BufferView F → ℕ
  get_record_count v = sub64 v.tail v.head

  unfoldable pub get_tombstone_count : BufferView F → ℕ
  get_tombstone_count v = v.approx_ts_cnt

  unfoldable pub to_idx : BufferView F → ℕ → ℕ
  to_idx v i = if leb v.cap (v.start + i) then i - (v.cap - v.start) else v.start + i

  unfoldable pub get : BufferView F → List Wrapped → ℕ → Wrapped
  unfolding to_idx
  get v cells i = cell cells (to_idx v i)

  -- The loop of `check_tombstone`: index `i`, with `n` rounds left.
  unfoldable pub check_from : BufferView F → List Wrapped → Record → ℕ → ℕ → Bool
  check_from v cells r i zero = false
  check_from v cells r i (suc n) =
      let rest = check_from v cells r (i + 1) n in
      if rec_eq (get v cells i).rec r && is_tombstone (get v cells i) then true else rest

  unfoldable pub filter_misses : Bloom F → Option F → Record → Bool
  filter_misses b none r = false
  filter_misses b (some f) r = not (b.lookup f r)

  unfoldable pub check_tombstone : Bloom F → BufferView F → List Wrapped → Record → Bool
  check_tombstone b v cells r =
      if filter_misses b v.tombstone_filter r
      then false
      else check_from v cells r 0 (get_record_count v)

-- A loop of `delete_record`: the array with its first match marked.
unfoldable pub mark_first : Record → List Wrapped → ℕ → ℕ → Option (List Wrapped)
mark_first r cells i zero = none
mark_first r cells i (suc n) =
    let rest = mark_first r cells (i + 1) n in
    if rec_eq (cell cells i).rec r then some (set cells i (set_delete (cell cells i))) else rest

abbrev pub finish : List Wrapped → Option (List Wrapped) → Bool × List Wrapped
finish cells none = (false, cells)
finish cells (some marked) = (true, marked)

module _ {F : Type 0} where
  unfoldable pub delete_record : BufferView F → List Wrapped → Record → Bool × List Wrapped
  delete_record v cells r =
      if ltb v.start v.stop
      then finish cells (mark_first r cells v.start (v.stop - v.start))
      else elim (mark_first r cells v.start (v.cap - v.start)) [
        | some marked ↦ (true, marked)
        | none ↦ finish cells (mark_first r cells 0 v.stop)
      ]

  unfoldable pub copy_to_buffer : BufferView F → List Wrapped → List Wrapped
  copy_to_buffer v cells =
      if ltb v.stop v.start
      then take (v.cap - v.start) (drop v.start cells) ++ take v.stop cells
      else take (get_record_count v) (drop v.start cells)
