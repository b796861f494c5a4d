-- ===== src/Buffer.antt =====
-- include/framework/structure/MutableBuffer.h: the buffer that takes inserts. Each operation runs
-- here without another thread in between, so its compare-and-exchange loops end in one round.
-- `none` stands for a call that does not return: a failed assertion, or a loop that spins on.
pub mod Clients
pub mod Heads
pub mod Append
pub mod Safety
pub mod Replay
use mathlib.Core.Option
use dynamic_extension.Base.{
  ℕ, ◌+◌, ◌-◌, ◌*◌, ◌%◌, Bool, true, false, not, ◌&&◌, Option, none, some, List, [], ltb, leb, ◌==◌,
  if◌then◌else◌, get_or, set, replicate,
}
use dynamic_extension.Base.Words.{word_mod, sub64, add64, narrow32, widen64}
use dynamic_extension.Bloom.{Bloom}
use dynamic_extension.Record.{Record, Wrapped, set_tombstone, set_timestamp, set_visible}
use dynamic_extension.View.{BufferView, blank, cell, make_view, check_tombstone}
use dynamic_extension.Wal.{Wal, flush_begin, flush_complete}
use dynamic_extension.Wal

pub record Head : Type 0 where
  pub head_idx : ℕ
  pub refcnt : ℕ

-- `wal` is null if the buffer was made without one. The tombstone filter is never null.
pub record Buffer (F : Type 0) : Type 0 where
  pub lwm : ℕ
  pub hwm : ℕ
  pub cap : ℕ
  pub tail : ℕ
  pub head : Head
  pub old_head : Head
  pub cells : List Wrapped
  pub tombstone_filter : F
  pub tscnt : ℕ
  pub active_head_advance : Bool
  pub wal : Option Wal

abbrev pub default_cap : ℕ → ℕ → ℕ
default_cap capacity hwm = if capacity == 0 then 2 * hwm else capacity

-- The `int64_t` result as it arrives in `int32_t tail`.
unfoldable pub received : Option ℕ → ℕ
received none = word_mod - 1
received (some old) = narrow32 old

abbrev pub wrap_record : Record → Bool → Wrapped
wrap_record rec tombstone =
    if tombstone
    then set_tombstone true (record { header = 0; rec = rec })
    else record { header = 0; rec = rec }

module _ {F : Type 0} where
  -- The constructor up to the replay of the log; `none` if an assertion fails.
  unfoldable pub make_buffer : Bloom F → ℕ → ℕ → ℕ → Option Wal → Option (Buffer F)
  make_buffer b lwm hwm capacity wal =
      if ltb hwm (default_cap capacity hwm) && leb lwm hwm
      then some (record {
        lwm = lwm;
        hwm = hwm;
        cap = default_cap capacity hwm;
        tail = 0;
        head = record { head_idx = 0; refcnt = 0 };
        old_head = record { head_idx = hwm; refcnt = 0 };
        cells = replicate (default_cap capacity hwm) blank;
        tombstone_filter = b.empty;
        tscnt = 0;
        active_head_advance = false;
        wal = wal;
      })
      else none

  unfoldable pub get_record_count : Buffer F → ℕ
  get_record_count buf = sub64 buf.tail buf.head.head_idx

  unfoldable pub is_full : Buffer F → Bool
  is_full buf = leb buf.hwm (get_record_count buf)

  unfoldable pub is_at_low_watermark : Buffer F → Bool
  is_at_low_watermark buf = leb buf.lwm (get_record_count buf)

  unfoldable pub get_tombstone_count : Buffer F → ℕ
  get_tombstone_count buf = buf.tscnt

  -- `none` is the result -1.
  unfoldable pub try_advance_tail : Buffer F → Option ℕ × Buffer F
  try_advance_tail buf =
      if leb buf.hwm (sub64 buf.tail buf.head.head_idx)
      then (none, buf)
      else (some buf.tail, record buf { tail = add64 buf.tail 1 })

  -- What `append` does once it has its slot.
  unfoldable pub place : Bloom F → Buffer F → ℕ → Record → Bool → Bool → Buffer F
  place b buf pos rec tombstone logging = record buf {
    wal = if logging then Option.map (Wal.append (wrap_record rec tombstone)) buf.wal else buf.wal;
    cells = set buf.cells pos (set_visible (set_timestamp pos (wrap_record rec tombstone)));
    tscnt = if tombstone then add64 buf.tscnt 1 else buf.tscnt;
    tombstone_filter =
        if tombstone then b.insert buf.tombstone_filter rec else buf.tombstone_filter;
  }

  -- True for the result 1.
  unfoldable pub append : Bloom F → Buffer F → Record → Bool → Bool → Bool × Buffer F
  append b buf rec tombstone logging =
      let (slot, claimed) = try_advance_tail buf in
      if received slot == word_mod - 1
      then (false, claimed)
      else (true, place b claimed (widen64 (received slot) % claimed.cap) rec tombstone logging)

  unfoldable pub truncate : Bloom F → Buffer F → Bool × Buffer F
  truncate b buf = (true, record buf { tscnt = 0; tail = 0; tombstone_filter = b.empty })

  -- Takes a reference to one of the two heads. Neither matches: the loop does not end.
  unfoldable pub get_head : Buffer F → ℕ → Option (ℕ × Buffer F)
  get_head buf target =
      if buf.old_head.head_idx == target
      then some (
        target,
        record buf { old_head = record { head_idx = target; refcnt = buf.old_head.refcnt + 1 } },
      )
      else if buf.head.head_idx == target
      then some
          (target, record buf { head = record { head_idx = target; refcnt = buf.head.refcnt + 1 } })
      else none

  unfoldable pub view_at : Buffer F → ℕ → BufferView F
  view_at buf head = make_view buf.cap head buf.tail buf.tscnt (some buf.tombstone_filter)

  unfoldable pub get_buffer_view_at : Buffer F → ℕ → Option (BufferView F × Buffer F)
  get_buffer_view_at buf target = Option.map (λ r. (view_at r.1 r.0, r.1)) (get_head buf target)

  unfoldable pub get_buffer_view : Buffer F → Option (BufferView F × Buffer F)
  get_buffer_view buf = Option.map (λ r. (view_at r.1 r.0, r.1)) (get_head buf buf.head.head_idx)

  -- The release function of a view. A count of zero makes it spin.
  unfoldable pub release_head_reference : Buffer F → ℕ → Option (Buffer F)
  release_head_reference buf head =
      if buf.old_head.head_idx == head
      then (if buf.old_head.refcnt == 0
          then none
          else some (record buf {
            old_head = record {
              head_idx = buf.old_head.head_idx;
              refcnt = buf.old_head.refcnt - 1;
            };
          }))
      else (if buf.head.refcnt == 0
          then none
          else some (record buf {
            head = record { head_idx = buf.head.head_idx; refcnt = buf.head.refcnt - 1 };
          }))

  unfoldable pub advance_head : Buffer F → ℕ → Option (Bool × Buffer F)
  advance_head buf new_head =
      if ltb buf.head.head_idx new_head && leb new_head buf.tail
      then some (
          if ltb 0 buf.old_head.refcnt then (false, buf) else (
            true,
            record buf {
              head = record { head_idx = new_head; refcnt = 0 };
              old_head = buf.head;
              wal = Option.map (λ w. flush_complete (flush_begin w)) buf.wal;
              active_head_advance = false;
            },
          ))
      else none

  unfoldable pub set_low_watermark : Buffer F → ℕ → Option (Buffer F)
  set_low_watermark buf lwm = if ltb lwm buf.hwm then some (record buf { lwm = lwm }) else none

  unfoldable pub set_high_watermark : Buffer F → ℕ → Option (Buffer F)
  set_high_watermark buf hwm =
      if ltb buf.lwm hwm && ltb hwm buf.cap then some (record buf { hwm = hwm }) else none

  unfoldable pub get_available_capacity : Buffer F → ℕ
  get_available_capacity buf =
      if buf.old_head.refcnt == 0
      then sub64 buf.cap (sub64 buf.tail buf.head.head_idx)
      else sub64 buf.cap (sub64 buf.tail buf.old_head.head_idx)
