-- ===== src/Record/Flags.antt =====
-- The header of a wrapped record (Record.h) as four independent fields.
use native.Mathlib.Nat.{mod-eq_of_lt}
use dynamic_extension.Base.{ℕ, ◌+◌, ◌*◌, ◌%◌, ◌<◌, ◌≡◌, Bool, true, false, arith, if◌then◌else◌}
use dynamic_extension.Base.Bits.{
  bit_and-one, bit_and-two, bit_and-four, bit_and-seven, bit_and-zero, bit_or-one, bit_or-two,
  bit_or-four, bit_or-eight_mul, bit_or-zero_left,
}
use dynamic_extension.Base.Words.{word_mod}
use dynamic_extension.Record.{
  Wrapped, set_delete, is_deleted, set_visible, is_visible, set_timestamp, get_timestamp,
  clear_timestamp, set_tombstone, is_tombstone,
}

pub record Flags : Type 0 where
  pub timestamp : ℕ
  pub visible : Bool
  pub deleted : Bool
  pub tombstone : Bool

-- What the getters report of a record.
abbrev pub flags : Wrapped → Flags
flags w = record {
  timestamp = get_timestamp w;
  visible = is_visible w;
  deleted = is_deleted w;
  tombstone = is_tombstone w;
}

abbrev pub bit : Bool → ℕ
bit b = if b then 1 else 0

-- The header word that a set of flags stands for.
abbrev pub header_of : Flags → ℕ
header_of f = 8 * f.timestamp + 4 * bit f.visible + 2 * bit f.deleted + bit f.tombstone

-- The four getters read the header without loss: the word can be computed back from them.
pub header_of-flags : (w : Wrapped) → header_of (flags w) ≡ w.header
unfolding get_timestamp is_visible is_deleted is_tombstone
header_of-flags w =
    ground (arith, bit_and-one w.header, bit_and-two w.header, bit_and-four w.header)

pub flags-set_delete : (w : Wrapped) → flags (set_delete w) ≡ record (flags w) { deleted = true }
unfolding get_timestamp is_visible is_deleted is_tombstone set_delete
flags-set_delete w = ground (
  arith,
  bit_or-two w.header,
  bit_and-one w.header,
  bit_and-two w.header,
  bit_and-four w.header,
  bit_and-one (set_delete w).header,
  bit_and-two (set_delete w).header,
  bit_and-four (set_delete w).header,
)

pub flags-set_visible : (w : Wrapped) → flags (set_visible w) ≡ record (flags w) { visible = true }
unfolding get_timestamp is_visible is_deleted is_tombstone set_visible
flags-set_visible w = ground (
  arith,
  bit_or-four w.header,
  bit_and-one w.header,
  bit_and-two w.header,
  bit_and-four w.header,
  bit_and-one (set_visible w).header,
  bit_and-two (set_visible w).header,
  bit_and-four (set_visible w).header,
)

pub flags-set_tombstone :
    (w : Wrapped) → flags (set_tombstone true w) ≡ record (flags w) { tombstone = true }
unfolding get_timestamp is_visible is_deleted is_tombstone set_tombstone
flags-set_tombstone w = ground (
  arith,
  bit_or-one w.header,
  bit_and-one w.header,
  bit_and-two w.header,
  bit_and-four w.header,
  bit_and-one (set_tombstone true w).header,
  bit_and-two (set_tombstone true w).header,
  bit_and-four (set_tombstone true w).header,
)

pub flags-clear_timestamp :
    (w : Wrapped) → flags (clear_timestamp w) ≡ record (flags w) { timestamp = 0 }
unfolding get_timestamp is_visible is_deleted is_tombstone clear_timestamp
flags-clear_timestamp w = ground (
  arith,
  bit_and-seven w.header,
  bit_and-one w.header,
  bit_and-two w.header,
  bit_and-four w.header,
  bit_and-one (clear_timestamp w).header,
  bit_and-two (clear_timestamp w).header,
  bit_and-four (clear_timestamp w).header,
)

set_timestamp_header :
    (ts : ℕ) (w : Wrapped)
    → 8 * ts < word_mod
    → get_timestamp w ≡ 0
    → (set_timestamp ts w).header ≡ ts * 8 + w.header % 8
unfolding get_timestamp set_timestamp
set_timestamp_header ts w small fresh =
    rw (mod-eq_of_lt small, bit_or-eight_mul w.header ts, fresh, bit_or-zero_left ts)

-- On a header without a timestamp, `set_timestamp` stores one below 2^29 beside the flags, and
-- changes no flag.
pub flags-set_timestamp :
    (ts : ℕ) (w : Wrapped)
    → 8 * ts < word_mod
    → get_timestamp w ≡ 0
    → flags (set_timestamp ts w) ≡ record (flags w) { timestamp = ts }
unfolding get_timestamp is_visible is_deleted is_tombstone set_timestamp
flags-set_timestamp ts w small fresh = ground (
  arith,
  set_timestamp_header ts w small fresh,
  bit_and-one w.header,
  bit_and-two w.header,
  bit_and-four w.header,
  bit_and-one (set_timestamp ts w).header,
  bit_and-two (set_timestamp ts w).header,
  bit_and-four (set_timestamp ts w).header,
)

-- What `set_tombstone(false)` does: `header &= 0` clears the other flags as well.
pub flags-set_tombstone-false :
    (w : Wrapped)
    → flags (set_tombstone false w)
      ≡ record { timestamp = 0; visible = false; deleted = false; tombstone = false }
unfolding get_timestamp is_visible is_deleted is_tombstone set_tombstone
flags-set_tombstone-false w =
    ground (arith, bit_and-zero w.header, bit_and-one 0, bit_and-two 0, bit_and-four 0)
