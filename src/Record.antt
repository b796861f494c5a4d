-- ===== src/Record.antt =====
-- include/framework/interface/Record.h: key-value records, and the header word that wraps them.
-- The template Record<K, V> is taken at numbers for its keys and values.
pub mod Flags
pub mod Order
pub mod Net
use dynamic_extension.Base.{
  ℕ, ◌*◌, ◌/◌, ◌%◌, Bool, true, false, not, ◌&&◌, ◌||◌, bit_and, bit_or, ltb, ◌==◌,
}
use dynamic_extension.Base.Words.{word_mod}

pub record Record : Type 0 where
  pub key : ℕ
  pub value : ℕ

unfoldable pub rec_lt : Record → Record → Bool
rec_lt a b = ltb a.key b.key || (a.key == b.key && ltb a.value b.value)

unfoldable pub rec_eq : Record → Record → Bool
rec_eq a b = a.key == b.key && a.value == b.value

-- `header` is a 32-bit word: tombstone 1, deleted 2, visible 4, timestamp from bit 3.
pub record Wrapped : Type 0 where
  pub header : ℕ
  pub rec : Record

-- An integer as a condition.
abbrev pub nonzero : ℕ → Bool
nonzero n = not (n == 0)

unfoldable pub set_delete : Wrapped → Wrapped
set_delete w = record w { header = bit_or w.header 2 }

unfoldable pub is_deleted : Wrapped → Bool
is_deleted w = nonzero (bit_and w.header 2)

unfoldable pub set_visible : Wrapped → Wrapped
set_visible w = record w { header = bit_or w.header 4 }

unfoldable pub is_visible : Wrapped → Bool
is_visible w = nonzero (bit_and w.header 4)

unfoldable pub set_timestamp : ℕ → Wrapped → Wrapped
set_timestamp ts w = record w { header = bit_or w.header (8 * ts % word_mod) }

unfoldable pub get_timestamp : Wrapped → ℕ
get_timestamp w = w.header / 8

unfoldable pub clear_timestamp : Wrapped → Wrapped
clear_timestamp w = record w { header = bit_and w.header 7 }

unfoldable pub set_tombstone : Bool → Wrapped → Wrapped
set_tombstone true w = record w { header = bit_or w.header 1 }
set_tombstone false w = record w { header = bit_and w.header 0 }

unfoldable pub is_tombstone : Wrapped → Bool
is_tombstone w = nonzero (bit_and w.header 1)

unfoldable pub wrapped_lt : Wrapped → Wrapped → Bool
unfolding rec_lt rec_eq
wrapped_lt a b = rec_lt a.rec b.rec || (rec_eq a.rec b.rec && ltb a.header b.header)

unfoldable pub wrapped_eq : Wrapped → Wrapped → Bool
unfolding rec_eq
wrapped_eq a b = rec_eq a.rec b.rec
