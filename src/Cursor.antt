-- ===== src/Cursor.antt =====
-- include/util/Cursor.h: a position in a sorted array.
use dynamic_extension.Base.{
  ℕ, ◌+◌, Bool, true, false, List, [], ◌∷◌, leb, if◌then◌else◌, length, get_or,
}
use dynamic_extension.Record.{Wrapped}

-- `rest` is the array from `ptr` to `end`; it is empty if both are null.
pub record Cursor : Type 0 where
  pub rest : List Wrapped
  pub cur_rec_idx : ℕ
  pub rec_cnt : ℕ

-- A cursor on a whole array, or on none.
unfoldable pub make_cursor : List Wrapped → Cursor
make_cursor ws = record { rest = ws; cur_rec_idx = 0; rec_cnt = length ws }

-- `ptr < end`
abbrev pub in_array : List Wrapped → Bool
in_array [] = false
in_array (w ∷ ws) = true

abbrev pub past : List Wrapped → List Wrapped
past [] = []
past (w ∷ ws) = ws

unfoldable pub advance_cursor : Cursor → Bool × Cursor
advance_cursor c = (
  if leb c.rec_cnt (c.cur_rec_idx + 1) then false else in_array (past c.rest),
  record c { rest = past c.rest; cur_rec_idx = c.cur_rec_idx + 1 },
)

-- `cursors[i]`; the code reads it in range only.
abbrev pub cursor_at : List Cursor → ℕ → Cursor
cursor_at cursors i = get_or cursors i (record { rest = []; cur_rec_idx = 0; rec_cnt = 0 })
