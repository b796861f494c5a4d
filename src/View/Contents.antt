-- ===== src/View/Contents.antt =====
-- The records that a view shows (BufferView.h), in order, and the copy that is made of them.
use native.Mathlib.Nat.{
  mod-lt, mod-add-mod, mod-eq_of_lt, mod-eq-sub-mod, zero-add, add-zero, suc-add,
}
use mathlib.Core.Path.{ap₂}
use native.Mathlib.Numerals.{add-one}
use dynamic_extension.Base.{
  ℕ, zero, suc, ◌+◌, ◌-◌, ◌%◌, ◌≤◌, ◌<◌, ◌≡◌, refl, sym, ap, ◌∙◌, List, [], ◌∷◌, ◌++◌, arith, ltb,
  ltb→lt, if◌then◌else◌, take, drop, length, Bool-cases, inl, inr,
}
use dynamic_extension.Base.Words.{size_mod}
use dynamic_extension.Record.{Wrapped}
use dynamic_extension.View.{BufferView, cell, get_record_count, to_idx, get, copy_to_buffer}

-- The cells from index `i`, `n` of them, as they lie in the array.
unfoldable pub cells_from : List Wrapped → ℕ → ℕ → List Wrapped
cells_from cells i zero = []
cells_from cells i (suc n) = cell cells i ∷ cells_from cells (i + 1) n

drop-cell :
    (i : ℕ) (cells : List Wrapped)
    → i < length cells
    → drop i cells ≡ cell cells i ∷ drop (suc i) cells
drop-cell i [] h = absurd (omega arith)
drop-cell zero (w ∷ ws) h = refl
drop-cell (suc i) (w ∷ ws) h = drop-cell i ws (omega arith)

take-drop-cells_from :
    (n i : ℕ) (cells : List Wrapped)
    → i + n ≤ length cells
    → take n (drop i cells) ≡ cells_from cells i n
unfolding cells_from
take-drop-cells_from zero i cells h = refl
take-drop-cells_from (suc n) i cells h =
    rw (drop-cell i cells (omega arith), ← add-one i)
      (ap (λ t. cell cells i ∷ t) (take-drop-cells_from n (i + 1) cells (omega arith)))

-- A view that the buffer hands out: the window fits the ring and does not fill it.
pub record IsWindow {F : Type 0} (v : BufferView F) (cells : List Wrapped) : Type 0 where
  pub start_lem : v.start ≡ v.head % v.cap
  pub stop_lem : v.stop ≡ v.tail % v.cap
  pub size : length cells ≡ v.cap
  pub ordered : v.head ≤ v.tail
  pub fits : v.tail < v.head + v.cap
  pub small : v.tail < size_mod

module _ {F : Type 0} where
  -- `get` at `i`, and at the `n - 1` indices behind it.
  unfoldable pub gets : BufferView F → List Wrapped → ℕ → ℕ → List Wrapped
  gets v cells i zero = []
  gets v cells i (suc n) = get v cells i ∷ gets v cells (i + 1) n

  -- What a reader sees who calls `get` at every index.
  unfoldable pub contents : BufferView F → List Wrapped → List Wrapped
  contents v cells = gets v cells 0 (get_record_count v)

  pub gets-append :
      (v : BufferView F) (cells : List Wrapped) (m n i : ℕ)
      → gets v cells i (m + n) ≡ gets v cells i m ++ gets v cells (i + m) n
  unfolding gets
  gets-append v cells zero n i = rw (zero-add n, add-zero i) refl
  gets-append v cells (suc m) n i = rw (suc-add m n) (
      ap (λ t. get v cells i ∷ t)
        (gets-append v cells m n (i + 1)
          ∙ ap (λ t. gets v cells (i + 1) m ++ gets v cells t n) (omega arith)))

  to_idx-low : (v : BufferView F) (i : ℕ) → v.start + i < v.cap → to_idx v i ≡ v.start + i
  unfolding to_idx
  to_idx-low v i h = ground arith

  to_idx-high :
      (v : BufferView F) (i : ℕ)
      → v.start < v.cap
      → v.cap ≤ v.start + i
      → to_idx v i ≡ v.start + i - v.cap
  unfolding to_idx
  to_idx-high v i h k = ground arith

  gets-low :
      (v : BufferView F) (cells : List Wrapped) (n i : ℕ)
      → v.start + i + n ≤ v.cap
      → gets v cells i n ≡ cells_from cells (v.start + i) n
  unfolding gets cells_from get
  gets-low v cells zero i h = refl
  gets-low v cells (suc n) i h =
      ap₂ ◌∷◌ (ap (cell cells) (to_idx-low v i (omega arith)))
        (gets-low v cells n (i + 1) (omega arith) ∙ ap (λ t. cells_from cells t n) (omega arith))

  gets-high :
      (v : BufferView F) (cells : List Wrapped) (n i : ℕ)
      → v.start < v.cap
      → v.cap ≤ v.start + i
      → gets v cells i n ≡ cells_from cells (v.start + i - v.cap) n
  unfolding gets cells_from get
  gets-high v cells zero i h k = refl
  gets-high v cells (suc n) i h k =
      ap₂ ◌∷◌ (ap (cell cells) (to_idx-high v i h k))
        (gets-high v cells n (i + 1) h (omega arith) ∙ ap (λ t. cells_from cells t n) (omega arith))

-- The end of a window of `d` cells, fewer than the ring has.
abbrev pub window_end : ℕ → ℕ → ℕ → ℕ
window_end s d c = if ltb (s + d) c then s + d else s + d - c

pub mod_window : (h d c : ℕ) → d < c → (h + d) % c ≡ window_end (h % c) d c
mod_window h d c p =
    sym (mod-add-mod h c d) ∙ reduce (h % c + d) c (omega (arith, mod-lt h {m = c} (omega arith)))
  where
    reduce : (x c : ℕ) → x < c + c → x % c ≡ (if ltb x c then x else x - c)
    reduce x c q = elim (Bool-cases (ltb x c)) [
      | inl e ↦ rw e (mod-eq_of_lt (ltb→lt x c e))
      | inr e ↦ rw e (mod-eq-sub-mod {n = x} {m = c} (ground arith) ∙ mod-eq_of_lt (ground arith))
    ]

module _ {F : Type 0} {v : BufferView F} {cells : List Wrapped} (w : IsWindow v cells) where
  pub window_stop : v.stop ≡ window_end v.start (v.tail - v.head) v.cap
  window_stop =
      w.stop_lem
      ∙ ap (λ t. t % v.cap) (omega (arith, w.ordered))
      ∙ mod_window v.head (v.tail - v.head) v.cap (omega (arith, w.fits, w.ordered))
      ∙ ap (λ t. window_end t (v.tail - v.head) v.cap) (sym w.start_lem)

  pub window_count : get_record_count v ≡ v.tail - v.head
  unfolding get_record_count
  window_count = omega (arith, w.ordered, w.small)

  pub window_start : v.start < v.cap
  window_start = rw w.start_lem (mod-lt v.head {m = v.cap} (omega (arith, w.fits, w.ordered)))

  -- A window that does not wrap.
  pub contents-flat :
      v.start ≤ v.stop
      → (contents v cells ≡ cells_from cells v.start (v.stop - v.start))
        × (get_record_count v ≡ v.stop - v.start)
  unfolding contents
  contents-flat h =
      let e : get_record_count v ≡ v.stop - v.start =
        ground (arith, window_stop, window_count, window_start, w.fits, w.ordered) in
      (
        rw e (
            gets-low v cells (v.stop - v.start) 0
              (ground (arith, window_stop, window_start, w.stop_lem, w.fits, w.ordered))
            ∙ ap (λ t. cells_from cells t (v.stop - v.start)) (omega arith)),
        e,
      )

  -- A window that wraps.
  pub contents-wrapped :
      v.stop < v.start
      → contents v cells ≡ cells_from cells v.start (v.cap - v.start) ++ cells_from cells 0 v.stop
  unfolding contents
  contents-wrapped h = rw (split_count) (
      gets-append v cells (v.cap - v.start) v.stop 0
      ∙ ap₂ ◌++◌
          (gets-low v cells (v.cap - v.start) 0 (omega (arith, window_start))
            ∙ ap (λ t. cells_from cells t (v.cap - v.start)) (omega arith))
          (gets-high v cells v.stop (0 + (v.cap - v.start)) window_start
              (omega (arith, window_start))
            ∙ ap (λ t. cells_from cells t v.stop) (omega (arith, window_start))))
    where
      split_count : get_record_count v ≡ v.cap - v.start + v.stop
      split_count = ground (arith, window_stop, window_count, window_start, w.fits, w.ordered)

  -- The records that are copied out of a view are those that its reader sees, in the same order.
  pub copy_to_buffer-contents : copy_to_buffer v cells ≡ contents v cells
  unfolding copy_to_buffer
  copy_to_buffer-contents = elim (Bool-cases (ltb v.stop v.start)) [
    | inl e ↦ rw e (
        ap₂ ◌++◌
          (take-drop-cells_from (v.cap - v.start) v.start cells
            (omega (arith, w.size, window_start)))
          (take-drop-cells_from v.stop 0 cells (omega (arith, w.size, window_start, ltb→lt _ _ e)))
        ∙ sym (contents-wrapped (ltb→lt _ _ e)))
    | inr e ↦
        rw (e, (contents-flat (ground arith)).1)
          (take-drop-cells_from (v.stop - v.start) v.start cells
              (ground (arith, w.size, window_start, window_stop, w.fits, w.ordered))
            ∙ sym (contents-flat (ground arith)).0)
  ]
