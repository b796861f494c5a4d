-- ===== src/KeySearch.antt =====
-- The search of a sorted array that include/shard/PGM.h and include/shard/TrieSpline.h write out
-- alike: a window that an index predicts, searched by one of two loops, and the walk of
-- `point_lookup` from there. A read outside of the array gives `none`.
pub mod Split
pub mod Window
pub mod Walk
use mathlib.Core.Option
use dynamic_extension.Base.{
  ℕ, zero, suc, ◌+◌, ◌-◌, ◌/◌, Option, none, some, List, Bool, true, false, ◌&&◌, ltb, leb, ◌==◌,
  if◌then◌else◌, get_elem?, length,
}
use dynamic_extension.Record.{Record, Wrapped, rec_lt, rec_eq}

-- What the index predicts for a key.
pub record Bound : Type 0 where
  pub lo : ℕ
  pub hi : ℕ

module _ (ws : List Wrapped) (key : ℕ) where
  -- `while (idx < hi && m_data[idx].rec.key < key) idx++`, by the rounds that are left.
  unfoldable pub linear : ℕ → ℕ → Option ℕ
  linear zero idx = some idx
  linear (suc n) idx =
      Option.bind (get_elem? ws idx)
        (λ w. let rest = linear n (idx + 1) in if ltb w.rec.key key then rest else some idx)

  -- `while (idx < max)`, on fuel: `none` if it runs out.
  unfoldable pub binary : ℕ → ℕ → ℕ → Option ℕ
  binary zero idx max = if ltb idx max then none else some idx
  binary (suc n) idx max =
      let mid = (idx + max) / 2 in
      let halve = Option.bind (get_elem? ws mid) (λ w.
        let right = binary n (mid + 1) max in
        let left = binary n idx mid in if ltb w.rec.key key then right else left) in
      if ltb idx max then halve else some idx

  -- The two loops, by the size of the window.
  unfoldable pub search_window : Bound → Option ℕ
  search_window bound =
      let width = bound.hi - bound.lo in
      if ltb width 256 then linear width bound.lo else binary width bound.lo bound.hi

  -- `idx > 0 && m_data[idx-1].rec.key <= key`
  unfoldable pub previous_fits : ℕ → Option Bool
  previous_fits zero = some false
  previous_fits (suc i) = Option.map (λ w. leb w.rec.key key) (get_elem? ws i)

-- The loop of `point_lookup`, with the test behind it. `some none` is a null pointer. The test
-- reads `m_data[idx]` also where the loop ended at the end of the array.
unfoldable pub walk : List Wrapped → Record → ℕ → ℕ → Option (Option ℕ)
walk ws rec zero idx =
    Option.map (λ w. if rec_eq w.rec rec then some idx else none) (get_elem? ws idx)
walk ws rec (suc n) idx = Option.bind (get_elem? ws idx) (λ w.
    let rest = walk ws rec n (idx + 1) in
    if rec_lt w.rec rec then rest else some (if rec_eq w.rec rec then some idx else none))
