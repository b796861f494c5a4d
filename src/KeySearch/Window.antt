-- ===== src/KeySearch/Window.antt =====
-- The two loops over the predicted window (include/shard/PGM.h, include/shard/TrieSpline.h) end at
-- the lower bound.
use mathlib.Core.Option
use dynamic_extension.Base.{
  ℕ, zero, suc, ◌+◌, ◌-◌, ◌/◌, ◌≤◌, ◌≡◌, refl, some, List, arith, length, ltb, leb, ◌&&◌,
  Bool-cases, inl, inr,
}
use dynamic_extension.Record.{Wrapped}
use dynamic_extension.KeySearch.{Bound, linear, binary, search_window, previous_fits}
use dynamic_extension.KeySearch.Split.{key_at, Splits, get_elem?-key_at}

-- The test of the record before a position.
pub previous_fits_lem :
    (ws : List Wrapped) (key idx : ℕ)
    → idx ≤ length ws
    → previous_fits ws key idx ≡ some (ltb 0 idx && leb (key_at ws (idx - 1)) key)
unfolding previous_fits
previous_fits_lem ws key zero h = refl
previous_fits_lem ws key (suc i) h =
    let (w, e, f) = get_elem?-key_at ws i (omega arith) in ground (arith, e, f)

module _ (ws : List Wrapped) (key r : ℕ) (split : Splits ws key r) where
  pub linear_lem :
      (n idx : ℕ) → idx ≤ r → r ≤ idx + n → idx + n ≤ length ws → linear ws key n idx ≡ some r
  unfolding linear Option.bind
  linear_lem zero idx h k l = ground arith
  linear_lem (suc n) idx h k l =
      let (w, e, f) = get_elem?-key_at ws idx (omega arith) in
      ground (arith, e, f, split.1 idx, split.2 idx, linear_lem n (idx + 1))

  binary_lem :
      (n idx max : ℕ)
      → idx ≤ r
      → r ≤ max
      → max ≤ length ws
      → max - idx ≤ n
      → binary ws key n idx max ≡ some r
  unfolding binary Option.bind
  binary_lem zero idx max h k l m = ground arith
  binary_lem (suc n) idx max h k l m = elim (Bool-cases (ltb idx max)) [
    | inl t ↦
        let mid = (idx + max) / 2 in
        let (w, e, f) = get_elem?-key_at ws mid (ground arith) in
        ground
          (arith, e, f, split.1 mid, split.2 mid, binary_lem n (mid + 1) max, binary_lem n idx mid)
    | inr t ↦ ground arith
  ]

  -- A window that holds the lower bound of a key is searched down to it.
  pub search_window_lem :
      (bound : Bound)
      → bound.lo ≤ r
      → r ≤ bound.hi
      → bound.hi ≤ length ws
      → search_window ws key bound ≡ some r
  unfolding search_window
  search_window_lem bound h k l = ground (
    arith,
    linear_lem (bound.hi - bound.lo) bound.lo h (omega arith) (omega arith),
    binary_lem (bound.hi - bound.lo) bound.lo bound.hi h k l (omega arith),
  )
