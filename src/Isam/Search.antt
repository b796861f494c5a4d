-- ===== src/Isam/Search.antt =====
-- The searches of include/shard/ISAMTree.h through the internal levels that are built above a sorted
-- array.
use mathlib.Core.Option
use dynamic_extension.Base.{
  ℕ, ◌-◌, ◌<◌, ◌≤◌, ◌≡◌, ◌↔◌, refl, some, none, List, Bool, true, false, arith, length, leb, ltb,
}
use dynamic_extension.Record.{Record, Wrapped}
use dynamic_extension.Merge.Array.{IsSorted}
use dynamic_extension.KeySearch.Split.{key_at, Splits}
use dynamic_extension.KeySearch.Walk.{Locates, lookup-Locates}
use dynamic_extension.Isam.Nodes.{
  Entries, build_internal_levels, choose_child, scan_from, get_lower_bound, get_upper_bound,
  point_lookup,
}
use dynamic_extension.Isam.Descent.{
  first, AreSearchable, IsUpward, Turns, root-Lands, scan_from-Turns,
}
use dynamic_extension.Isam.Climb.{build_internal_levels-AreSearchable}

module _ (ws : List Wrapped) (sorted : IsSorted ws) (root : Entries)
    (searchable : AreSearchable ws root) (start : first root ≡ 0) where
  -- The descent and the scan, for either test.
  search-Turns :
      (stop : ℕ → Bool)
      → IsUpward stop
      → (r : ℕ) × (Option.bind
            (choose_child stop root)
            (λ pos. scan_from stop ws (length ws - pos) pos)
          ≡ some r)
        × Turns stop ws r
  unfolding Option.bind
  search-Turns stop up =
      let (p, e, l, f) = root-Lands stop up ws root searchable start in
      let (r, x, t) = scan_from-Turns stop up ws (length ws - p) p sorted (omega arith) f in
      (r, rw e x, t)

  lower-Splits : (key : ℕ) → (r : ℕ) × (get_lower_bound ws root key ≡ some r) × Splits ws key r
  unfolding get_lower_bound
  lower-Splits key =
      let (r, e, t) = search-Turns (λ k. leb key k) (λ j k h s. ground arith) in
      (r, e, (t.0, λ i h. ground (arith, t.1 i h), λ i h k. ground (arith, t.2 i h k)))

  upper-Splits :
      (key : ℕ)
      → (r : ℕ) × (get_upper_bound ws root key ≡ some r)
        × ((i : ℕ) → i < r → key_at ws i ≤ key)
        × ((i : ℕ) → r ≤ i → i < length ws → key < key_at ws i)
  unfolding get_upper_bound
  upper-Splits key =
      let (r, e, t) = search-Turns (λ k. ltb key k) (λ j k h s. ground arith) in
      (r, e, λ i h. ground (arith, t.1 i h), λ i h k. ground (arith, t.2 i h k))

  lookup :
      (rec : Record)
      → Locates ws rec (point_lookup ws root rec false) × (point_lookup ws root rec true ≡ none)
  unfolding point_lookup Option.bind
  lookup rec =
      let (r, e, s) = lower-Splits rec.key in
      (rw e (lookup-Locates ws rec r r sorted s (omega arith)), refl)

module _ (ws : List Wrapped) (internal_fanout leaf_fanout : ℕ) (sorted : IsSorted ws)
    (wide : 2 ≤ internal_fanout) (full : 1 ≤ leaf_fanout) (some_records : 0 < length ws) where
  -- Above a sorted array that is not empty, with two slots at least in a node and one record at
  -- least below a slot, a root is built. Through it both bounds of every key are found with no read
  -- outside of a node or the array: the lower bound splits the array at the key, and the positions
  -- from the lower bound to the upper bound are those that hold the key.
  pub build_internal_levels-bounds :
      (root : Entries) × (build_internal_levels ws internal_fanout leaf_fanout ≡ some root)
      × ((key : ℕ)
          → (l : ℕ) × (u : ℕ) × (get_lower_bound ws root key ≡ some l)
            × (get_upper_bound ws root key ≡ some u)
            × Splits ws key l
            × ((i : ℕ) → i < length ws → ((l ≤ i) × (i < u)) ↔ (key_at ws i ≡ key)))
  build_internal_levels-bounds =
      let (root, e, s, f) =
        build_internal_levels-AreSearchable ws internal_fanout leaf_fanout sorted wide full
          some_records in
      (
        root,
        e,
        λ key.
            let (l, x, t) = lower-Splits ws sorted root s f key in
            let (u, y, low, high) = upper-Splits ws sorted root s f key in
            (l, u, x, y, t, λ i h. ground (arith, t.1 i, t.2 i, low i, high i)),
      )

  -- Above a sorted array that is not empty, with two slots at least in a node and one record at
  -- least below a slot, a root is built. Through it `point_lookup` without a filter returns the first
  -- position of the record, a null pointer only if no record is equal to it, and reads behind the
  -- array only if every record is below the one that is sought. With `filter` it asks a null pointer.
  pub build_internal_levels-point_lookup :
      (root : Entries) × (build_internal_levels ws internal_fanout leaf_fanout ≡ some root)
      × ((rec : Record)
          → Locates ws rec (point_lookup ws root rec false)
            × (point_lookup ws root rec true ≡ none))
  build_internal_levels-point_lookup =
      let (root, e, s, f) =
        build_internal_levels-AreSearchable ws internal_fanout leaf_fanout sorted wide full
          some_records in
      (root, e, lookup ws sorted root s f)
