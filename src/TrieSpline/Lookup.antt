-- ===== src/TrieSpline/Lookup.antt =====
-- `get_lower_bound` and `point_lookup` of include/shard/TrieSpline.h on the shards that its
-- constructors build.
use mathlib.Core.Option
use dynamic_extension.Base.{
  ℕ, ◌-◌, ◌≤◌, ◌≡◌, ◌≢◌, ap, ◌∙◌, some, List, arith, length, ltb, ◌==◌, if◌then◌else◌, Bool-cases,
  inl, inr,
}
use dynamic_extension.Record.{Record, Wrapped}
use dynamic_extension.KeySearch.{Bound}
use dynamic_extension.KeySearch.Split.{
  one_before, Splits, get_elem?-key_at, lower_bound, lower_bound-Splits,
}
use dynamic_extension.KeySearch.Window.{linear_lem, search_window_lem, previous_fits_lem}
use dynamic_extension.KeySearch.Walk.{Locates, lookup-Locates}
use dynamic_extension.TrieSpline.{
  Spline, SplineLaws, TrieSpline, settle, bound_within, get_lower_bound, point_lookup,
}
use dynamic_extension.TrieSpline.Built.{IsSplined}

settle_lem :
    (ws : List Wrapped) (key r : ℕ) → Splits ws key r → settle ws key r ≡ some (one_before ws key r)
unfolding settle Option.bind
settle_lem ws key r split = elim (Bool-cases (r == length ws)) [
  | inl e ↦ ground arith
  | inr e ↦
      let (w, f, g) = get_elem?-key_at ws r (ground (arith, split.0)) in
      ground (
        arith,
        f,
        g,
        previous_fits_lem ws key r (ground (arith, split.0)),
        split.1 (r - 1),
        split.2 r,
      )
]

bound_within_lem :
    (ws : List Wrapped) (key r : ℕ)
    → Splits ws key r
    → (bound : Bound) → bound.lo ≤ r
    → r ≤ bound.hi
    → bound.hi ≤ length ws
    → bound_within ws key bound ≡ some (one_before ws key r)
unfolding bound_within Option.bind
bound_within_lem ws key r split bound low high inside =
    ground
      (arith, search_window_lem ws key r split bound low high inside, settle_lem ws key r split)

module _ {X : Type 0} (I : Spline X) (laws : SplineLaws I) (t : TrieSpline X)
    (inv : IsSplined I t) where
  -- If the spline predicts a window that holds the lower bound, `get_lower_bound` on a shard that a
  -- constructor has built, and that does not have exactly 50 records, returns a position, and reads
  -- nothing outside of the array: for less than 50 records the lower bound; for more than 50 the
  -- lower bound, if the array holds the key there, or if it is the first position or the end, and
  -- the position before it otherwise.
  pub get_lower_bound_lem :
      (key r : ℕ)
      → length t.records ≢ 50
      → Splits t.records key r
      → get_lower_bound I t key
        ≡ some (if ltb (length t.records) 50 then r else one_before t.records key r)
  unfolding get_lower_bound
  get_lower_bound_lem key r ne split = elim (Bool-cases (ltb (length t.records) 50)) [
    | inl short ↦ rw short (
        linear_lem t.records key r split (length t.records) 0 (omega arith) (omega (arith, split.0))
          (omega arith))
    | inr long ↦
        let (low, high, inside) =
          laws.window inv.lo inv.hi t.records key r inv.sorted (ground arith) inv.built_over
            split in
        rw long (
          ap (λ x. bound_within t.records key (I.search x key)) (inv.splined (ground arith))
          ∙ bound_within_lem t.records key r split _ low high inside)
  ]

  -- Likewise, `point_lookup` returns the first position of the record; a null pointer only if no
  -- record is equal to it; and it reads behind the array only if every record is below the one that
  -- is sought.
  pub point_lookup-Locates :
      (rec : Record) → length t.records ≢ 50 → Locates t.records rec (point_lookup I t rec)
  unfolding point_lookup Option.bind
  point_lookup-Locates rec ne =
      let r = lower_bound t.records rec.key in
      let split = lower_bound-Splits t.records rec.key inv.sorted in
      let idx = if ltb (length t.records) 50 then r else one_before t.records rec.key r in
      rw (get_lower_bound_lem rec.key r ne split)
        (lookup-Locates t.records rec r idx inv.sorted split (ground arith))
