-- ===== src/External/Search.antt =====
-- The searches of ExternalISAMTree.h from the root: the iterator from a key, and the point lookup.
use dynamic_extension.Base.{
  ℕ, ◌+◌, ◌-◌, ◌*◌, ◌<◌, ◌≤◌, ◌≡◌, refl, min, some, List, [], ◌∷◌, false, arith, length, leb, ◌==◌,
}
use dynamic_extension.Record.{Wrapped}
use dynamic_extension.KeySearch.Split.{Splits}
use dynamic_extension.Isam.Nodes.{Child}
use dynamic_extension.External.{Stored}
use dynamic_extension.External.Pages.{joined}
use dynamic_extension.External.Loop.{IsStored}
use dynamic_extension.External.Reads.{
  PageIterator, page_at, get_current, in_order, IsReading, get_current-in_order,
}
use dynamic_extension.RangeScan
use dynamic_extension.External.Nodes.{
  slot_from, started, get_lower_bound, get_iterator, build_internal_levels,
}
use dynamic_extension.External.Bound.{Placed, bound-Splits}
use dynamic_extension.External.Levels.{Spans, descend-Lands, build_internal_levels-Spans}

-- An iterator that was started shows what one over the records in order shows.
shows :
    (n : ℕ) (t : Stored)
    → 0 < n
    → IsStored n t
    → (i : ℕ)
    → (shown : PageIterator) × (get_current n (started t i t.reccnt)
        ≡ some (RangeScan.get_current (in_order (started t i t.reccnt)), shown))
shows n t pos h i =
    let reading : IsReading n (started t i t.reccnt) = record {
      paged = h.paged;
      within = omega (arith, h.counted);
      loaded = λ z. absurd (z refl);
    } in
    let (shown, e, reading_on, same) = get_current-in_order n (started t i t.reccnt) pos reading in
    (shown, e)

pub some_pages : (ps : List (List Wrapped)) → 0 < length (joined ps) → 0 < length ps
unfolding joined
some_pages [] h = h
some_pages (p ∷ ps) h = omega arith

module _ (n : ℕ) (t : Stored) (root : Child) (pos : 0 < n) (h : IsStored n t)
    (s : Spans n t 1 (1 + t.last_data_page) root) where
  -- The lower bound from the root.
  pub lower-Placed :
      (key : ℕ)
      → (p : ℕ) × (slot : ℕ) × (get_lower_bound n t root key ≡ some (p, slot))
        × (1 ≤ p)
        × (p ≤ length t.pages)
        × Splits (joined t.pages) key (min ((p - 1) * n + slot) t.reccnt)
        × Placed n t pos h p slot
  unfolding get_lower_bound
  lower-Placed key =
      let last = h.last in
      let (p, x, low, high, before, after) =
        descend-Lands n t (λ k. leb key k) 1 (1 + t.last_data_page) root s in
      let (splits, placed) =
        bound-Splits n t pos h key p low (omega arith) before (λ l. after (omega arith)) in
      (p, slot_from key n (page_at t.pages p) 0 n, rw x refl, low, omega arith, splits, placed)

-- Above a stored shard with some records, in nodes of two slots at least, a root is built. From it the
-- lower bound of every key is found, and the iterator starts there: the records before its index are
-- below the key, and the others are not. What it shows first is what an iterator over the records in
-- order shows. If every record is below, the index may be behind the end.
pub get_iterator-Splits :
    (internal_fanout leaf_fanout : ℕ) (t : Stored)
    → 2 ≤ internal_fanout
    → 0 < leaf_fanout
    → IsStored leaf_fanout t
    → 0 < t.reccnt
    → (root : Child) × (build_internal_levels internal_fanout leaf_fanout t ≡ some root)
      × ((lower : ℕ)
          → (it : PageIterator) × (get_iterator leaf_fanout t root lower ≡ some it)
            × ((shown : PageIterator) × (get_current leaf_fanout it
                  ≡ some (RangeScan.get_current (in_order it), shown)))
            × (it.pages ≡ t.pages)
            × (it.end ≡ t.reccnt)
            × Splits (joined t.pages) lower (min it.idx t.reccnt))
unfolding get_iterator
get_iterator-Splits internal_fanout n t wide pos h some_records =
    let last = h.last in
    let (root, e, s) =
      build_internal_levels-Spans n t internal_fanout wide
        (omega (arith, some_pages t.pages (omega (arith, h.counted)), last)) in
    let not_empty : (t.reccnt == 0) ≡ false = ground arith in
    (
      root,
      e,
      λ lower.
          let (p, slot, x, low, high, splits, placed) = lower-Placed n t root pos h s lower in
          (
            started t ((p - 1) * n + slot) t.reccnt,
            rw (not_empty, x) refl,
            shows n t pos h ((p - 1) * n + slot),
            refl,
            refl,
            splits,
          ),
    )
