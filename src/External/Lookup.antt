-- ===== src/External/Lookup.antt =====
-- The point lookup of ExternalISAMTree.h.
use mathlib.Core.Option
use dynamic_extension.Base.{
  ℕ, zero, suc, ◌+◌, ◌-◌, ◌*◌, ◌<◌, ◌≤◌, ◌≡◌, refl, ap, sym, ◌∙◌, min, Option, some, none, List, [],
  ◌∷◌, ◌++◌, Bool, true, false, arith, length, leb, ◌==◌, Bool-cases, inl, inr, get_elem?, ◌&&◌,
  if◌then◌else◌, subst,
}
use dynamic_extension.Record.{Record, Wrapped, rec_eq}
use dynamic_extension.KeySearch.Split.{Splits, get_elem?-key_at}
use dynamic_extension.Isam.Nodes.{Child}
use dynamic_extension.External.{Stored}
use dynamic_extension.External.Pages.{joined, get_elem?-front, get_elem?-back}
use dynamic_extension.External.Loop.{IsStored}
use dynamic_extension.External.Reads.{page_at}
use dynamic_extension.External.Nodes.{address, point_lookup, get_lower_bound, build_internal_levels}
use dynamic_extension.External.Around.{page_lem}
use dynamic_extension.External.Search.{lower-Placed, some_pages}
use dynamic_extension.External.Levels.{Spans, build_internal_levels-Spans}

get_elem?-behind : (ws : List Wrapped) (i : ℕ) → length ws ≤ i → get_elem? ws i ≡ none
get_elem?-behind [] i l = refl
get_elem?-behind (w ∷ ws) zero l = absurd (omega arith)
get_elem?-behind (w ∷ ws) (suc i) l = get_elem?-behind ws i (omega arith)

and_false : (a b : Bool) → b ≡ false → (a && b) ≡ false
and_false true b e = e
and_false false b e = refl

-- What the comparison returns.
abbrev checked : Record → Wrapped → Option Wrapped
checked rec w = if rec_eq w.rec rec then some w else none

-- What a lookup returns, by the first record that is not below the key.
abbrev pub verdict : Bool → Record → Option Wrapped → Option (Option Wrapped)
verdict whole rec none = if whole then some none else none
verdict whole rec (some w) = some (checked rec w)

module _ (n : ℕ) (t : Stored) (root : Child) (pos : 0 < n) (h : IsStored n t)
    (s : Spans n t 1 (1 + t.last_data_page) root) (whole : Bool) (rec : Record) where
  on_slot :
      (p slot : ℕ)
      → 1 ≤ p
      → p ≤ length t.pages
      → slot < length (page_at t.pages p)
      → (slot < n)
        × (get_elem? (page_at t.pages p) slot ≡ get_elem? (joined t.pages) ((p - 1) * n + slot))
  on_slot p slot low high l =
      let g = page_lem n t.pages (p - 1) pos h.paged (omega arith) in
      (
        omega (arith, g.fits),
        sym (
            ap (λ k. get_elem? (joined t.pages) (k + slot)) (sym g.start)
            ∙ ap (λ ws. get_elem? ws (length g.before + slot)) g.parts
            ∙ get_elem?-back g.before (page_at t.pages p ++ g.after) slot
            ∙ get_elem?-front (page_at t.pages p) g.after slot l),
      )

  -- At a slot that was written, the record there is compared.
  lookup-inside :
      (p slot : ℕ)
      → get_lower_bound n t root rec.key ≡ some (p, slot)
      → 1 ≤ p
      → p ≤ length t.pages
      → slot < length (page_at t.pages p)
      → (w : Wrapped) → get_elem? (joined t.pages) ((p - 1) * n + slot) ≡ some w
      → point_lookup n t root whole rec false ≡ some (checked rec w)
  unfolding point_lookup address Option.bind
  lookup-inside p slot x low high l w e =
      let (fits, here) = on_slot p slot low high l in
      let last = h.last in
      let other : (whole && slot == n) ≡ false = and_false whole (slot == n) (ground arith) in
      let before : leb (t.last_data_page + 1) p ≡ false = ground arith in
      rw (x, other, before, here, e) refl

  -- Behind the last slot, the next page is behind the data pages.
  lookup-behind :
      (p slot : ℕ)
      → get_lower_bound n t root rec.key ≡ some (p, slot)
      → p ≡ length t.pages
      → slot ≡ n
      → 1 ≤ p
      → point_lookup n t root whole rec false ≡ (if whole then some none else none)
  unfolding point_lookup address Option.bind
  lookup-behind p slot x high l low =
      let g = page_lem n t.pages (p - 1) pos h.paged (omega arith) in
      let last = h.last in
      let equal : (slot == n) ≡ true = ground arith in
      let within : leb (t.last_data_page + 1) p ≡ false = ground arith in
      let behind : leb (t.last_data_page + 1) (p + 1) ≡ true = ground arith in
      let none_there = get_elem?-behind (page_at t.pages p) slot (omega (arith, g.fits)) in
      elim (Bool-cases whole) [
        | inl e ↦ rw (x, e, equal, behind) refl
        | inr e ↦ rw (x, e, within, none_there) refl
      ]

-- Above a stored shard with some records, in nodes of two slots at least, a root is built. From it a
-- point lookup without a filter compares the first record that is not below the key, and returns a
-- null pointer if it is another record. If every record is below the key, it returns a null pointer
-- where the records take the whole page, and reads behind the slots otherwise. With a filter it asks a
-- null pointer.
pub point_lookup-first :
    (internal_fanout leaf_fanout : ℕ) (t : Stored)
    → 2 ≤ internal_fanout
    → 0 < leaf_fanout
    → IsStored leaf_fanout t
    → 0 < t.reccnt
    → (root : Child) × (build_internal_levels internal_fanout leaf_fanout t ≡ some root)
      × ((whole : Bool) (rec : Record)
          → (i : ℕ) × Splits (joined t.pages) rec.key i
            × (point_lookup leaf_fanout t root whole rec false
                ≡ verdict whole rec (get_elem? (joined t.pages) i))
            × (point_lookup leaf_fanout t root whole rec true ≡ none))
unfolding point_lookup
point_lookup-first internal_fanout n t wide pos h some_records =
    let last = h.last in
    let counted = h.counted in
    let (root, e, s) =
      build_internal_levels-Spans n t internal_fanout wide
        (omega (arith, some_pages t.pages (omega arith))) in
    (
      root,
      e,
      λ whole rec.
          let (p, slot, x, low, high, splits, placed) = lower-Placed n t root pos h s rec.key in
          elim placed [
            | inl (k, l) ↦
                let same : min ((p - 1) * n + slot) t.reccnt ≡ (p - 1) * n + slot = ground arith in
                let (w, e, k') =
                  get_elem?-key_at (joined t.pages) ((p - 1) * n + slot) (omega arith) in
                (
                  (p - 1) * n + slot,
                  subst (Splits (joined t.pages) rec.key) same splits,
                  rw e (lookup-inside n t root pos h s whole rec p slot x low high k w e),
                  refl,
                )
            | inr (k, l, m) ↦
                let same : min ((p - 1) * n + slot) t.reccnt ≡ t.reccnt = ground arith in
                (
                  t.reccnt,
                  subst (Splits (joined t.pages) rec.key) same splits,
                  rw (get_elem?-behind (joined t.pages) t.reccnt (omega arith))
                      (lookup-behind n t root pos h s whole rec p slot x l k low),
                  refl,
                )
          ],
    )
