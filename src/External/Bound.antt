-- ===== src/External/Bound.antt =====
-- The position that the lower bound of ExternalISAMTree.h finds from a page.
use dynamic_extension.Base.{
  ℕ, zero, suc, ◌+◌, ◌-◌, ◌*◌, ◌<◌, ◌≤◌, ◌≡◌, ap, sym, ◌∙◌, min, true, false, arith, length, leb,
  ℕ-cases, inl, inr, ◌⊎◌, subst,
}
use dynamic_extension.KeySearch.Split.{key_at, Splits}
use dynamic_extension.External.{Stored}
use dynamic_extension.External.Pages.{joined}
use dynamic_extension.External.Loop.{IsStored}
use dynamic_extension.External.Reads.{page_at}
use dynamic_extension.External.Nodes.{page_key, slot_from}
use dynamic_extension.External.Around.{
  PageParts, page_lem, size_of, on_page, page_key-last, page_key-before,
}
use dynamic_extension.External.Slots.{Splits-at, slot_from-Stops}

module _ (n : ℕ) (t : Stored) (pos : 0 < n) (h : IsStored n t) where
  last_lower :
      (key p : ℕ) (g : PageParts n t.pages (p - 1))
      → 1 ≤ p
      → p ≤ length t.pages
      → (1 < p → leb key (page_key n t (p - 1)) ≡ false)
      → 0 < length g.before
      → key_at (joined t.pages) (length g.before - 1) < key
  last_lower key p g l m before some_before = elim (ℕ-cases p 1) [
    | inl first ↦
        let none_before : (p - 1) * n ≡ 0 = ap (λ q. (q - 1) * n) first ∙ omega arith in
        absurd (omega (arith, g.start, none_before))
    | inr later ↦
        let e = page_key-before n t pos h p g (omega arith) m in
        let lower = before (omega arith) in ground arith
  ]

  -- A position on the page.
  inside-Splits :
      (key p s : ℕ) (g : PageParts n t.pages (p - 1))
      → 1 ≤ p
      → p ≤ length t.pages
      → (1 < p → leb key (page_key n t (p - 1)) ≡ false)
      → s < length (page_at t.pages p)
      → ((j : ℕ) → j < s → key_at (page_at t.pages p) j < key)
      → key ≤ key_at (page_at t.pages p) s
      → Splits (joined t.pages) key (length g.before + s)
  inside-Splits key p zero g l m before k low high =
      let size = size_of n t pos h p g in
      let counted = h.counted in
      let same : length g.before ≡ length g.before + 0 = omega arith in
      let at = ap (key_at (joined t.pages)) same ∙ on_page n t pos h p 0 g k in
      let lower = last_lower key p g l m before in
      subst (Splits (joined t.pages) key) same (
        Splits-at (joined t.pages) key (length g.before) h.sorted (omega arith) lower
          (λ x. omega arith))
  inside-Splits key p (suc s) g l m before k low high =
      let size = size_of n t pos h p g in
      let counted = h.counted in
      let at = on_page n t pos h p (suc s) g k in
      let same : length g.before + suc s - 1 ≡ length g.before + s = omega arith in
      let under = ap (key_at (joined t.pages)) same ∙ on_page n t pos h p s g (omega arith) in
      let lower = low s (omega arith) in
      Splits-at (joined t.pages) key (length g.before + suc s) h.sorted (omega arith)
        (λ x. omega arith) (λ x. omega arith)

  -- The end of the records.
  behind-Splits :
      (key p : ℕ) (g : PageParts n t.pages (p - 1))
      → ((j : ℕ) → j < length (page_at t.pages p) → key_at (page_at t.pages p) j < key)
      → length g.after ≡ 0
      → Splits (joined t.pages) key t.reccnt
  behind-Splits key p g low none_after =
      let size = size_of n t pos h p g in
      let counted = h.counted in
      let some_records = g.some_records in
      let last : ℕ = length (page_at t.pages p) - 1 in
      let at = on_page n t pos h p last g (omega arith) in
      let lower = low last (omega arith) in
      let same : length g.before + last ≡ t.reccnt - 1 = omega arith in
      let at_end = ap (key_at (joined t.pages)) same in
      Splits-at (joined t.pages) key t.reccnt h.sorted (omega arith) (λ x. omega arith)
        (λ x. absurd (omega arith))

  -- The slot of a position: written and of a record, or behind the last page.
  abbrev pub Placed : ℕ → ℕ → Type 0
  Placed p slot =
      ((slot < length (page_at t.pages p)) × ((p - 1) * n + slot < t.reccnt))
      ⊎ ((slot ≡ n) × (p ≡ length t.pages) × (t.reccnt ≤ (p - 1) * n + slot))

  pub bound-Splits :
      (key p : ℕ)
      → 1 ≤ p
      → p ≤ length t.pages
      → (1 < p → leb key (page_key n t (p - 1)) ≡ false)
      → (p < length t.pages → leb key (page_key n t p) ≡ true)
      → Splits
          (joined t.pages)
          key
          (min ((p - 1) * n + slot_from key n (page_at t.pages p) 0 n) t.reccnt)
        × Placed p (slot_from key n (page_at t.pages p) 0 n)
  bound-Splits key p l m before after =
      let g = page_lem n t.pages (p - 1) pos h.paged (omega arith) in
      let size = size_of n t pos h p g in
      let start = g.start in
      let fits = g.fits in
      elim (slot_from-Stops key n (page_at t.pages p) 0 n g.fits) [
        | inl (s, x, k, low, high) ↦
            let same : length g.before + s
                ≡ min ((p - 1) * n + slot_from key n (page_at t.pages p) 0 n) t.reccnt =
              rw (x, sym start) (ground arith) in
            (
              subst (Splits (joined t.pages) key) same
                  (inside-Splits key p s g l m before k low high),
              inl (rw x (omega arith), rw (x, sym start) (omega arith)),
            )
        | inr (low, x) ↦
            let some_records = g.some_records in
            let last = low (length (page_at t.pages p) - 1) (omega arith) in
            let e = page_key-last n t pos h p g l m in
            let at_last : p ≡ length t.pages = elim (ℕ-cases p (length t.pages)) [
              | inl same ↦ same
              | inr other ↦ let passes = after (omega arith) in absurd (ground arith)
            ] in
            let none_after = ap length (g.final (omega arith)) in
            let same : t.reccnt
                ≡ min ((p - 1) * n + slot_from key n (page_at t.pages p) 0 n) t.reccnt =
              rw (x (omega arith), sym start) (ground arith) in
            (
              subst (Splits (joined t.pages) key) same (behind-Splits key p g low none_after),
              inr (x (omega arith), at_last, rw (x (omega arith), sym start) (omega arith)),
            )
      ]
