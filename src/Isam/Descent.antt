-- ===== src/Isam/Descent.antt =====
-- The descent through the internal levels of include/shard/ISAMTree.h does not go behind the
-- position that it looks for.
use mathlib.Core.Option
use dynamic_extension.Base.{
  ℕ, zero, suc, ◌+◌, ◌<◌, ◌≤◌, ◌≡◌, refl, ap, sym, ◌∙◌, Option, some, List, Bool, true, false,
  arith, length, Bool-cases, ℕ-cases, inl, inr,
}
use dynamic_extension.Record.{Wrapped}
use dynamic_extension.Merge.Array.{IsSorted}
use dynamic_extension.KeySearch.Split.{key_at, get_elem?-key_at, key_at_mono}
use dynamic_extension.Isam.Nodes.{
  Child, leaf, internal, Entries, nil, entry, descend, choose_child, scan_from,
}

-- The first position below a child, and below a node.
unfoldable mutual
  pub first_of : Child → ℕ
  first_of (leaf p) = p
  first_of (internal node) = first node

  pub first : Entries → ℕ
  first nil = 0
  first (entry k c rest) = first_of c

module _ (ws : List Wrapped) where
  -- No key before the position is above `k`.
  abbrev pub Bounds : (k position : ℕ) → Type 0
  Bounds k position = (i : ℕ) → i < position → key_at ws i ≤ k

  -- Every pointer is into the array, and each key of a node bounds the keys before the next child.
  unfoldable mutual
    pub IsSearchable : Child → Type 0
    IsSearchable (leaf p) = p < length ws
    IsSearchable (internal node) = AreSearchable node

    pub AreSearchable : Entries → Type 0
    AreSearchable nil = ⊥
    AreSearchable (entry k c nil) = IsSearchable c
    AreSearchable (entry k c (entry k' c' rest)) =
        IsSearchable c × Bounds k (first_of c') × AreSearchable (entry k' c' rest)

-- A test on keys that holds from some key on.
abbrev pub IsUpward : (ℕ → Bool) → Type 0
IsUpward stop = (j k : ℕ) → j ≤ k → stop k ≡ false → stop j ≡ false

-- The test fails on the keys before `r` and holds on the others.
abbrev pub Turns : (stop : ℕ → Bool) (ws : List Wrapped) (r : ℕ) → Type 0
Turns stop ws r =
    (r ≤ length ws)
    × ((i : ℕ) → i < r → stop (key_at ws i) ≡ false)
    × ((i : ℕ) → r ≤ i → i < length ws → stop (key_at ws i) ≡ true)

module _ (stop : ℕ → Bool) (upward : IsUpward stop) (ws : List Wrapped) where
  abbrev pub Fails : ℕ → Type 0
  Fails position = (i : ℕ) → i < position → stop (key_at ws i) ≡ false

  -- A descent that may start at its first position ends in the array, at such a position.
  abbrev pub Lands : Option ℕ → Type 0
  Lands o = (p : ℕ) × (o ≡ some p) × (p < length ws) × Fails p

  Bounds-Fails : (k position : ℕ) → Bounds ws k position → stop k ≡ false → Fails position
  Bounds-Fails k position h e i l = upward (key_at ws i) k (h i l) e

  mutual
    unfolding descend first IsSearchable

    descend-Lands : (c : Child) → IsSearchable ws c → Fails (first_of c) → Lands (descend stop c)
    descend-Lands (leaf p) h f = (p, refl, h, f)
    descend-Lands (internal node) h f = choose_child-Lands node h f

    choose_child-Lands :
        (e : Entries) → AreSearchable ws e → Fails (first e) → Lands (choose_child stop e)
    choose_child-Lands nil h f = absurd h
    choose_child-Lands (entry k c nil) h f = descend-Lands c h f
    choose_child-Lands (entry k c (entry k' c' rest)) h f = elim (Bool-cases (stop k)) [
      | inl e ↦ rw e (descend-Lands c h.0 f)
      | inr e ↦
          rw e (choose_child-Lands (entry k' c' rest) h.2 (Bounds-Fails k (first_of c') h.1 e))
    ]

  pub root-Lands : (e : Entries) → AreSearchable ws e → first e ≡ 0 → Lands (choose_child stop e)
  root-Lands e h z = choose_child-Lands e h (λ i l. absurd (omega arith))

  Fails-suc : (p : ℕ) → Fails p → stop (key_at ws p) ≡ false → Fails (p + 1)
  Fails-suc p f e i l = elim (ℕ-cases i p) [
    | inl same ↦ ap (λ j. stop (key_at ws j)) same ∙ e
    | inr other ↦ f i (omega arith)
  ]

  holds_after :
      (p i : ℕ)
      → IsSorted ws
      → p ≤ i
      → i < length ws
      → stop (key_at ws p) ≡ true
      → stop (key_at ws i) ≡ true
  holds_after p i s l m h = elim (Bool-cases (stop (key_at ws i))) [
    | inl e ↦ e
    | inr e ↦ let low = upward (key_at ws p) (key_at ws i) (key_at_mono ws p i s l m) e in cc
  ]

  -- The scan of a sorted array from there finds where the test turns.
  pub scan_from-Turns :
      (n p : ℕ)
      → IsSorted ws
      → p + n ≡ length ws
      → Fails p
      → (r : ℕ) × (scan_from stop ws n p ≡ some r) × Turns stop ws r
  unfolding scan_from Option.bind
  scan_from-Turns zero p s e f = (p, refl, (omega arith, f, λ i l m. absurd (omega arith)))
  scan_from-Turns (suc n) p s e f =
      let (w, g, same) = get_elem?-key_at ws p (omega arith) in
      elim (Bool-cases (stop w.rec.key)) [
        | inl t ↦ (
          p,
          rw (g, t) refl,
          (omega arith, f, λ i l m. holds_after p i s l m (ap stop (sym same) ∙ t)),
        )
        | inr t ↦
            let (r, x, y) =
              scan_from-Turns n (p + 1) s (omega arith) (Fails-suc p f (ap stop (sym same) ∙ t)) in
            (r, rw (g, t) x, y)
      ]
