-- ===== src/Isam/Climb.antt =====
-- `build_internal_levels` of include/shard/ISAMTree.h ends with one root, which is searchable.
use mathlib.Core.Option
use dynamic_extension.Base.{
  ℕ, zero, suc, ◌+◌, ◌-◌, ◌<◌, ◌≤◌, ◌≡◌, refl, ap, ◌∙◌, some, List, [], ◌∷◌, false, arith, length,
  ltb, lt→ltb, Bool-cases, inl, inr, ◌⊎◌, subst,
}
use dynamic_extension.Record.{Wrapped}
use dynamic_extension.Merge.Array.{IsSorted}
use dynamic_extension.Isam.Nodes.{
  Entries, internal, key_of, leaf_level, gather, next_level, climb, build_internal_levels,
}
use dynamic_extension.Isam.Descent.{first, Bounds, IsSearchable, AreSearchable}
use dynamic_extension.Isam.Levels.{entry-AreSearchable, filled, filled_to, node_lem}

module _ (ws : List Wrapped) (internal_fanout : ℕ) where
  -- The nodes of a level, from the left: each is searchable, and its last slot bounds the keys
  -- before the next one.
  abbrev pub Chained : List Entries → Type 0
  Chained [] = Unit
  Chained (e ∷ []) = AreSearchable ws e
  Chained (e ∷ e' ∷ nodes) =
      AreSearchable ws e
      × Bounds ws (key_of (internal_fanout - 1) e) (first e')
      × Chained (e' ∷ nodes)

  -- The nodes that a node leaves are chained, and follow its slot `i`.
  abbrev Follows : ℕ → Entries → List Entries → Type 0
  Follows i slots [] = Unit
  Follows i slots (e ∷ nodes) = Bounds ws (key_of i slots) (first e) × Chained (e ∷ nodes)

  Chained-cons :
      (e : Entries) (nodes : List Entries)
      → AreSearchable ws e
      → Follows (internal_fanout - 1) e nodes
      → Chained (e ∷ nodes)
  Chained-cons e [] s f = s
  Chained-cons e (e' ∷ nodes) s f = (s, f.0, f.1)

leaf_level_none :
    (ws : List Wrapped) (internal_fanout leaf_fanout n base : ℕ)
    → ltb base (length ws) ≡ false
    → leaf_level ws internal_fanout leaf_fanout n base ≡ some []
unfolding leaf_level
leaf_level_none ws internal_fanout leaf_fanout zero base h = rw h refl
leaf_level_none ws internal_fanout leaf_fanout (suc n) base h = rw h refl

module _ (ws : List Wrapped) (internal_fanout leaf_fanout : ℕ) (sorted : IsSorted ws)
    (wide : 2 ≤ internal_fanout) (full : 1 ≤ leaf_fanout) where
  -- The level above the array, from a position inside of it.
  leaf_level-Chained :
      (n base : ℕ)
      → base < length ws
      → length ws ≤ base + n
      → (node : Entries) × (nodes : List Entries) × (leaf_level ws internal_fanout leaf_fanout n
            base
          ≡ some (node ∷ nodes))
        × (first node ≡ base)
        × Chained ws internal_fanout (node ∷ nodes)
  unfolding leaf_level
  leaf_level-Chained zero base h k = absurd (omega arith)
  leaf_level-Chained (suc n) base h k =
      let node = filled ws internal_fanout leaf_fanout internal_fanout base in
      let next = filled_to ws internal_fanout leaf_fanout internal_fanout base in
      let (s, f, l, b) =
        node_lem ws internal_fanout leaf_fanout sorted full internal_fanout base (omega arith) h in
      elim (Bool-cases (ltb next (length ws))) [
        | inl more ↦
            let m : next < length ws = ground arith in
            let (v, nodes, e, g, c) = leaf_level-Chained n next m (omega arith) in
            (node, v ∷ nodes, rw (lt→ltb base (length ws) h, e) refl, f, (s, rw g (b m), c))
        | inr last ↦ (
          node,
          [],
          rw (lt→ltb base (length ws) h, leaf_level_none ws internal_fanout leaf_fanout n next last)
              refl,
          f,
          s,
        )
      ]

module _ (ws : List Wrapped) (internal_fanout leaf_fanout : ℕ) where
  gather-lem :
      (i : ℕ) (node : Entries) (nodes : List Entries)
      → Chained ws internal_fanout (node ∷ nodes)
      → AreSearchable ws (gather ws internal_fanout leaf_fanout (suc i) (node ∷ nodes)).0
        × (first (gather ws internal_fanout leaf_fanout (suc i) (node ∷ nodes)).0 ≡ first node)
        × Follows ws internal_fanout i
            (gather ws internal_fanout leaf_fanout (suc i) (node ∷ nodes)).0
            (gather ws internal_fanout leaf_fanout (suc i) (node ∷ nodes)).1
        × (length (gather ws internal_fanout leaf_fanout (suc i) (node ∷ nodes)).1
            ≤ length nodes - i)
  unfolding gather first IsSearchable key_of
  gather-lem zero node [] c = (c, refl, tt, omega arith)
  gather-lem zero node (v ∷ nodes) c = (c.0, refl, (c.1, c.2), omega arith)
  gather-lem (suc i) node [] c = (c, refl, tt, omega arith)
  gather-lem (suc i) node (v ∷ nodes) c =
      let (s, f, r, l) = gather-lem i v nodes c.2 in
      (
        entry-AreSearchable ws (key_of (internal_fanout - 1) node) (internal node)
            (gather ws internal_fanout leaf_fanout (suc i) (v ∷ nodes)).0 c.0 (inr (rw f c.1, s)),
        refl,
        r,
        omega arith,
      )

  gather_rounds :
      (rounds : ℕ) (node : Entries) (nodes : List Entries)
      → 2 ≤ rounds
      → Chained ws internal_fanout (node ∷ nodes)
      → AreSearchable ws (gather ws internal_fanout leaf_fanout rounds (node ∷ nodes)).0
        × (first (gather ws internal_fanout leaf_fanout rounds (node ∷ nodes)).0 ≡ first node)
        × Follows ws internal_fanout
            (rounds - 1)
            (gather ws internal_fanout leaf_fanout rounds (node ∷ nodes)).0
            (gather ws internal_fanout leaf_fanout rounds (node ∷ nodes)).1
        × (length (gather ws internal_fanout leaf_fanout rounds (node ∷ nodes)).1
            ≤ length nodes - 1)
  gather_rounds zero node nodes h c = absurd (omega arith)
  gather_rounds (suc i) node nodes h c =
      let e : suc i - 1 ≡ i = omega arith in
      let (s, f, r, l) = gather-lem i node nodes c in (s, f, rw e r, omega arith)

List-cases : (xs : List Entries) → (xs ≡ []) ⊎ ((y : Entries) × (ys : List Entries) × (xs ≡ y ∷ ys))
List-cases [] = inl refl
List-cases (y ∷ ys) = inr (y, ys, refl)

module _ (ws : List Wrapped) (internal_fanout leaf_fanout : ℕ) (wide : 2 ≤ internal_fanout) where
  next_level_none :
      (n : ℕ) (slots : Entries)
      → Option.map
          (λ (level : List Entries). slots ∷ level)
          (next_level ws internal_fanout leaf_fanout n [])
        ≡ some (slots ∷ [])
  unfolding next_level
  next_level_none zero slots = refl
  next_level_none (suc n) slots = refl

  next_level-Chained :
      (n : ℕ) (node : Entries) (nodes : List Entries)
      → Chained ws internal_fanout (node ∷ nodes)
      → length nodes < n
      → (a : Entries) × (bs : List Entries) × (next_level ws internal_fanout leaf_fanout n
            (node ∷ nodes)
          ≡ some (a ∷ bs))
        × (first a ≡ first node)
        × Chained ws internal_fanout (a ∷ bs)
        × (length bs ≤ length nodes - 1)
  unfolding next_level
  next_level-Chained zero node nodes c h = absurd (omega arith)
  next_level-Chained (suc n) node nodes c h =
      let slots = (gather ws internal_fanout leaf_fanout internal_fanout (node ∷ nodes)).0 in
      let rest = (gather ws internal_fanout leaf_fanout internal_fanout (node ∷ nodes)).1 in
      let (s, f, r, l) =
        gather_rounds ws internal_fanout leaf_fanout internal_fanout node nodes wide c in
      let step = λ (ns : List Entries).
        Option.map (λ (level : List Entries). slots ∷ level)
          (next_level ws internal_fanout leaf_fanout n ns) in
      elim (List-cases rest) [
        | inl e ↦ (slots, [], ap step e ∙ next_level_none n slots, f, s, omega arith)
        | inr (v, vs, e) ↦
            let (b, k) = subst (Follows ws internal_fanout (internal_fanout - 1) slots) e r in
            let len = ap length e in
            let (a, bs, x, g, d, m) = next_level-Chained n v vs k (omega arith) in
            (
              slots,
              a ∷ bs,
              ap step e ∙ ap (Option.map (λ (level : List Entries). slots ∷ level)) x,
              f,
              (s, rw g b, d),
              omega arith,
            )
      ]

  climb-AreSearchable :
      (n : ℕ) (node : Entries) (nodes : List Entries)
      → Chained ws internal_fanout (node ∷ nodes)
      → length nodes ≤ n
      → (root : Entries) × (climb ws internal_fanout leaf_fanout n (node ∷ nodes) ≡ some root)
        × AreSearchable ws root
        × (first root ≡ first node)
  unfolding climb Option.bind
  climb-AreSearchable n node [] c h = (node, refl, c, refl)
  climb-AreSearchable zero node (v ∷ nodes) c h = absurd (omega arith)
  climb-AreSearchable (suc n) node (v ∷ nodes) c h =
      let (a, bs, x, f, d, l) =
        next_level-Chained (length (node ∷ v ∷ nodes)) node (v ∷ nodes) c (omega arith) in
      let (root, y, s, g) = climb-AreSearchable n a bs d (omega arith) in (root, rw x y, s, g ∙ f)

-- Above a sorted array that is not empty, a root is built. It is searchable from the first record.
pub build_internal_levels-AreSearchable :
    (ws : List Wrapped) (internal_fanout leaf_fanout : ℕ)
    → IsSorted ws
    → 2 ≤ internal_fanout
    → 1 ≤ leaf_fanout
    → 0 < length ws
    → (root : Entries) × (build_internal_levels ws internal_fanout leaf_fanout ≡ some root)
      × AreSearchable ws root
      × (first root ≡ 0)
unfolding build_internal_levels Option.bind
build_internal_levels-AreSearchable ws internal_fanout leaf_fanout sorted wide full h =
    let (node, nodes, e, f, c) =
      leaf_level-Chained ws internal_fanout leaf_fanout sorted wide full (length ws) 0 h
        (omega arith) in
    let (root, x, s, g) =
      climb-AreSearchable ws internal_fanout leaf_fanout wide (length (node ∷ nodes)) node nodes c
        (omega arith) in
    (root, rw e x, s, g ∙ f)
