-- ===== src/External/Levels.antt =====
-- The internal pages of ExternalISAMTree.h: each child spans some data pages, and the key of its slot
-- is that of the last one.
use mathlib.Core.Option
use dynamic_extension.Base.{
  ℕ, zero, suc, ◌+◌, ◌-◌, ◌<◌, ◌≤◌, ◌≡◌, refl, ap, sym, ◌∙◌, Option, some, List, [], ◌∷◌, Bool,
  true, false, arith, length, Bool-cases, inl, inr, ◌⊎◌, subst,
}
use dynamic_extension.Isam.Nodes.{Child, leaf, internal, Entries, nil, entry, descend, choose_child}
use dynamic_extension.External.{Stored}
use dynamic_extension.External.Nodes.{
  last_child_key, page_key, child_key, gather, next_level, climb, data_pages, build_internal_levels,
}

lt-or : (p m : ℕ) → p < m → (p + 1 < m) ⊎ (p ≡ m - 1)
lt-or p m h = ground arith

le-or : (m p : ℕ) → m ≤ p → (m < p) ⊎ (m ≡ p)
le-or m p h = ground arith

module _ (leaf_fanout : ℕ) (t : Stored) where
  abbrev key_of_page : ℕ → ℕ
  key_of_page p = page_key leaf_fanout t p

  -- Below a child are the pages from `a` to before `b`.
  unfoldable mutual
    pub Spans : ℕ → ℕ → Child → Type 0
    Spans a b (leaf p) = (a ≡ p) × (b ≡ p + 1)
    Spans a b (internal node) = Spread a b node

    pub Spread : ℕ → ℕ → Entries → Type 0
    Spread a b nil = ⊥
    Spread a b (entry k c nil) = Spans a b c × (k ≡ key_of_page (b - 1))
    Spread a b (entry k c (entry k' c' rest)) =
        (m : ℕ) × (a < m) × Spans a m c × (k ≡ key_of_page (m - 1)) × Spread m b (entry k' c' rest)

  -- The descent ends at a page among them: the first one that passes the test, or the last.
  abbrev pub Lands : (ℕ → Bool) → ℕ → ℕ → Option ℕ → Type 0
  Lands stop a b o =
      (p : ℕ) × (o ≡ some p)
      × (a ≤ p)
      × (p < b)
      × (a < p → stop (key_of_page (p - 1)) ≡ false)
      × (p + 1 < b → stop (key_of_page p) ≡ true)

  mutual
    unfolding Spans

    Spans-le : (a b : ℕ) (c : Child) → Spans a b c → a ≤ b
    Spans-le a b (leaf p) h = omega (arith, h.0, h.1)
    Spans-le a b (internal node) h = Spread-le a b node h

    Spread-le : (a b : ℕ) (e : Entries) → Spread a b e → a ≤ b
    Spread-le a b nil h = absurd h
    Spread-le a b (entry k c nil) h = Spans-le a b c h.0
    Spread-le a b (entry k c (entry k' c' rest)) (m, l, s, e, r) =
        let le = Spread-le m b (entry k' c' rest) r in omega arith

  module _ (stop : ℕ → Bool) where
    near :
        (a m b : ℕ) (k : ℕ) (o : Option ℕ)
        → m ≤ b
        → k ≡ key_of_page (m - 1)
        → stop k ≡ true
        → Lands stop a m o
        → Lands stop a b o
    near a m b k o le e h (p, x, low, high, before, after) = (
      p,
      x,
      low,
      omega arith,
      before,
      λ l. elim (lt-or p m high) [
        | inl i ↦ after i
        | inr i ↦ ap (λ q. stop (key_of_page q)) i ∙ ap stop (sym e) ∙ h
      ],
    )

    far :
        (a m b : ℕ) (k : ℕ) (o : Option ℕ)
        → a < m
        → k ≡ key_of_page (m - 1)
        → stop k ≡ false
        → Lands stop m b o
        → Lands stop a b o
    far a m b k o le e h (p, x, low, high, before, after) = (
      p,
      x,
      omega arith,
      high,
      λ l. elim (le-or m p low) [
        | inl i ↦ before i
        | inr i ↦ ap (λ q. stop (key_of_page (q - 1))) (sym i) ∙ ap stop (sym e) ∙ h
      ],
      after,
    )

    mutual
      unfolding descend Spans

      pub descend-Lands : (a b : ℕ) (c : Child) → Spans a b c → Lands stop a b (descend stop c)
      descend-Lands a b (leaf p) h = (
        p,
        refl,
        omega (arith, h.0),
        omega (arith, h.1),
        λ l. absurd (omega (arith, h.0)),
        λ l. absurd (omega (arith, h.1)),
      )
      descend-Lands a b (internal node) h = choose_child-Lands a b node h

      choose_child-Lands :
          (a b : ℕ) (e : Entries) → Spread a b e → Lands stop a b (choose_child stop e)
      choose_child-Lands a b nil h = absurd h
      choose_child-Lands a b (entry k c nil) h = descend-Lands a b c h.0
      choose_child-Lands a b (entry k c (entry k' c' rest)) (m, l, s, e, r) =
          elim (Bool-cases (stop k)) [
            | inl x ↦
                rw x
                  (near a m b k _ (Spread-le m b (entry k' c' rest) r) e x (descend-Lands a m c s))
            | inr x ↦ rw x (far a m b k _ l e x (choose_child-Lands m b (entry k' c' rest) r))
          ]

  -- The children of a level, from the left.
  abbrev pub Row : ℕ → ℕ → List Child → Type 0
  Row a b [] = a ≡ b
  Row a b (c ∷ cs) =
      (m : ℕ) × (a < m)
      × Spans a m c
      × (child_key leaf_fanout t c ≡ key_of_page (m - 1))
      × Row m b cs

  entry-Spread :
      (a m b k : ℕ) (c : Child) (e : Entries)
      → a < m
      → Spans a m c
      → k ≡ key_of_page (m - 1)
      → Spread m b e
      → Spread a b (entry k c e) × (last_child_key (entry k c e) ≡ last_child_key e)
  unfolding Spans last_child_key
  entry-Spread a m b k c nil l s e h = absurd h
  entry-Spread a m b k c (entry k' c' rest) l s e h = ((m, l, s, e, h), refl)

  -- A node takes the first children of a level.
  gather-Spread :
      (i a b : ℕ) (c : Child) (cs : List Child)
      → Row a b (c ∷ cs)
      → (m : ℕ) × (a < m)
        × Spread a m (gather leaf_fanout t (suc i) (c ∷ cs)).0
        × (last_child_key (gather leaf_fanout t (suc i) (c ∷ cs)).0 ≡ key_of_page (m - 1))
        × Row m b (gather leaf_fanout t (suc i) (c ∷ cs)).1
        × (length (gather leaf_fanout t (suc i) (c ∷ cs)).1 ≤ length cs - i)
  unfolding gather Spans last_child_key
  gather-Spread zero a b c cs (m, l, s, e, r) = (m, l, (s, e), e, r, omega arith)
  gather-Spread (suc i) a b c [] (m, l, s, e, r) = (m, l, (s, e), e, r, omega arith)
  gather-Spread (suc i) a b c (d ∷ cs) (m, l, s, e, r) =
      let (m', l', s', e', r', n') = gather-Spread i m b d cs r in
      let (x, y) =
        entry-Spread a m m' (child_key leaf_fanout t c) c (gather leaf_fanout t (suc i) (d ∷ cs)).0
          l s e s' in
      (m', omega arith, x, y ∙ e', r', omega arith)

  module _ (internal_fanout : ℕ) (wide : 2 ≤ internal_fanout) where
    rounds :
        (a b : ℕ) (c : Child) (cs : List Child)
        → Row a b (c ∷ cs)
        → (m : ℕ) × (a < m)
          × Spread a m (gather leaf_fanout t internal_fanout (c ∷ cs)).0
          × (last_child_key (gather leaf_fanout t internal_fanout (c ∷ cs)).0 ≡ key_of_page (m - 1))
          × Row m b (gather leaf_fanout t internal_fanout (c ∷ cs)).1
          × (length (gather leaf_fanout t internal_fanout (c ∷ cs)).1 ≤ length cs - 1)
    rounds a b c cs r =
        let same : suc (internal_fanout - 1) ≡ internal_fanout = omega arith in
        let (m, l, s, e, r', n) =
          subst
            (λ i.
              (m : ℕ) × (a < m)
              × Spread a m (gather leaf_fanout t i (c ∷ cs)).0
              × (last_child_key (gather leaf_fanout t i (c ∷ cs)).0 ≡ key_of_page (m - 1))
              × Row m b (gather leaf_fanout t i (c ∷ cs)).1
              × (length (gather leaf_fanout t i (c ∷ cs)).1 ≤ length cs - (internal_fanout - 1)))
            same (gather-Spread (internal_fanout - 1) a b c cs r) in
        (m, l, s, e, r', omega arith)

    next_level-Row :
        (n a b : ℕ) (cs : List Child)
        → Row a b cs
        → length cs ≤ n
        → (ds : List Child) × (next_level internal_fanout leaf_fanout t n cs ≡ some ds)
          × Row a b ds
          × (length ds ≤ length cs)
          × (2 ≤ length cs → length ds < length cs)
    unfolding next_level Spans child_key
    next_level-Row zero a b [] r h = ([], refl, r, omega arith, λ l. absurd (omega arith))
    next_level-Row zero a b (c ∷ cs) r h = absurd (omega arith)
    next_level-Row (suc n) a b [] r h = ([], refl, r, omega arith, λ l. absurd (omega arith))
    next_level-Row (suc n) a b (c ∷ cs) r h =
        let g = gather leaf_fanout t internal_fanout (c ∷ cs) in
        let (m, l, s, e, r', k) = rounds a b c cs r in
        let (ds, x, row, len, less) = next_level-Row n m b g.1 r' (omega arith) in
        (internal g.0 ∷ ds, rw x refl, (m, l, s, e, row), omega arith, λ two. omega arith)

    climb-Spans :
        (n a b : ℕ) (cs : List Child)
        → Row a b cs
        → a < b
        → length cs ≤ suc n
        → (root : Child) × (climb internal_fanout leaf_fanout t n cs ≡ some root) × Spans a b root
    unfolding climb Option.bind
    climb-Spans n a b [] r l h = absurd (omega (arith, r))
    climb-Spans n a b (c ∷ []) (m, k, s, e, r) l h = (c, refl, subst (λ q. Spans a q c) r s)
    climb-Spans zero a b (c ∷ d ∷ cs) r l h = absurd (omega arith)
    climb-Spans (suc n) a b (c ∷ d ∷ cs) r l h =
        let (ds, x, row, len, less) =
          next_level-Row (length (c ∷ d ∷ cs)) a b (c ∷ d ∷ cs) r (omega arith) in
        let small = less (omega arith) in
        let (root, y, s) = climb-Spans n a b ds row l (omega arith) in (root, rw x y, s)

    data_pages-Row : (p n : ℕ) → Row p (p + n) (data_pages p n)
    unfolding data_pages Spans child_key
    data_pages-Row p zero = omega arith
    data_pages-Row p (suc n) =
        let same : p ≡ p + 1 - 1 = omega arith in
        let sum : p + 1 + n ≡ p + suc n = omega arith in
        (
          p + 1,
          omega arith,
          (refl, refl),
          ap key_of_page same,
          subst (λ b. Row (p + 1) b (data_pages (p + 1) n)) sum (data_pages-Row (p + 1) n),
        )

    length-data_pages : (p n : ℕ) → length (data_pages p n) ≡ n
    unfolding data_pages
    length-data_pages p zero = refl
    length-data_pages p (suc n) = ap suc (length-data_pages (p + 1) n)

    -- Above some data pages a root is built, and below it are those pages.
    pub build_internal_levels-Spans :
        0 < t.last_data_page
        → (root : Child) × (build_internal_levels internal_fanout leaf_fanout t ≡ some root)
          × Spans 1 (1 + t.last_data_page) root
    unfolding build_internal_levels
    build_internal_levels-Spans h =
        climb-Spans t.last_data_page 1 (1 + t.last_data_page) (data_pages 1 t.last_data_page)
          (data_pages-Row 1 t.last_data_page) (omega arith)
          (omega (arith, length-data_pages 1 t.last_data_page))
