-- ===== src/KeySearch/Walk.antt =====
-- The walk of `point_lookup` (include/shard/PGM.h, include/shard/TrieSpline.h,
-- include/shard/ISAMTree.h) over a sorted array.
use mathlib.Core.Option
use mathlib.Core.Option.{some_inj}
use dynamic_extension.Base.{
  ℕ, zero, suc, ◌+◌, ◌<◌, ◌≤◌, ◌≡◌, subst, Option, none, some, List, [], ◌∷◌, true, false, arith,
  get_elem?, length, if◌then◌else◌, Bool-cases, inl, inr, Option-cases, ℕ-cases, ltb, leb, ◌-◌, sym,
  ap, ◌∙◌,
}
use dynamic_extension.Record.{Record, Wrapped, rec_lt, rec_eq}
use dynamic_extension.Record.Order.{rec_eq_iff}
use dynamic_extension.Merge.Array.{All, IsSorted}
use dynamic_extension.KeySearch.{walk}
use dynamic_extension.KeySearch.Split.{Splits, get_elem?-key_at}

-- What each result of a lookup says of the array: the first position of the record, its absence
-- with a greater record behind, or a read behind an array of smaller records.
abbrev pub Locates : List Wrapped → Record → Option (Option ℕ) → Type 0
Locates ws rec (some (some i)) =
    ((w : Wrapped) × (get_elem? ws i ≡ some w) × (w.rec ≡ rec))
    × ((j : ℕ) (v : Wrapped) → get_elem? ws j ≡ some v → j < i → rec_lt v.rec rec ≡ true)
Locates ws rec (some none) =
    ((j : ℕ) (v : Wrapped) → get_elem? ws j ≡ some v → rec_eq v.rec rec ≡ false)
Locates ws rec none = (j : ℕ) (v : Wrapped) → get_elem? ws j ≡ some v → rec_lt v.rec rec ≡ true

All-get_elem? :
    (P : Wrapped → Type 0) (ws : List Wrapped) (i : ℕ) (w : Wrapped)
    → All P ws
    → get_elem? ws i ≡ some w
    → P w
All-get_elem? P [] i w a e = absurd (ground arith)
All-get_elem? P (v ∷ ws) zero w a e = subst P (some_inj.0 e) a.0
All-get_elem? P (v ∷ ws) (suc i) w a e = All-get_elem? P ws i w a.1 e

get_elem?-lt : (ws : List Wrapped) (i : ℕ) (w : Wrapped) → get_elem? ws i ≡ some w → i < length ws
get_elem?-lt [] i w e = absurd (ground arith)
get_elem?-lt (v ∷ ws) zero w e = omega arith
get_elem?-lt (v ∷ ws) (suc i) w e = omega (arith, get_elem?-lt ws i w e)

-- A record of a sorted array is not below one before it.
pub sorted_at :
    (ws : List Wrapped) (i j : ℕ) (v w : Wrapped)
    → IsSorted ws
    → i < j
    → get_elem? ws i ≡ some v
    → get_elem? ws j ≡ some w
    → rec_lt w.rec v.rec ≡ false
sorted_at [] i j v w s h e f = absurd (ground arith)
sorted_at (x ∷ ws) i zero v w s h e f = absurd (omega arith)
sorted_at (x ∷ ws) zero (suc j) v w s h e f =
    subst (λ u. rec_lt w.rec u.rec ≡ false) (some_inj.0 e)
      (All-get_elem? (λ u. rec_lt u.rec x.rec ≡ false) ws j w s.0 f)
sorted_at (x ∷ ws) (suc i) (suc j) v w s h e f = sorted_at ws i j v w s.1 (omega arith) e f

after_greater :
    (v w r : Record)
    → rec_lt v w ≡ false
    → rec_lt w r ≡ false
    → rec_eq w r ≡ false
    → rec_eq v r ≡ false
unfolding rec_lt rec_eq
after_greater v w r h k l = ground arith

lt-ne : (v r : Record) → rec_lt v r ≡ true → rec_eq v r ≡ false
unfolding rec_lt rec_eq
lt-ne v r h = ground arith

module _ (ws : List Wrapped) (rec : Record) where
  -- The records before a position are below the one that is sought.
  abbrev pub Passed : ℕ → Type 0
  Passed idx = (j : ℕ) (v : Wrapped) → get_elem? ws j ≡ some v → j < idx → rec_lt v.rec rec ≡ true

  Passed-suc :
      (idx : ℕ) (w : Wrapped)
      → get_elem? ws idx ≡ some w
      → rec_lt w.rec rec ≡ true
      → Passed idx
      → Passed (idx + 1)
  Passed-suc idx w e h p j v f l = elim (ℕ-cases j idx) [
    | inl same ↦
        subst (λ u. rec_lt u.rec rec ≡ true) (some_inj.0 (sym e ∙ ap (get_elem? ws) (sym same) ∙ f))
          h
    | inr other ↦ p j v f (omega arith)
  ]

  absent :
      (idx : ℕ) (w : Wrapped)
      → IsSorted ws
      → get_elem? ws idx ≡ some w
      → rec_lt w.rec rec ≡ false
      → rec_eq w.rec rec ≡ false
      → Passed idx
      → (j : ℕ) (v : Wrapped) → get_elem? ws j ≡ some v
      → rec_eq v.rec rec ≡ false
  absent idx w s e h k p j v f = elim (ℕ-cases j idx) [
    | inl same ↦
        subst (λ u. rec_eq u.rec rec ≡ false)
          (some_inj.0 (sym e ∙ ap (get_elem? ws) (sym same) ∙ f)) k
    | inr other ↦ elim (Bool-cases (ltb j idx)) [
      | inl below ↦ lt-ne v.rec rec (p j v f (ground arith))
      | inr above ↦ after_greater v.rec w.rec rec (sorted_at ws idx j w v s (ground arith) e f) h k
    ]
  ]

  -- The walk explains its result, if it starts behind smaller records only.
  pub walk-Locates :
      (n idx : ℕ)
      → IsSorted ws
      → idx + n ≡ length ws
      → Passed idx
      → Locates ws rec (walk ws rec n idx)
  unfolding walk Option.bind
  walk-Locates zero idx s l p = elim (Option-cases (get_elem? ws idx)) [
    | inl e ↦ rw e (λ j v f. p j v f (omega (arith, get_elem?-lt ws j v f)))
    | inr (w, e) ↦ absurd (omega (arith, get_elem?-lt ws idx w e))
  ]
  walk-Locates (suc n) idx s l p =
      let (w, e, f) = get_elem?-key_at ws idx (omega arith) in
      elim (Bool-cases (rec_lt w.rec rec)) [
        | inl below ↦
            rw (e, below) (walk-Locates n (idx + 1) s (omega arith) (Passed-suc idx w e below p))
        | inr above ↦ elim (Bool-cases (rec_eq w.rec rec)) [
          | inl same ↦ rw (e, above, same) ((w, e, (rec_eq_iff w.rec rec).0 same), λ j v. p j v)
          | inr other ↦ rw (e, above, other) (absent idx w s e above other p)
        ]
      ]

below-rec_lt : (w : Wrapped) (rec : Record) → w.rec.key < rec.key → rec_lt w.rec rec ≡ true
unfolding rec_lt
below-rec_lt w rec h = ground arith

-- The records before the lower bound of a record's key are below the record.
pub Splits-Passed :
    (ws : List Wrapped) (rec : Record) (r idx : ℕ)
    → Splits ws rec.key r
    → idx ≤ r
    → Passed ws rec idx
Splits-Passed ws rec r idx split h j v e k =
    let (w, f, g) = get_elem?-key_at ws j (get_elem?-lt ws j v e) in
    let same : w ≡ v = some_inj.0 (sym f ∙ e) in
    below-rec_lt v rec
      (subst (λ u. u.rec.key < rec.key) same (omega (arith, g, split.1 j (omega arith))))

-- `point_lookup` behind its `get_lower_bound`, from a position that is not behind the lower bound.
pub lookup-Locates :
    (ws : List Wrapped) (rec : Record) (r idx : ℕ)
    → IsSorted ws
    → Splits ws rec.key r
    → idx ≤ r
    → Locates ws rec (if leb (length ws) idx then some none else walk ws rec (length ws - idx) idx)
lookup-Locates ws rec r idx s split h = elim (Bool-cases (leb (length ws) idx)) [
  | inl past ↦ rw past (λ j v e.
      lt-ne v.rec rec
        (Splits-Passed ws rec r idx split h j v e (ground (arith, get_elem?-lt ws j v e))))
  | inr inside ↦ rw inside (
      walk-Locates ws rec (length ws - idx) idx s (ground arith)
        (Splits-Passed ws rec r idx split h))
]
