-- ===== src/External/Slots.antt =====
-- The loop of ExternalISAMTree.h over the slots of a data page, and positions that split an array.
use dynamic_extension.Base.{
  ℕ, zero, suc, ◌+◌, ◌-◌, ◌<◌, ◌≤◌, ◌≡◌, refl, List, [], ◌∷◌, arith, length, leb, Bool-cases, inl,
  inr, ◌⊎◌,
}
use dynamic_extension.Record.{Wrapped}
use dynamic_extension.Merge.Array.{IsSorted}
use dynamic_extension.KeySearch.Split.{key_at, key_at_mono, Splits}
use dynamic_extension.External.Nodes.{slot_from}

-- A position of a sorted array with lower keys before it and the others from it on.
pub Splits-at :
    (ws : List Wrapped) (key r : ℕ)
    → IsSorted ws
    → r ≤ length ws
    → (0 < r → key_at ws (r - 1) < key)
    → (r < length ws → key ≤ key_at ws r)
    → Splits ws key r
Splits-at ws key r s le low high = (
  le,
  λ i h.
      let mono = key_at_mono ws i (r - 1) s (omega arith) (omega arith) in
      let below = low (omega arith) in omega arith,
  λ i h k. let mono = key_at_mono ws r i s h k in let above = high (omega arith) in omega arith,
)

-- The loop over a page stops at the first key that is not below `key`, or goes to the end.
abbrev pub Stops : (key end : ℕ) → List Wrapped → (i r : ℕ) → Type 0
Stops key end ws i r =
    ((s : ℕ) × (r ≡ i + s)
      × (s < length ws)
      × ((j : ℕ) → j < s → key_at ws j < key)
      × (key ≤ key_at ws s))
    ⊎ (((j : ℕ) → j < length ws → key_at ws j < key) × (0 < key → r ≡ end))

cons-lower :
    (key m : ℕ) (w : Wrapped) (ws : List Wrapped)
    → w.rec.key < key
    → ((j : ℕ) → j < m → key_at ws j < key)
    → (j : ℕ) → j < suc m
    → key_at (w ∷ ws) j < key
cons-lower key m w ws l h zero k = l
cons-lower key m w ws l h (suc j) k = h j (omega arith)

slot_from-empty : (key end i n : ℕ) → 0 < key → slot_from key end [] i n ≡ end
unfolding slot_from
slot_from-empty key end i zero h = refl
slot_from-empty key end i (suc n) h = let ih = slot_from-empty key end (i + 1) n h in ground arith

pub slot_from-Stops :
    (key end : ℕ) (ws : List Wrapped) (i n : ℕ)
    → length ws ≤ n
    → Stops key end ws i (slot_from key end ws i n)
unfolding slot_from
slot_from-Stops key end [] i n h =
    inr (λ j l. absurd (omega arith), λ pos. slot_from-empty key end i n pos)
slot_from-Stops key end (w ∷ ws) i zero h = absurd (omega arith)
slot_from-Stops key end (w ∷ ws) i (suc n) h = elim (Bool-cases (leb key w.rec.key)) [
  | inl e ↦ inl (0, rw e (omega arith), omega arith, λ j l. absurd (omega arith), ground arith)
  | inr e ↦ elim (slot_from-Stops key end ws (i + 1) n (omega arith)) [
    | inl (s, x, l, low, high) ↦ inl (
      suc s,
      rw e (omega (arith, x)),
      omega arith,
      cons-lower key s w ws (ground arith) low,
      high,
    )
    | inr (low, x) ↦ inr (cons-lower key (length ws) w ws (ground arith) low, λ pos. rw e (x pos))
  ]
]
