-- ===== src/RangeScan/Input.antt =====
-- The records that a range scan (RangeScanIterator.h) is about, as its sources have them.
use dynamic_extension.Base.{
  ℕ, zero, suc, ◌+◌, ◌≤◌, ◌<◌, ◌≡◌, refl, false, none, some, List, [], ◌∷◌, ◌++◌, arith, Bool-cases,
  inl, inr, ◌⊎◌, length, get_elem?, leb,
}
use dynamic_extension.Record.{Record, Wrapped, rec_lt}
use dynamic_extension.Record.Net.{sum_by, sum_by-append}
use dynamic_extension.Merge.Array.{All, IsSorted}
use dynamic_extension.RangeScan.{Iterator, RangeScanIterator, buffer_range}
use dynamic_extension.RangeScan.Sources.{to_give, upto, rest_of, sources}
use dynamic_extension.RangeScan.Covers.{below, disorder, sum_to}

-- The records that the iterators of the shards have up to a key.
unfoldable pub iter_records : ℕ → List Iterator → List Wrapped
iter_records k [] = []
iter_records k (it ∷ its) = upto k (to_give it) ++ iter_records k its

-- The records that a scan is about.
abbrev pub scanned : Record → Record → List Wrapped → List Iterator → List Wrapped
scanned start finish view iters =
    buffer_range start.key finish.key view ++ iter_records finish.key iters

-- Each iterator gives its records in order.
abbrev pub AllSorted : List Iterator → Type 0
AllSorted [] = Unit
AllSorted (it ∷ its) = IsSorted (to_give it) × AllSorted its

All→below :
    (w : Wrapped) (ws : List Wrapped)
    → All (λ v. rec_lt v.rec w.rec ≡ false) ws
    → sum_by (below w.rec) ws ≡ 0
unfolding sum_by
All→below w [] h = refl
All→below w (v ∷ ws) h = ground (arith, All→below w ws h.1)

pub IsSorted→disorder : (ws : List Wrapped) → IsSorted ws → disorder ws ≡ 0
unfolding disorder
IsSorted→disorder [] h = refl
IsSorted→disorder (w ∷ ws) h = omega (arith, All→below w ws h.0, IsSorted→disorder ws h.1)

sum_by-upto : (f : Wrapped → ℕ) (k : ℕ) (ws : List Wrapped) → sum_by f (upto k ws) ≤ sum_by f ws
unfolding sum_by upto
sum_by-upto f k [] = omega arith
sum_by-upto f k (w ∷ ws) = elim (Bool-cases (leb w.rec.key k)) [
  | inl t ↦ rw (upto, t) (omega (arith, sum_by-upto f k ws))
  | inr t ↦ rw (upto, t) (omega arith)
]

disorder-upto : (k : ℕ) (ws : List Wrapped) → disorder (upto k ws) ≤ disorder ws
unfolding disorder upto
disorder-upto k [] = omega arith
disorder-upto k (w ∷ ws) = elim (Bool-cases (leb w.rec.key k)) [
  | inl t ↦ rw (upto, t) (omega (arith, disorder-upto k ws, sum_by-upto (below w.rec) k ws))
  | inr t ↦ rw (upto, t) (omega arith)
]

-- The source of a shard, from the list of the iterators.
abbrev pub shard_rest : ℕ → List Iterator → ℕ → List Wrapped
shard_rest k its j = elim (get_elem? its j) [ none ↦ [] | some it ↦ upto k (to_give it) ]

pub shard_rest-sorted :
    (k : ℕ) (its : List Iterator) (j : ℕ) → AllSorted its → disorder (shard_rest k its j) ≡ 0
unfolding disorder
shard_rest-sorted k [] j h = refl
shard_rest-sorted k (it ∷ its) zero h =
    omega (arith, disorder-upto k (to_give it), IsSorted→disorder (to_give it) h.0)
shard_rest-sorted k (it ∷ its) (suc j) h = shard_rest-sorted k its j h.1

pub sum_to-shift : (g : ℕ → ℕ) (n : ℕ) → sum_to g (suc n) ≡ g 0 + sum_to (λ j. g (suc j)) n
unfolding sum_to
sum_to-shift g zero = omega arith
sum_to-shift g (suc n) = omega (arith, sum_to-shift g n)

pub sum_to-shard_rest :
    (f : Wrapped → ℕ) (k : ℕ) (its : List Iterator)
    → sum_to (λ j. sum_by f (shard_rest k its j)) (length its) ≡ sum_by f (iter_records k its)
unfolding sum_to iter_records sum_by
sum_to-shard_rest f k [] = refl
sum_to-shard_rest f k (it ∷ its) = omega (
  arith,
  sum_to-shift (λ j. sum_by f (shard_rest k (it ∷ its) j)) (length its),
  sum_to-shard_rest f k its,
  sum_by-append f (upto k (to_give it)) (iter_records k its),
)

get_elem?-beyond : (its : List Iterator) (j : ℕ) → length its ≤ j → get_elem? its j ≡ none
get_elem?-beyond [] j h = refl
get_elem?-beyond (it ∷ its) zero h = absurd (omega arith)
get_elem?-beyond (it ∷ its) (suc j) h = get_elem?-beyond its j (omega arith)

pub lt-cases : (a b : ℕ) → (a < b) ⊎ (b ≤ a)
lt-cases a b = ground arith

pub rest_of-beyond : (s : RangeScanIterator) (j : ℕ) → sources s ≤ j → rest_of s j ≡ []
unfolding rest_of
rest_of-beyond s zero h = absurd (omega arith)
rest_of-beyond s (suc j) h = rw (rest_of, get_elem?-beyond s.shard_iters j (omega arith)) refl
