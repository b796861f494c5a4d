-- ===== src/RangeScan/Sources.antt =====
-- What the sources of a range scan (RangeScanIterator.h) have still to give, and what `refill` takes.
use dynamic_extension.Base.{
  ℕ, zero, suc, ◌+◌, ◌<◌, ◌≡◌, ◌≢◌, refl, sym, ap, subst, ◌∙◌, true, none, some, List, [], ◌∷◌,
  arith, Bool-cases, Option-cases, inl, inr, ◌⊎◌, if◌then◌else◌, length, leb, get_elem?, set, take,
  drop, length-set,
}
use native.Mathlib.Numerals.{add-one}
use dynamic_extension.Record.{Wrapped}
use dynamic_extension.RangeScan.{Iterator, get_current, get_next, RangeScanIterator, refill}

drop-get_elem? :
    (i : ℕ) (xs : List Wrapped)
    → ((get_elem? xs i ≡ none) × (drop i xs ≡ []))
      ⊎ (w : Wrapped) × (get_elem? xs i ≡ some w) × (drop i xs ≡ w ∷ drop (suc i) xs)
drop-get_elem? zero [] = inl (refl, refl)
drop-get_elem? (suc i) [] = inl (refl, refl)
drop-get_elem? zero (w ∷ ws) = inr (w, refl, refl)
drop-get_elem? (suc i) (w ∷ ws) = drop-get_elem? i ws

drop-next :
    (i : ℕ) (xs : List Wrapped)
    → ((get_elem? xs i ≡ none) × (drop i xs ≡ []))
      ⊎ (w : Wrapped) × (get_elem? xs i ≡ some w) × (drop i xs ≡ w ∷ drop (i + 1) xs)
drop-next i xs = rw (add-one i) (drop-get_elem? i xs)

get_elem?-take :
    (n i : ℕ) (xs : List Wrapped)
    → get_elem? (take n xs) i ≡ (if leb n i then none else get_elem? xs i)
get_elem?-take zero i xs = ground arith
get_elem?-take (suc n) i [] = ground arith
get_elem?-take (suc n) zero (x ∷ xs) = ground arith
get_elem?-take (suc n) (suc i) (x ∷ xs) = ground (arith, get_elem?-take n i xs)

-- The records that an iterator has still to give.
unfoldable pub to_give : Iterator → List Wrapped
to_give it = drop it.idx (take it.end it.records)

to_give-cases :
    (it : Iterator)
    → ((get_current it ≡ none) × (to_give it ≡ []))
      ⊎ (w : Wrapped) × (get_current it ≡ some w) × (to_give it ≡ w ∷ to_give (get_next it))
unfolding get_current to_give get_next
to_give-cases it = elim (drop-next it.idx (take it.end it.records)) [
  | inl (e, d) ↦ inl (sym (get_elem?-take it.end it.idx it.records) ∙ e, d)
  | inr (w, e, d) ↦ inr (w, sym (get_elem?-take it.end it.idx it.records) ∙ e, d)
]

-- The records at the front whose keys are at most `k`.
unfoldable pub upto : ℕ → List Wrapped → List Wrapped
upto k [] = []
upto k (w ∷ ws) = if leb w.rec.key k then w ∷ upto k ws else []

-- The records that a source has still to give.
unfoldable pub rest_of : RangeScanIterator → ℕ → List Wrapped
rest_of s zero = drop s.buffer_idx s.buffer_recs
rest_of s (suc i) = elim (get_elem? s.shard_iters i) [
  | none ↦ []
  | some it ↦ upto s.finish.key (to_give it)
]

-- The number of sources.
abbrev pub sources : RangeScanIterator → ℕ
sources s = suc (length s.shard_iters)

get_elem?-lt : (xs : List Iterator) (i : ℕ) (x : Iterator) → get_elem? xs i ≡ some x → i < length xs
get_elem?-lt [] i x h = absurd (ground arith)
get_elem?-lt (y ∷ xs) zero x h = omega arith
get_elem?-lt (y ∷ xs) (suc i) x h = omega (arith, get_elem?-lt xs i x h)

get_elem?-set_self :
    (xs : List Iterator) (i : ℕ) (v x : Iterator)
    → get_elem? xs i ≡ some x
    → get_elem? (set xs i v) i ≡ some v
get_elem?-set_self [] i v x h = absurd (ground arith)
get_elem?-set_self (y ∷ xs) zero v x h = refl
get_elem?-set_self (y ∷ xs) (suc i) v x h = get_elem?-set_self xs i v x h

get_elem?-set_ne :
    (xs : List Iterator) (i j : ℕ) (v : Iterator)
    → j ≢ i
    → get_elem? (set xs i v) j ≡ get_elem? xs j
get_elem?-set_ne [] i j v h = refl
get_elem?-set_ne (y ∷ xs) zero zero v h = absurd (h refl)
get_elem?-set_ne (y ∷ xs) zero (suc j) v h = refl
get_elem?-set_ne (y ∷ xs) (suc i) zero v h = refl
get_elem?-set_ne (y ∷ xs) (suc i) (suc j) v h = get_elem?-set_ne xs i j v (λ e. h (ap suc e))

-- A source has nothing to give, or its next record goes to the heap.
pub data Refilled (s s' : RangeScanIterator) (i : ℕ) : Type 0 where
  exhausted : rest_of s i ≡ [] → s' ≡ s → Refilled s s' i
  pushed :
      (w : Wrapped) (ws : List Wrapped)
      → i < sources s
      → rest_of s i ≡ w ∷ ws
      → rest_of s' i ≡ ws
      → ((j : ℕ) → j ≢ i → rest_of s' j ≡ rest_of s j)
      → s'.heap ≡ record { rec = w; source = i } ∷ s.heap
      → sources s' ≡ sources s
      → Refilled s s' i

-- What `refill` makes of the state when it pushes `w`.
abbrev from_buffer : RangeScanIterator → Wrapped → RangeScanIterator
from_buffer s w = record s {
  heap = record { rec = w; source = 0 } ∷ s.heap;
  buffer_idx = s.buffer_idx + 1;
}

abbrev from_shard : RangeScanIterator → ℕ → Iterator → Wrapped → RangeScanIterator
from_shard s i it w = record s {
  heap = record { rec = w; source = suc i } ∷ s.heap;
  shard_iters = set s.shard_iters i (get_next it);
}

from_buffer-others :
    (s : RangeScanIterator) (w : Wrapped) (j : ℕ)
    → j ≢ 0
    → rest_of (from_buffer s w) j ≡ rest_of s j
unfolding rest_of
from_buffer-others s w zero h = absurd (h refl)
from_buffer-others s w (suc j) h = refl

from_shard-others :
    (s : RangeScanIterator) (i : ℕ) (it : Iterator) (w : Wrapped) (j : ℕ)
    → j ≢ suc i
    → rest_of (from_shard s i it w) j ≡ rest_of s j
unfolding rest_of
from_shard-others s i it w zero h = refl
from_shard-others s i it w (suc j) h =
    rw (rest_of, get_elem?-set_ne s.shard_iters i j (get_next it) (λ x. h (ap suc x))) refl

from_buffer-Refilled :
    (s : RangeScanIterator) (w : Wrapped)
    → drop s.buffer_idx s.buffer_recs ≡ w ∷ drop (s.buffer_idx + 1) s.buffer_recs
    → Refilled s (from_buffer s w) 0
unfolding rest_of
from_buffer-Refilled s w d =
    Refilled.pushed w (drop (s.buffer_idx + 1) s.buffer_recs) (omega arith) d refl
      (from_buffer-others s w) refl refl

from_shard-Refilled :
    (s : RangeScanIterator) (i : ℕ) (it : Iterator) (w : Wrapped)
    → get_elem? s.shard_iters i ≡ some it
    → to_give it ≡ w ∷ to_give (get_next it)
    → leb w.rec.key s.finish.key ≡ true
    → Refilled s (from_shard s i it w) (suc i)
unfolding rest_of upto
from_shard-Refilled s i it w e r k =
    Refilled.pushed w (upto s.finish.key (to_give (get_next it)))
      (omega (arith, get_elem?-lt s.shard_iters i it e)) (rw (rest_of, e, r, upto, k) refl)
      (rw (rest_of, get_elem?-set_self s.shard_iters i (get_next it) it e) refl)
      (from_shard-others s i it w) refl (ap suc (length-set s.shard_iters i (get_next it)))

-- `refill` takes the next record of its source, if there is one.
pub refill-Refilled : (s : RangeScanIterator) (i : ℕ) → Refilled s (refill s i) i
unfolding refill rest_of upto
refill-Refilled s zero = elim (drop-next s.buffer_idx s.buffer_recs) [
  | inl (e, d) ↦ Refilled.exhausted d (rw (refill, e) refl)
  | inr (w, e, d) ↦ subst (λ t. Refilled s t 0) (rw (refill, e) refl) (from_buffer-Refilled s w d)
]
refill-Refilled s (suc i) = elim (Option-cases (get_elem? s.shard_iters i)) [
  | inl e ↦ Refilled.exhausted (rw (rest_of, e) refl) (rw (refill, e) refl)
  | inr (it, e) ↦ elim (to_give-cases it) [
    | inl (g, r) ↦ Refilled.exhausted (rw (rest_of, e, r) refl) (rw (refill, e, g) refl)
    | inr (w, g, r) ↦ elim (Bool-cases (leb w.rec.key s.finish.key)) [
      | inl k ↦
          subst (λ t. Refilled s t (suc i)) (rw (refill, e, g, k) refl)
            (from_shard-Refilled s i it w e r k)
      | inr k ↦ Refilled.exhausted (rw (rest_of, e, r, upto, k) refl) (rw (refill, e, g, k) refl)
    ]
  ]
]
