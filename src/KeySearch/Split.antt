-- ===== src/KeySearch/Split.antt =====
-- The position that splits a sorted array at a key: what a lower bound is.
use dynamic_extension.Base.{
  ℕ, zero, suc, ◌<◌, ◌≤◌, ◌≡◌, refl, some, List, [], ◌∷◌, false, arith, get_elem?, length, ltb,
  ◌==◌, ◌-◌, ◌||◌, if◌then◌else◌,
}
use dynamic_extension.Record.{Wrapped, rec_lt}
use dynamic_extension.Merge.Array.{All, IsSorted}

-- The key at a position, 0 behind the array.
abbrev pub key_at : List Wrapped → ℕ → ℕ
key_at [] i = 0
key_at (w ∷ ws) zero = w.rec.key
key_at (w ∷ ws) (suc i) = key_at ws i

-- The keys before `r` are below `key`, and the others are not.
abbrev pub Splits : (ws : List Wrapped) (key r : ℕ) → Type 0
Splits ws key r =
    (r ≤ length ws)
    × ((i : ℕ) → i < r → key_at ws i < key)
    × ((i : ℕ) → r ≤ i → i < length ws → key ≤ key_at ws i)

-- The position before the lower bound `r` of a key that the array does not hold, where there is
-- one, and `r` itself otherwise.
abbrev pub one_before : (ws : List Wrapped) (key r : ℕ) → ℕ
one_before ws key r = if r == length ws || (r == 0 || key_at ws r == key) then r else r - 1

pub get_elem?-key_at :
    (ws : List Wrapped) (i : ℕ)
    → i < length ws
    → (w : Wrapped) × (get_elem? ws i ≡ some w) × (w.rec.key ≡ key_at ws i)
get_elem?-key_at [] i h = absurd (omega arith)
get_elem?-key_at (w ∷ ws) zero h = (w, refl, refl)
get_elem?-key_at (w ∷ ws) (suc i) h = get_elem?-key_at ws i (omega arith)

All-key_at :
    (w : Wrapped) (ws : List Wrapped) (i : ℕ)
    → All (λ v. rec_lt v.rec w.rec ≡ false) ws
    → i < length ws
    → w.rec.key ≤ key_at ws i
unfolding rec_lt
All-key_at w [] i a h = absurd (omega arith)
All-key_at w (v ∷ ws) zero a h = ground arith
All-key_at w (v ∷ ws) (suc i) a h = All-key_at w ws i a.1 (omega arith)

-- The keys of a sorted array do not fall.
pub key_at_mono :
    (ws : List Wrapped) (i j : ℕ) → IsSorted ws → i ≤ j → j < length ws → key_at ws i ≤ key_at ws j
key_at_mono [] i j s p h = absurd (omega arith)
key_at_mono (w ∷ ws) zero zero s p h = omega arith
key_at_mono (w ∷ ws) zero (suc j) s p h = All-key_at w ws j s.0 (omega arith)
key_at_mono (w ∷ ws) (suc i) zero s p h = absurd (omega arith)
key_at_mono (w ∷ ws) (suc i) (suc j) s p h = key_at_mono ws i j s.1 (omega arith) (omega arith)

pub Splits-unique : (ws : List Wrapped) (key r s : ℕ) → Splits ws key r → Splits ws key s → r ≡ s
Splits-unique ws key r s p q = ground (arith, p.1 s, p.2 r, q.1 r, q.2 s)

-- The lower bound, as the array is read from the front.
unfoldable pub lower_bound : List Wrapped → ℕ → ℕ
lower_bound [] key = 0
lower_bound (w ∷ ws) key = if ltb w.rec.key key then suc (lower_bound ws key) else 0

lower_bound-le : (ws : List Wrapped) (key : ℕ) → lower_bound ws key ≤ length ws
unfolding lower_bound
lower_bound-le [] key = omega arith
lower_bound-le (w ∷ ws) key = ground (arith, lower_bound-le ws key)

before-lower_bound : (ws : List Wrapped) (key i : ℕ) → i < lower_bound ws key → key_at ws i < key
unfolding lower_bound
before-lower_bound [] key i h = absurd (omega arith)
before-lower_bound (w ∷ ws) key zero h = ground arith
before-lower_bound (w ∷ ws) key (suc i) h = ground (arith, before-lower_bound ws key i)

from-lower_bound :
    (ws : List Wrapped) (key i : ℕ)
    → IsSorted ws
    → lower_bound ws key ≤ i
    → i < length ws
    → key ≤ key_at ws i
unfolding lower_bound
from-lower_bound [] key i s h k = absurd (omega arith)
from-lower_bound (w ∷ ws) key zero s h k = ground arith
from-lower_bound (w ∷ ws) key (suc i) s h k =
    ground (arith, from-lower_bound ws key i s.1, key_at_mono (w ∷ ws) 0 (suc i) s)

pub lower_bound-Splits :
    (ws : List Wrapped) (key : ℕ) → IsSorted ws → Splits ws key (lower_bound ws key)
lower_bound-Splits ws key s =
    (lower_bound-le ws key, before-lower_bound ws key, λ i. from-lower_bound ws key i s)
