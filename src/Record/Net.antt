-- ===== src/Record/Net.antt =====
-- What a list of wrapped records amounts to: how often each record is inserted, less how often it
-- is erased. This is the abstract value that flushes and merges have to keep.
use mathlib.Core.Path.{ap₂}
use mathlib.Core.Logic.{∥∥₁_elim}
use mathlib.Core.List.{Perm, Permᴰ}
use native.Mathlib.Nat.{ℕ_set}
use dynamic_extension.Base.{
  ℕ, ◌+◌, ◌≡◌, refl, sym, ap, ◌∙◌, Bool, not, ◌&&◌, List, [], ◌∷◌, ◌++◌, arith, if◌then◌else◌,
  length,
}
use dynamic_extension.Record.{Record, Wrapped, rec_eq, is_tombstone, is_deleted}

abbrev pub bit : Bool → ℕ
bit b = if b then 1 else 0

abbrev pub insert_of : Record → Wrapped → ℕ
insert_of r w = bit (rec_eq w.rec r && not (is_tombstone w))

abbrev pub erasure_of : Record → Wrapped → ℕ
erasure_of r w = bit (rec_eq w.rec r && is_tombstone w)

abbrev pub tombstone_of : Wrapped → ℕ
tombstone_of w = bit (is_tombstone w)

abbrev pub tagged_of : Wrapped → ℕ
tagged_of w = bit (is_deleted w)

unfoldable pub sum_by : (Wrapped → ℕ) → List Wrapped → ℕ
sum_by f [] = 0
sum_by f (w ∷ ws) = f w + sum_by f ws

-- The number of insertions, and of tombstones, of `r`.
abbrev pub inserts : Record → List Wrapped → ℕ
inserts r = sum_by (insert_of r)

abbrev pub erasures : Record → List Wrapped → ℕ
erasures r = sum_by (erasure_of r)

-- The number of tombstones, and of records with the delete tag.
abbrev pub tombstones : List Wrapped → ℕ
tombstones = sum_by tombstone_of

abbrev pub tagged : List Wrapped → ℕ
tagged = sum_by tagged_of

-- Two lists insert each record as often as the other, once the erasures are taken off.
abbrev pub SameNet : List Wrapped → List Wrapped → Type 0
SameNet xs ys = (r : Record) → inserts r xs + erasures r ys ≡ inserts r ys + erasures r xs

pub sum_by-append :
    (f : Wrapped → ℕ) (xs ys : List Wrapped) → sum_by f (xs ++ ys) ≡ sum_by f xs + sum_by f ys
unfolding sum_by
sum_by-append f [] ys = omega arith
sum_by-append f (x ∷ xs) ys = omega (arith, sum_by-append f xs ys)

pub length-sum_by : (ws : List Wrapped) → sum_by (λ _. 1) ws ≡ length ws
unfolding sum_by
length-sum_by [] = refl
length-sum_by (w ∷ ws) = omega (arith, length-sum_by ws)

sum_by-Permᴰ : {xs ys : List Wrapped} (f : Wrapped → ℕ) → Permᴰ xs ys → sum_by f xs ≡ sum_by f ys
unfolding sum_by
sum_by-Permᴰ f Permᴰ.nil = refl
sum_by-Permᴰ f (Permᴰ.cons e p) = omega (arith, ap f e, sum_by-Permᴰ f p)
sum_by-Permᴰ f (Permᴰ.swap e e') = omega (arith, ap f e, ap f e')
sum_by-Permᴰ f (Permᴰ.trans p q) = sum_by-Permᴰ f p ∙ sum_by-Permᴰ f q

pub sum_by-Perm : (f : Wrapped → ℕ) (xs ys : List Wrapped) → Perm xs ys → sum_by f xs ≡ sum_by f ys
sum_by-Perm f xs ys p = ∥∥₁_elim p (ℕ_set _ _) (sum_by-Permᴰ f)

pub SameNet-append :
    (xs ys us vs : List Wrapped) → SameNet xs ys → SameNet us vs → SameNet (xs ++ us) (ys ++ vs)
SameNet-append xs ys us vs h k r = omega (
  arith,
  h r,
  k r,
  sum_by-append (insert_of r) xs us,
  sum_by-append (insert_of r) ys vs,
  sum_by-append (erasure_of r) xs us,
  sum_by-append (erasure_of r) ys vs,
)

pub SameNet-trans : (xs ys zs : List Wrapped) → SameNet xs ys → SameNet ys zs → SameNet xs zs
SameNet-trans xs ys zs h k r = omega (arith, h r, k r)

-- Reordering keeps the net content.
pub SameNet-Perm : (xs ys : List Wrapped) → Perm xs ys → SameNet xs ys
SameNet-Perm xs ys p r =
    ap₂ ◌+◌ (sum_by-Perm (insert_of r) xs ys p) (sym (sum_by-Perm (erasure_of r) xs ys p))
