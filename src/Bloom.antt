-- ===== src/Bloom.antt =====
-- psudb::BloomFilter, which stands in a git submodule: what the code uses of it.
use dynamic_extension.Base.{◌≡◌, Bool, true, false, ◌||◌, List, [], ◌∷◌, arith}
use dynamic_extension.Record.{Record, rec_eq}
use dynamic_extension.Record.Order.{rec_eq_iff}

pub record Bloom (F : Type 0) : Type 0 where
  pub empty : F
  pub insert : F → Record → F
  pub lookup : F → Record → Bool
  -- A filter has no false negatives. (False positives are allowed.)
  pub lookup-insert_self : (f : F) (r : Record) → lookup (insert f r) r ≡ true
  pub lookup-insert : (f : F) (r s : Record) → lookup f r ≡ true → lookup (insert f s) r ≡ true

member : List Record → Record → Bool
member [] r = false
member (x ∷ xs) r = rec_eq x r || member xs r

-- A filter that is exact, which meets the laws.
member-self : (f : List Record) (r : Record) → member (r ∷ f) r ≡ true
unfolding member
member-self f r = ground (arith, rec_eq_iff r r)

member-keeps : (f : List Record) (r s : Record) → member f r ≡ true → member (s ∷ f) r ≡ true
unfolding member
member-keeps f r s h = ground arith

unfoldable pub exact : Bloom (List Record)
unfolding member member-self member-keeps
exact = record {
  empty = [];
  insert = λ f r. r ∷ f;
  lookup = member;
  lookup-insert_self = member-self;
  lookup-insert = member-keeps;
}
