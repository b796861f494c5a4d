-- ===== src/Level/Slots.antt =====
-- The slots of a level (InternalLevel.h) and the records in them.
use dynamic_extension.Base.{
  ℕ, zero, suc, ◌<◌, ◌≡◌, refl, sym, ap, Option, none, some, List, [], ◌∷◌, ◌++◌, arith, length,
  get_or, set, replicate, append-nil, append_assoc,
}
use dynamic_extension.Record.{Wrapped}
use dynamic_extension.Merge.Scan.{Untagged}
use dynamic_extension.Shard.{all_records}
use dynamic_extension.Level.{present, copy_slots}

-- The first `n` slots hold a shard, the others none.
abbrev pub Filled : {S : Type 0} → ℕ → List (Option S) → Type 0
Filled zero [] = Unit
Filled zero (none ∷ ss) = Filled zero ss
Filled zero (some s ∷ ss) = ⊥
Filled (suc n) [] = ⊥
Filled (suc n) (none ∷ ss) = ⊥
Filled (suc n) (some s ∷ ss) = Filled n ss

pub Untagged-append : (xs ys : List Wrapped) → Untagged xs → Untagged ys → Untagged (xs ++ ys)
Untagged-append [] ys h k = k
Untagged-append (x ∷ xs) ys h k = (h.0, Untagged-append xs ys h.1 k)

module _ {S : Type 0} (c : S → List Wrapped) where
  pub all_records-present : (ss : List (Option S)) → all_records c (present ss) ≡ all_records c ss
  unfolding all_records present
  all_records-present [] = refl
  all_records-present (none ∷ ss) = all_records-present ss
  all_records-present (some s ∷ ss) = ap (λ t. c s ++ t) (all_records-present ss)

  pub all_records-none : (ss : List (Option S)) → Filled 0 ss → all_records c ss ≡ []
  unfolding all_records
  all_records-none [] h = refl
  all_records-none (none ∷ ss) h = all_records-none ss h
  all_records-none (some s ∷ ss) h = absurd h

  pub all_records-set :
      (n : ℕ) (ss : List (Option S)) (s : S)
      → Filled n ss
      → n < length ss
      → (all_records c (set ss n (some s)) ≡ all_records c ss ++ c s)
        × Filled (suc n) (set ss n (some s))
  unfolding all_records
  all_records-set n [] s h p = absurd (omega arith)
  all_records-set zero (none ∷ ss) s h p = (rw (all_records-none ss h) (append-nil (c s)), h)
  all_records-set zero (some t ∷ ss) s h p = absurd h
  all_records-set (suc n) (none ∷ ss) s h p = absurd h
  all_records-set (suc n) (some t ∷ ss) s h p =
      let rest = all_records-set n ss s h (omega arith) in
      (rw rest.0 (sym (append_assoc (c t) (all_records c ss) (c s))), rest.1)

  pub Filled-replicate : (n : ℕ) → Filled {S = S} 0 (replicate n none)
  Filled-replicate zero = tt
  Filled-replicate (suc n) = Filled-replicate n

  copy_slots-Filled : (n : ℕ) (ss : List (Option S)) → Filled n ss → copy_slots ss n ≡ ss
  unfolding copy_slots
  copy_slots-Filled zero [] h = refl
  copy_slots-Filled zero (none ∷ ss) h = ap (λ t. none ∷ t) (copy_slots-Filled zero ss h)
  copy_slots-Filled zero (some s ∷ ss) h = absurd h
  copy_slots-Filled (suc n) [] h = absurd h
  copy_slots-Filled (suc n) (none ∷ ss) h = absurd h
  copy_slots-Filled (suc n) (some s ∷ ss) h = ap (λ t. some s ∷ t) (copy_slots-Filled n ss h)

module _ {S : Type 0} (c : S → List Wrapped) where
  pub one_slot :
      (ss rest : List (Option S))
      → length ss ≡ 1
      → all_records c (get_or ss 0 none ∷ rest) ≡ all_records c ss ++ all_records c rest
  unfolding all_records
  one_slot [] rest h = absurd (omega arith)
  one_slot (none ∷ []) rest h = refl
  one_slot (some s ∷ []) rest h = ap (λ t. t ++ all_records c rest) (sym (append-nil (c s)))
  one_slot (x ∷ y ∷ ss) rest h = absurd (omega arith)
