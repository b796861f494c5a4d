-- ===== src/Examples/Sort.antt =====
-- An insertion sort of wrapped records, as an instance of what is asked of std::sort.
use mathlib.Core.List.{Perm}
use mathlib.Core.List.Perm
use dynamic_extension.Base.{
  ◌≡◌, true, false, List, [], ◌∷◌, arith, if◌then◌else◌, Bool-cases, inl, inr,
}
use dynamic_extension.Record.{Wrapped, wrapped_lt, rec_lt, rec_eq}
use dynamic_extension.Merge.Array.{All, IsOrdered}

unfoldable pub insert_sorted : Wrapped → List Wrapped → List Wrapped
insert_sorted w [] = w ∷ []
insert_sorted w (x ∷ xs) = if wrapped_lt x w then x ∷ insert_sorted w xs else w ∷ x ∷ xs

unfoldable pub sort : List Wrapped → List Wrapped
sort [] = []
sort (w ∷ ws) = insert_sorted w (sort ws)

insert_sorted-Perm : (w : Wrapped) (xs : List Wrapped) → Perm (w ∷ xs) (insert_sorted w xs)
unfolding insert_sorted
insert_sorted-Perm w [] = Perm.refl _
insert_sorted-Perm w (x ∷ xs) = elim (Bool-cases (wrapped_lt x w)) [
  | inl e ↦ rw e (Perm.trans (Perm.swap x w xs) (Perm.cons x (insert_sorted-Perm w xs)))
  | inr e ↦ rw e (Perm.refl _)
]

pub sort-Perm : (xs : List Wrapped) → Perm xs (sort xs)
unfolding sort
sort-Perm [] = Perm.refl _
sort-Perm (w ∷ ws) = Perm.trans (Perm.cons w (sort-Perm ws)) (insert_sorted-Perm w (sort ws))

not_lt_trans :
    (a b c : Wrapped) → wrapped_lt b a ≡ false → wrapped_lt c b ≡ false → wrapped_lt c a ≡ false
unfolding wrapped_lt rec_lt rec_eq
not_lt_trans a b c h k = ground arith

lt_asym : (a b : Wrapped) → wrapped_lt a b ≡ true → wrapped_lt b a ≡ false
unfolding wrapped_lt rec_lt rec_eq
lt_asym a b h = ground arith

All-not_lt :
    (a b : Wrapped) (xs : List Wrapped)
    → wrapped_lt b a ≡ false
    → All (λ v. wrapped_lt v b ≡ false) xs
    → All (λ v. wrapped_lt v a ≡ false) xs
All-not_lt a b [] h k = tt
All-not_lt a b (x ∷ xs) h k = (not_lt_trans a b x h k.0, All-not_lt a b xs h k.1)

All-insert :
    (a w : Wrapped) (xs : List Wrapped)
    → wrapped_lt w a ≡ false
    → All (λ v. wrapped_lt v a ≡ false) xs
    → All (λ v. wrapped_lt v a ≡ false) (insert_sorted w xs)
unfolding insert_sorted
All-insert a w [] h k = (h, tt)
All-insert a w (x ∷ xs) h k = elim (Bool-cases (wrapped_lt x w)) [
  | inl e ↦ rw e (k.0, All-insert a w xs h k.1)
  | inr e ↦ rw e (h, k)
]

insert-IsOrdered : (w : Wrapped) (xs : List Wrapped) → IsOrdered xs → IsOrdered (insert_sorted w xs)
unfolding insert_sorted
insert-IsOrdered w [] h = (tt, tt)
insert-IsOrdered w (x ∷ xs) h = elim (Bool-cases (wrapped_lt x w)) [
  | inl e ↦ rw e (All-insert x w xs (lt_asym x w e) h.0, insert-IsOrdered w xs h.1)
  | inr e ↦ rw e ((e, All-not_lt w x xs e h.0), h)
]

pub sort-IsOrdered : (xs : List Wrapped) → IsOrdered (sort xs)
unfolding sort
sort-IsOrdered [] = tt
sort-IsOrdered (w ∷ ws) = insert-IsOrdered w (sort ws) (sort-IsOrdered ws)
