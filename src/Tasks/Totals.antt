-- ===== src/Tasks/Totals.antt =====
-- The running total of a reconstruction vector (types.h).
use dynamic_extension.Base.{
  ℕ, zero, suc, ◌+◌, ◌<◌, ◌≡◌, ◌↔◌, some, List, [], ◌∷◌, ◌++◌, arith, get_elem?, Option-cases, inl,
  inr,
}
use dynamic_extension.Base.Words.{size_mod}
use dynamic_extension.Tasks.{
  ReconstructionTask, ReconstructionVector, add_reconstruction, add_task, erase_at,
  remove_reconstruction,
}

unfoldable pub sum_reccnt : List ReconstructionTask → ℕ
sum_reccnt [] = 0
sum_reccnt (t ∷ ts) = t.reccnt + sum_reccnt ts

-- The total is the sum over the tasks, and fits the word.
pub record IsTotalled (v : ReconstructionVector) : Type 0 where
  pub total : v.total_reccnt ≡ sum_reccnt v.tasks
  pub small : v.total_reccnt < size_mod

sum_reccnt-append :
    (ts us : List ReconstructionTask) → sum_reccnt (ts ++ us) ≡ sum_reccnt ts + sum_reccnt us
unfolding sum_reccnt
sum_reccnt-append [] us = omega arith
sum_reccnt-append (t ∷ ts) us = omega (arith, sum_reccnt-append ts us)

sum_reccnt-erase_at :
    (ts : List ReconstructionTask) (i : ℕ) (t : ReconstructionTask)
    → get_elem? ts i ≡ some t
    → sum_reccnt ts ≡ t.reccnt + sum_reccnt (erase_at ts i)
unfolding sum_reccnt
sum_reccnt-erase_at [] i t h = cc
sum_reccnt-erase_at (x ∷ ts) zero t h = ground arith
sum_reccnt-erase_at (x ∷ ts) (suc i) t h = omega (arith, sum_reccnt-erase_at ts i t h)

-- Adding a task by its parts keeps the total right, unless the sum leaves the word.
pub add_reconstruction-IsTotalled :
    (v : ReconstructionVector) (source target reccnt : ℕ)
    → v.total_reccnt + reccnt < size_mod
    → IsTotalled v
    → IsTotalled (add_reconstruction v source target reccnt)
unfolding add_reconstruction sum_reccnt
add_reconstruction-IsTotalled v source target reccnt small h = record {
  total = omega (
    arith,
    h.total,
    sum_reccnt-append v.tasks
        (record { sources = source ∷ []; target = target; reccnt = reccnt } ∷ []),
  );
  small = omega arith;
}

-- Taking a task out keeps the total right, and hands out the task at that index.
pub remove_reconstruction-IsTotalled :
    (v v' : ReconstructionVector) (idx : ℕ) (t : ReconstructionTask)
    → IsTotalled v
    → remove_reconstruction v idx ≡ some (t, v')
    → (get_elem? v.tasks idx ≡ some t) × IsTotalled v'
unfolding remove_reconstruction
remove_reconstruction-IsTotalled v v' idx t h e = elim (Option-cases (get_elem? v.tasks idx)) [
  | inl none_there ↦ ground arith
  | inr (t', there) ↦
      let sum = sum_reccnt-erase_at v.tasks idx t' there in
      (
        ground arith,
        record {
          total = ground (arith, h.total, h.small, sum);
          small = ground (arith, h.total, h.small, sum);
        },
      )
]

-- The overload that takes a whole task forgets its count: the total is right afterwards if and
-- only if the task counts no record.
pub add_task-total :
    (v : ReconstructionVector) (t : ReconstructionTask)
    → IsTotalled v
    → ((add_task v t).total_reccnt ≡ sum_reccnt (add_task v t).tasks) ↔ (t.reccnt ≡ 0)
unfolding add_task sum_reccnt
add_task-total v t h = (
  λ e. omega (arith, h.total, sum_reccnt-append v.tasks (t ∷ [])),
  λ e. omega (arith, h.total, sum_reccnt-append v.tasks (t ∷ [])),
)
