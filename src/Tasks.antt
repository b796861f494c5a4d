-- ===== src/Tasks.antt =====
-- include/util/types.h: reconstruction tasks and the vector that collects them.
pub mod Totals
use dynamic_extension.Base.{
  ℕ, zero, suc, ◌+◌, Bool, true, false, Option, none, some, List, [], ◌∷◌, ◌++◌, ltb, if◌then◌else◌,
  length, get_elem?, get_or,
}
use dynamic_extension.Base.Words.{add64, sub64}

pub record ReconstructionTask : Type 0 where
  pub sources : List ℕ
  pub target : ℕ
  pub reccnt : ℕ

unfoldable pub add_source : ReconstructionTask → ℕ → ℕ → ReconstructionTask
add_source t source cnt = record t {
  sources = t.sources ++ source ∷ [];
  reccnt = add64 t.reccnt cnt;
}

pub record ReconstructionVector : Type 0 where
  pub tasks : List ReconstructionTask
  pub total_reccnt : ℕ

abbrev pub no_tasks : ReconstructionVector
no_tasks = record { tasks = []; total_reccnt = 0 }

unfoldable pub add_reconstruction : ReconstructionVector → ℕ → ℕ → ℕ → ReconstructionVector
add_reconstruction v source target reccnt = record {
  tasks = v.tasks ++ (record { sources = source ∷ []; target = target; reccnt = reccnt }) ∷ [];
  total_reccnt = add64 v.total_reccnt reccnt;
}

-- The overload that takes a task.
unfoldable pub add_task : ReconstructionVector → ReconstructionTask → ReconstructionVector
add_task v t = record v { tasks = v.tasks ++ t ∷ [] }

abbrev pub erase_at : List ReconstructionTask → ℕ → List ReconstructionTask
erase_at [] i = []
erase_at (t ∷ ts) zero = ts
erase_at (t ∷ ts) (suc i) = t ∷ erase_at ts i

-- `none` is the failed assertion.
unfoldable pub remove_reconstruction :
    ReconstructionVector → ℕ → Option (ReconstructionTask × ReconstructionVector)
remove_reconstruction v idx = elim (get_elem? v.tasks idx) [
  | none ↦ none
  | some t ↦
      some
        (t, record { tasks = erase_at v.tasks idx; total_reccnt = sub64 v.total_reccnt t.reccnt })
]

-- The loop that looks for the smallest task: the tasks from index `i` on.
unfoldable pub smallest_from : List ReconstructionTask → ℕ → ℕ → ℕ → ℕ
smallest_from [] i min_size idx = idx
smallest_from (t ∷ ts) i min_size idx =
    if ltb t.reccnt min_size
    then smallest_from ts (i + 1) t.reccnt i
    else smallest_from ts (i + 1) min_size idx

unfoldable pub smallest : List ReconstructionTask → ℕ
smallest [] = 0
smallest (t ∷ ts) = smallest_from ts 1 t.reccnt 0

-- `none` is the read of `m_tasks[0]` in an empty vector.
unfoldable pub remove_smallest_reconstruction :
    ReconstructionVector → Option (ReconstructionTask × ReconstructionVector)
remove_smallest_reconstruction v = remove_reconstruction v (smallest v.tasks)

unfoldable pub get_total_reccnt : ReconstructionVector → ℕ
get_total_reccnt v = v.total_reccnt

unfoldable pub size : ReconstructionVector → ℕ
size v = length v.tasks
