-- ===== src/Merge/Queue.antt =====
-- psudb::PriorityQueue, which stands in a git submodule: what the merges use of it.
use mathlib.Core.List.{Perm}
use dynamic_extension.Base.{ℕ, ◌≡◌, ◌<◌, false, Option, some, List, [], ◌∷◌, length}
use dynamic_extension.Record.{Wrapped, wrapped_lt}

pub record QueueRecord : Type 0 where
  pub data_at : Wrapped
  pub version : ℕ

-- `peek q 1` is the record behind the first.
pub record PriorityQueue (Q : Type 0) : Type 0 where
  pub empty : Q
  pub push : Q → QueueRecord → Q
  pub pop : Q → Q
  pub peek : Q → ℕ → Option QueueRecord
  pub size : Q → ℕ

-- No record of the list is less than `w`.
abbrev pub NoneLess : Wrapped → List QueueRecord → Type 0
NoneLess w [] = Unit
NoneLess w (e ∷ es) = (wrapped_lt e.data_at w ≡ false) × NoneLess w es

-- A queue holds what was pushed and not popped. Its first record is one that no other is less than,
-- by the order on wrapped records, and a pop removes it.
pub record QueueLaws {Q : Type 0} (P : PriorityQueue Q) : Type 0 where
  pub entries : Q → List QueueRecord
  pub entries-empty : entries P.empty ≡ []
  pub size_lem : (q : Q) → P.size q ≡ length (entries q)
  pub entries-push : (q : Q) (e : QueueRecord) → Perm (e ∷ entries q) (entries (P.push q e))
  pub first : (q : Q) → 0 < P.size q → QueueRecord
  pub peek_lem : (q : Q) (h : 0 < P.size q) → P.peek q 0 ≡ some (first q h)
  pub entries-pop : (q : Q) (h : 0 < P.size q) → Perm (entries q) (first q h ∷ entries (P.pop q))
  pub first_least : (q : Q) (h : 0 < P.size q) → NoneLess (first q h).data_at (entries q)
  pub peek-next : (q : Q) → 1 < P.size q → P.peek q 1 ≡ P.peek (P.pop q) 0
