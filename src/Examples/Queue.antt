-- ===== src/Examples/Queue.antt =====
-- A list as an instance of what is asked of the priority queue, which is sorted as it is pushed to.
use mathlib.Core.List.{Perm}
use mathlib.Core.List.Perm
use dynamic_extension.Base.{
  ◌≡◌, refl, false, List, [], ◌∷◌, ◌<◌, arith, if◌then◌else◌, Bool-cases, inl, inr, length,
  get_elem?, some,
}
use dynamic_extension.Record.{Wrapped, wrapped_lt}
use dynamic_extension.Record.Order.{wrapped_lt-below, wrapped_lt_asym, wrapped_lt_irrefl}
use dynamic_extension.Merge.Queue.{QueueRecord, PriorityQueue, QueueLaws, NoneLess}

unfoldable pub insert_record : QueueRecord → List QueueRecord → List QueueRecord
insert_record e [] = e ∷ []
insert_record e (x ∷ xs) =
    if wrapped_lt x.data_at e.data_at then x ∷ insert_record e xs else e ∷ x ∷ xs

insert-Perm : (e : QueueRecord) (xs : List QueueRecord) → Perm (e ∷ xs) (insert_record e xs)
unfolding insert_record
insert-Perm e [] = Perm.refl _
insert-Perm e (x ∷ xs) = elim (Bool-cases (wrapped_lt x.data_at e.data_at)) [
  | inl t ↦ rw t (Perm.trans (Perm.swap x e xs) (Perm.cons x (insert-Perm e xs)))
  | inr t ↦ rw t (Perm.refl _)
]

-- No record is less than the first one.
abbrev pub IsQueue : List QueueRecord → Type 0
IsQueue [] = Unit
IsQueue (e ∷ es) = NoneLess e.data_at es × IsQueue es

NoneLess-trans :
    (v w : Wrapped) (es : List QueueRecord) → wrapped_lt w v ≡ false → NoneLess w es → NoneLess v es
NoneLess-trans v w [] h n = tt
NoneLess-trans v w (e ∷ es) h n =
    (wrapped_lt-below e.data_at w v n.0 h, NoneLess-trans v w es h n.1)

NoneLess-insert :
    (v : Wrapped) (e : QueueRecord) (xs : List QueueRecord)
    → wrapped_lt e.data_at v ≡ false
    → NoneLess v xs
    → NoneLess v (insert_record e xs)
unfolding insert_record
NoneLess-insert v e [] h n = (h, tt)
NoneLess-insert v e (x ∷ xs) h n = elim (Bool-cases (wrapped_lt x.data_at e.data_at)) [
  | inl t ↦ rw t (n.0, NoneLess-insert v e xs h n.1)
  | inr t ↦ rw t (h, n)
]

pub insert-IsQueue :
    (e : QueueRecord) (xs : List QueueRecord) → IsQueue xs → IsQueue (insert_record e xs)
unfolding insert_record
insert-IsQueue e [] q = (tt, tt)
insert-IsQueue e (x ∷ xs) q = elim (Bool-cases (wrapped_lt x.data_at e.data_at)) [
  | inl t ↦ rw t (
    NoneLess-insert x.data_at e xs (wrapped_lt_asym x.data_at e.data_at t) q.0,
    insert-IsQueue e xs q.1,
  )
  | inr t ↦ rw t ((t, NoneLess-trans e.data_at x.data_at xs t q.0), q)
]

-- The records in order.
pub record SortedQueue : Type 0 where
  pub items : List QueueRecord
  pub sorted : IsQueue items

unfoldable pub tail_of : List QueueRecord → List QueueRecord
tail_of [] = []
tail_of (e ∷ es) = es

pub tail-IsQueue : (es : List QueueRecord) → IsQueue es → IsQueue (tail_of es)
unfolding tail_of
tail-IsQueue [] q = tt
tail-IsQueue (e ∷ es) q = q.1

abbrev pub sorted_queue : PriorityQueue SortedQueue
sorted_queue = record {
  empty = record { items = []; sorted = tt };
  push =
      λ q e. record { items = insert_record e q.items; sorted = insert-IsQueue e q.items q.sorted };
  pop = λ q. record { items = tail_of q.items; sorted = tail-IsQueue q.items q.sorted };
  peek = λ q i. get_elem? q.items i;
  size = λ q. length q.items;
}

unfoldable first_of : (es : List QueueRecord) → 0 < length es → QueueRecord
first_of [] h = absurd (omega arith)
first_of (e ∷ es) h = e

peek-first : (es : List QueueRecord) (h : 0 < length es) → get_elem? es 0 ≡ some (first_of es h)
unfolding first_of
peek-first [] h = absurd (omega arith)
peek-first (e ∷ es) h = refl

pop-Perm : (es : List QueueRecord) (h : 0 < length es) → Perm es (first_of es h ∷ tail_of es)
unfolding first_of tail_of
pop-Perm [] h = absurd (omega arith)
pop-Perm (e ∷ es) h = Perm.refl _

first-NoneLess :
    (es : List QueueRecord) (h : 0 < length es) → IsQueue es → NoneLess (first_of es h).data_at es
unfolding first_of
first-NoneLess [] h q = absurd (omega arith)
first-NoneLess (e ∷ es) h q = (wrapped_lt_irrefl e.data_at, q.0)

peek-second : (es : List QueueRecord) → get_elem? es 1 ≡ get_elem? (tail_of es) 0
unfolding tail_of
peek-second [] = refl
peek-second (e ∷ es) = refl

pub sorted_queue-QueueLaws : QueueLaws sorted_queue
sorted_queue-QueueLaws = record {
  entries = λ q. q.items;
  entries-empty = refl;
  size_lem = λ q. refl;
  entries-push = λ q e. insert-Perm e q.items;
  first = λ q h. first_of q.items h;
  peek_lem = λ q h. peek-first q.items h;
  entries-pop = λ q h. pop-Perm q.items h;
  first_least = λ q h. first-NoneLess q.items h q.sorted;
  peek-next = λ q h. peek-second q.items;
}
