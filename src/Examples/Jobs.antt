-- ===== src/Examples/Jobs.antt =====
-- Jobs of the FIFO scheduler at concrete inputs.
use mathlib.Core.Option
use mathlib.Core.Option.{some_inj}
use mathlib.Core.List.{Perm, Mem, forall_mem-cons, not-mem-nil}
use mathlib.Core.List.Perm
use dynamic_extension.Base.{
  ◌≡◌, refl, sym, subst, true, false, Option, none, some, List, [], ◌∷◌, ◌++◌, arith, length,
  if◌then◌else◌, Bool-cases, inl, inr,
}
use dynamic_extension.Scheduler.{
  Task, task_lt, TaskQueue, TaskQueueLaws, FifoScheduler, make_scheduler, schedule_job,
  schedule_next, run, Reach,
}
use dynamic_extension.Scheduler.Fifo.{jobs_of, Reach-fifo}

-- The least task of a list that begins with `t`, and the others.
unfoldable extract : Task → List Task → Task × List Task
extract t [] = (t, [])
extract t (u ∷ ts) =
    let (least, rest) = extract u ts in if task_lt least t then (least, t ∷ rest) else (t, u ∷ ts)

extract-Perm : (t : Task) (ts : List Task) → Perm (t ∷ ts) ((extract t ts).0 ∷ (extract t ts).1)
unfolding extract
extract-Perm t [] = Perm.refl _
extract-Perm t (u ∷ ts) = elim (Bool-cases (task_lt (extract u ts).0 t)) [
  | inl e ↦
      rw e (
        Perm.trans (Perm.cons t (extract-Perm u ts))
          (Perm.swap (extract u ts).0 t (extract u ts).1))
  | inr e ↦ rw e (Perm.refl _)
]

abbrev NoneBefore : Task → List Task → Type 0
NoneBefore t [] = Unit
NoneBefore t (u ∷ us) = (task_lt u t ≡ false) × NoneBefore t us

NoneBefore-trans :
    (t u : Task) (us : List Task) → task_lt u t ≡ false → NoneBefore u us → NoneBefore t us
unfolding task_lt
NoneBefore-trans t u [] h n = tt
NoneBefore-trans t u (v ∷ us) h n = (ground arith, NoneBefore-trans t u us h n.1)

task_lt_asym : (t u : Task) → task_lt u t ≡ true → task_lt t u ≡ false
unfolding task_lt
task_lt_asym t u h = ground arith

task_lt_irrefl : (t : Task) → task_lt t t ≡ false
unfolding task_lt
task_lt_irrefl t = ground arith

extract_lt :
    (t u : Task) (ts : List Task)
    → task_lt (extract u ts).0 t ≡ true
    → (extract t (u ∷ ts)).0 ≡ (extract u ts).0
unfolding extract
extract_lt t u ts e = rw e refl

extract_ge :
    (t u : Task) (ts : List Task) → task_lt (extract u ts).0 t ≡ false → (extract t (u ∷ ts)).0 ≡ t
unfolding extract
extract_ge t u ts e = rw e refl

extract-least : (t : Task) (ts : List Task) → NoneBefore (extract t ts).0 (t ∷ ts)
unfolding extract
extract-least t [] = (task_lt_irrefl t, tt)
extract-least t (u ∷ ts) = elim (Bool-cases (task_lt (extract u ts).0 t)) [
  | inl e ↦
      subst (λ x. NoneBefore x (t ∷ u ∷ ts)) (sym (extract_lt t u ts e))
        (task_lt_asym t (extract u ts).0 e, extract-least u ts)
  | inr e ↦
      subst (λ x. NoneBefore x (t ∷ u ∷ ts)) (sym (extract_ge t u ts e))
        (task_lt_irrefl t, NoneBefore-trans t (extract u ts).0 (u ∷ ts) e (extract-least u ts))
]

NoneBefore-Mem :
    (t : Task) (us : List Task) → NoneBefore t us → (u : Task) → Mem u us → task_lt u t ≡ false
NoneBefore-Mem t [] n u m = absurd (not-mem-nil m)
NoneBefore-Mem t (v ∷ us) n u m =
    (forall_mem-cons {p = λ u. task_lt u t ≡ false} (λ u. hlevel)).1 (n.0, NoneBefore-Mem t us n.1)
      u m

unfoldable pop_least : List Task → Option (Task × List Task)
pop_least [] = none
pop_least (t ∷ ts) = some (extract t ts)

abbrev list_queue : TaskQueue (List Task)
list_queue = record { empty = []; push = λ q t. t ∷ q; pop = pop_least; size = λ q. length q }

pop_least-Perm : (q q' : List Task) (t : Task) → pop_least q ≡ some (t, q') → Perm q (t ∷ q')
unfolding pop_least
pop_least-Perm [] q' t e = absurd (ground arith)
pop_least-Perm (u ∷ q) q' t e =
    subst (λ r. Perm (u ∷ q) (r.0 ∷ r.1)) (some_inj.0 e) (extract-Perm u q)

pop_least-least :
    (q q' : List Task) (t u : Task) → pop_least q ≡ some (t, q') → Mem u q → task_lt u t ≡ false
unfolding pop_least
pop_least-least [] q' t u e m = absurd (ground arith)
pop_least-least (v ∷ q) q' t u e m =
    subst (λ r. task_lt u r.0 ≡ false) (some_inj.0 e)
      (NoneBefore-Mem (extract v q).0 (v ∷ q) (extract-least v q) u m)

list_queue-TaskQueueLaws : TaskQueueLaws list_queue
list_queue-TaskQueueLaws = record {
  entries = λ q. q;
  entries-empty = refl;
  entries-push = λ q t. Perm.refl _;
  entries-pop = pop_least-Perm;
  pop-least = pop_least-least;
}

-- Two jobs are scheduled, and one thread is idle.
abbrev both_queued : FifoScheduler (List Task)
both_queued =
    schedule_job list_queue (schedule_job list_queue (make_scheduler list_queue 40) 7 0) 9 0

abbrev first_job : Task
first_job = record { job = 7; timestamp = 40; type = 0 }

abbrev one_given : FifoScheduler (List Task)
one_given = record {
  task_queue = record { job = 9; timestamp = 41; type = 0 } ∷ [];
  counter = 42;
  thrd_pool = first_job ∷ [];
}

one_given-run : run list_queue (1 ∷ 0 ∷ []) both_queued ≡ some one_given
unfolding run schedule_next schedule_job make_scheduler pop_least extract task_lt Option.bind
one_given-run = refl

one_given-Reach : Reach list_queue 40 (7 ∷ 9 ∷ []) one_given
one_given-Reach =
    Reach.runs (1 ∷ 0 ∷ []) (Reach.schedules 9 0 (Reach.schedules 7 0 Reach.start)) one_given-run

Reach-fifo_example :
    (waiting : List Task) × (7 ∷ 9 ∷ [] ≡ jobs_of one_given.thrd_pool ++ jobs_of waiting)
    × Perm (list_queue-TaskQueueLaws.entries one_given.task_queue) waiting
Reach-fifo_example =
    Reach-fifo list_queue list_queue-TaskQueueLaws 40 (7 ∷ 9 ∷ []) one_given one_given-Reach
      (omega arith)
