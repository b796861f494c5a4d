-- ===== src/Scheduler/Fifo.antt =====
-- The order in which FIFOScheduler.h hands its jobs to the thread pool.
use mathlib.Core.Option
use mathlib.Core.Option.{some_inj}
use mathlib.Core.List.{
  Perm, Mem, forall_mem-cons, mem_of_ne_of_mem, mem-cons_self, map-append, not-mem-nil,
}
use mathlib.Core.List.Perm
use native.Mathlib.Bridge.{le_prop}
use native.Mathlib.Decide.{ℕ_discrete}
use dynamic_extension.Base.{
  ℕ, suc, ◌+◌, ◌≤◌, ◌<◌, ◌≡◌, refl, sym, ap, subst, ◌∙◌, ltb, ◌&&◌, some, List, [], ◌∷◌, ◌++◌, map,
  arith, length, length-append, append_assoc, Bool-cases, Option-cases, inl, inr,
}
use dynamic_extension.Base.Words.{size_mod}
use dynamic_extension.Scheduler.{
  Task, task_lt, TaskQueue, TaskQueueLaws, FifoScheduler, make_scheduler, schedule_job,
  schedule_next, run, Reach,
}

abbrev pub jobs_of : List Task → List ℕ
jobs_of = map (λ t. t.job)

-- The timestamps are consecutive from `k` on.
abbrev pub Numbered : ℕ → List Task → Type 0
Numbered k [] = Unit
Numbered k (t ∷ ts) = (t.timestamp ≡ k) × Numbered (suc k) ts

Numbered-snoc :
    (k : ℕ) (ts : List Task) (t : Task)
    → Numbered k ts
    → t.timestamp ≡ k + length ts
    → Numbered k (ts ++ t ∷ [])
Numbered-snoc k [] t n e = (omega arith, tt)
Numbered-snoc k (u ∷ ts) t n e = (n.0, Numbered-snoc (suc k) ts t n.1 (omega arith))

Numbered-above : (k : ℕ) (ts : List Task) → Numbered k ts → (t : Task) → Mem t ts → k ≤ t.timestamp
Numbered-above k [] n t m = absurd (not-mem-nil m)
Numbered-above k (u ∷ ts) n t m =
    (forall_mem-cons {p = λ t. k ≤ t.timestamp} (λ t. le_prop)).1
      (omega arith, λ t m. omega (arith, Numbered-above (suc k) ts n.1 t m)) t m

Task-discrete : Discrete Task
Task-discrete = hlevel (ℕ_discrete)

snoc_perm : (t : Task) (ts : List Task) → Perm (t ∷ ts) (ts ++ t ∷ [])
snoc_perm t [] = Perm.refl _
snoc_perm t (u ∷ ts) = Perm.trans (Perm.swap u t ts) (Perm.cons u (snoc_perm t ts))

module _ {Q : Type 0} (P : TaskQueue Q) (L : TaskQueueLaws P) where
  -- The pool was given the first jobs in order, and the queue holds the others, numbered in order.
  record InOrder (counter : ℕ) (jobs : List ℕ) (s : FifoScheduler Q) : Type 0 where
    pub waiting : List Task
    pub given : Numbered counter s.thrd_pool
    pub numbered : Numbered (counter + length s.thrd_pool) waiting
    pub next_lem : s.counter ≡ counter + length s.thrd_pool + length waiting
    pub queued : Perm (L.entries s.task_queue) waiting
    pub all_lem : jobs ≡ jobs_of s.thrd_pool ++ jobs_of waiting

  -- A pop gives the first of the waiting tasks.
  pop-first :
      (k : ℕ) (q q' : Q) (t u : Task) (ts : List Task)
      → Numbered k (u ∷ ts)
      → Perm (L.entries q) (u ∷ ts)
      → P.pop q ≡ some (t, q')
      → (t ≡ u) × Perm (L.entries q') ts
  unfolding task_lt
  pop-first k q q' t u ts n p e =
      let m = (Perm.mem_iff p).0 ((Perm.mem_iff (L.entries-pop q q' t e)).1 (mem-cons_self)) in
      let least = L.pop-least q q' t u e ((Perm.mem_iff p).1 (mem-cons_self)) in
      elim (Task-discrete t u) [
        | yes same ↦ (
          same,
          Perm.cons_inv (
              subst (λ x. Perm (x ∷ L.entries q') (u ∷ ts)) same
                (Perm.trans (Perm.symm (L.entries-pop q q' t e)) p)),
        )
        | no other ↦
            let above = Numbered-above (suc k) ts n.1 t (mem_of_ne_of_mem other m) in
            absurd (ground (arith, least, above, n.0))
      ]

  schedule_job-InOrder :
      (counter : ℕ) (jobs : List ℕ) (s : FifoScheduler Q) (job type : ℕ)
      → s.counter + 1 < size_mod
      → InOrder counter jobs s
      → InOrder counter (jobs ++ job ∷ []) (schedule_job P s job type)
  unfolding schedule_job
  schedule_job-InOrder counter jobs s job type l i =
      let t : Task = record { job = job; timestamp = s.counter; type = type } in
      record {
        waiting = i.waiting ++ t ∷ [];
        given = i.given;
        numbered = Numbered-snoc (counter + length s.thrd_pool) i.waiting t i.numbered i.next_lem;
        next_lem = omega (arith, i.next_lem, length-append i.waiting (t ∷ []));
        queued =
            Perm.trans (L.entries-push s.task_queue t)
              (Perm.trans (Perm.cons t i.queued) (snoc_perm t i.waiting));
        all_lem =
            ap (λ js. js ++ job ∷ []) i.all_lem
            ∙ append_assoc (jobs_of s.thrd_pool) (jobs_of i.waiting) (job ∷ [])
            ∙ ap (λ js. jobs_of s.thrd_pool ++ js)
                (sym (map-append (λ t. t.job) i.waiting (t ∷ [])));
      }

  none_waits : (q q' : Q) (t : Task) → P.pop q ≡ some (t, q') → Perm (L.entries q) [] → ⊥
  none_waits q q' t e p =
      not-mem-nil ((Perm.mem_iff p).0 ((Perm.mem_iff (L.entries-pop q q' t e)).1 mem-cons_self))

  -- The first waiting task goes to the pool.
  hand_over :
      (counter : ℕ) (jobs : List ℕ) (s : FifoScheduler Q) (q' : Q) (t : Task) (waiting : List Task)
      → P.pop s.task_queue ≡ some (t, q')
      → Numbered counter s.thrd_pool
      → Numbered (counter + length s.thrd_pool) waiting
      → s.counter ≡ counter + length s.thrd_pool + length waiting
      → Perm (L.entries s.task_queue) waiting
      → jobs ≡ jobs_of s.thrd_pool ++ jobs_of waiting
      → InOrder counter jobs (record s { task_queue = q'; thrd_pool = s.thrd_pool ++ t ∷ [] })
  hand_over counter jobs s q' t [] e g n c p a = absurd (none_waits s.task_queue q' t e p)
  hand_over counter jobs s q' t (u ∷ ts) e g n c p a =
      let (same, rest) = pop-first (counter + length s.thrd_pool) s.task_queue q' t u ts n p e in
      let len = length-append s.thrd_pool (t ∷ []) in
      let stamp = ap (λ (x : Task). x.timestamp) same in
      record {
        waiting = ts;
        given = Numbered-snoc counter s.thrd_pool t g (omega (arith, stamp, n.0));
        numbered = subst (λ k. Numbered k ts) (omega (arith, len)) n.1;
        next_lem = omega (arith, len);
        queued = rest;
        all_lem =
            a
            ∙ ap (λ (x : Task). jobs_of s.thrd_pool ++ x.job ∷ jobs_of ts) (sym same)
            ∙ sym (append_assoc (jobs_of s.thrd_pool) (t.job ∷ []) (jobs_of ts))
            ∙ ap (λ js. js ++ jobs_of ts) (sym (map-append (λ t. t.job) s.thrd_pool (t ∷ [])));
      }

  schedule_next-InOrder :
      (counter : ℕ) (jobs : List ℕ) (s s' : FifoScheduler Q)
      → schedule_next P s ≡ some s'
      → InOrder counter jobs s
      → InOrder counter jobs s'
  unfolding schedule_next
  schedule_next-InOrder counter jobs s s' e i = elim (Bool-cases (ltb 0 (P.size s.task_queue))) [
    | inr t ↦ absurd (ground arith)
    | inl t ↦ elim (Option-cases (P.pop s.task_queue)) [
      | inl x ↦ absurd (ground arith)
      | inr (r, x) ↦ subst (InOrder counter jobs) (some_inj.0 (rw (t, x) at e)) (
          hand_over counter jobs s r.1 r.0 i.waiting x i.given i.numbered i.next_lem i.queued
            i.all_lem)
    ]
  ]

  run-InOrder :
      (n_idle : List ℕ) (counter : ℕ) (jobs : List ℕ) (s s' : FifoScheduler Q)
      → run P n_idle s ≡ some s'
      → InOrder counter jobs s
      → InOrder counter jobs s'
  unfolding run Option.bind
  run-InOrder [] counter jobs s s' e i = subst (InOrder counter jobs) (some_inj.0 e) i
  run-InOrder (n ∷ later) counter jobs s s' e i =
      elim (Bool-cases (ltb 0 (P.size s.task_queue) && ltb 0 n)) [
        | inr t ↦ subst (InOrder counter jobs) (some_inj.0 (rw t at e)) i
        | inl t ↦ elim (Option-cases (schedule_next P s)) [
          | inl x ↦ absurd (ground (arith, x))
          | inr (s1, x) ↦
              run-InOrder later counter jobs s1 s' (rw (t, x) at e)
                (schedule_next-InOrder counter jobs s s1 x i)
        ]
      ]

  length-jobs_of : (ts : List Task) → length (jobs_of ts) ≡ length ts
  length-jobs_of [] = refl
  length-jobs_of (t ∷ ts) = ap suc (length-jobs_of ts)

  count_jobs :
      (counter : ℕ) (jobs : List ℕ) (s : FifoScheduler Q)
      → InOrder counter jobs s
      → s.counter ≡ counter + length jobs
  count_jobs counter jobs s i = omega (
    arith,
    i.next_lem,
    ap length i.all_lem,
    length-append (jobs_of s.thrd_pool) (jobs_of i.waiting),
    length-jobs_of s.thrd_pool,
    length-jobs_of i.waiting,
  )

  Reach-InOrder :
      (counter : ℕ) (jobs : List ℕ) (s : FifoScheduler Q)
      → Reach P counter jobs s
      → counter + length jobs < size_mod
      → InOrder counter jobs s
  unfolding make_scheduler
  Reach-InOrder counter jobs s Reach.start h = record {
    waiting = [];
    given = tt;
    numbered = tt;
    next_lem = omega arith;
    queued = subst (λ es. Perm es []) (sym L.entries-empty) (Perm.refl _);
    all_lem = refl;
  }
  Reach-InOrder counter jobs s (Reach.schedules {jobs = before} {s = s0} job type r) h =
      let len = length-append before (job ∷ []) in
      let i = Reach-InOrder counter before s0 r (omega (arith, len)) in
      schedule_job-InOrder counter before s0 job type
        (omega (arith, count_jobs counter before s0 i, len)) i
  Reach-InOrder counter jobs s (Reach.runs {s = s0} n_idle r e) h =
      run-InOrder n_idle counter jobs s0 s e (Reach-InOrder counter jobs s0 r h)

  -- In every interleaving of threads that schedule jobs with the thread that hands them to the pool,
  -- as long as the counter does not wrap, the pool was given the first of the scheduled jobs, each
  -- once and in the order of scheduling, and the queue holds exactly the others.
  pub Reach-fifo :
      (counter : ℕ) (jobs : List ℕ) (s : FifoScheduler Q)
      → Reach P counter jobs s
      → counter + length jobs < size_mod
      → (waiting : List Task) × (jobs ≡ jobs_of s.thrd_pool ++ jobs_of waiting)
        × Perm (L.entries s.task_queue) waiting
  Reach-fifo counter jobs s r h =
      let i = Reach-InOrder counter jobs s r h in (i.waiting, i.all_lem, i.queued)
