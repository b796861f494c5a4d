-- ===== src/Scheduler.antt =====
-- include/framework/scheduling: the tasks of Task.h and the queue of FIFOScheduler.h, with its two
-- threads as steps. A job and its arguments are a number. psudb::LockedPriorityQueue and the thread
-- pool of ctpl are submodules: the queue is an interface with laws, the pool the list of the tasks
-- that it was given.
pub mod Fifo
use mathlib.Core.Option
use mathlib.Core.List.{Perm, Mem}
use dynamic_extension.Base.{
  ℕ, ◌+◌, ◌%◌, ◌≤◌, ◌<◌, ◌≡◌, Bool, false, ltb, ◌&&◌, Option, none, some, List, [], ◌∷◌, ◌++◌,
  if◌then◌else◌,
}
use dynamic_extension.Base.Words.{size_mod}

pub record Task : Type 0 where
  pub job : ℕ
  pub timestamp : ℕ
  pub type : ℕ

-- `operator<`
unfoldable pub task_lt : Task → Task → Bool
task_lt self other = ltb self.timestamp other.timestamp

-- psudb::LockedPriorityQueue<Task>. `pop` is `none` on an empty queue.
pub record TaskQueue (Q : Type 0) : Type 0 where
  pub empty : Q
  pub push : Q → Task → Q
  pub pop : Q → Option (Task × Q)
  pub size : Q → ℕ

-- The queue holds what was pushed, and gives a task that no other one is less than.
pub record TaskQueueLaws {Q : Type 0} (P : TaskQueue Q) : Type 0 where
  pub entries : Q → List Task
  pub entries-empty : entries P.empty ≡ []
  pub entries-push : (q : Q) (t : Task) → Perm (entries (P.push q t)) (t ∷ entries q)
  pub entries-pop :
      (q q' : Q) (t : Task) → P.pop q ≡ some (t, q') → Perm (entries q) (t ∷ entries q')
  pub pop-least :
      (q q' : Q) (t u : Task) → P.pop q ≡ some (t, q') → Mem u (entries q) → task_lt u t ≡ false

-- `thrd_pool` is what the pool was given, in order.
pub record FifoScheduler (Q : Type 0) : Type 0 where
  pub task_queue : Q
  pub counter : ℕ
  pub thrd_pool : List Task

module _ {Q : Type 0} (P : TaskQueue Q) where
  -- The counter starts at any value; std::atomic starts it at 0.
  unfoldable pub make_scheduler : ℕ → FifoScheduler Q
  make_scheduler counter = record { task_queue = P.empty; counter = counter; thrd_pool = [] }

  unfoldable pub schedule_job : FifoScheduler Q → ℕ → ℕ → FifoScheduler Q
  schedule_job s job type = record s {
    task_queue = P.push s.task_queue (record { job = job; timestamp = s.counter; type = type });
    counter = (s.counter + 1) % size_mod;
  }

  -- `none` is the failed assertion.
  unfoldable pub schedule_next : FifoScheduler Q → Option (FifoScheduler Q)
  schedule_next s =
      if ltb 0 (P.size s.task_queue)
      then Option.map (λ (t, q). record s { task_queue = q; thrd_pool = s.thrd_pool ++ t ∷ [] })
          (P.pop s.task_queue)
      else none

  -- The inner loop of `run`, by the numbers of idle threads that it reads. Where they end, the rest
  -- of the rounds is left to a later call.
  unfoldable pub run : List ℕ → FifoScheduler Q → Option (FifoScheduler Q)
  run [] s = some s
  run (n_idle ∷ later) s =
      let more = Option.bind (schedule_next s) (run later) in
      if ltb 0 (P.size s.task_queue) && ltb 0 n_idle then more else some s

  -- What the threads do, with the jobs that were scheduled. Each holds the lock meanwhile.
  pub data Reach (counter : ℕ) : List ℕ → FifoScheduler Q → Type 0 where
    start : Reach counter [] (make_scheduler counter)
    schedules :
        {jobs : List ℕ} {s : FifoScheduler Q} (job type : ℕ)
        → Reach counter jobs s
        → Reach counter (jobs ++ job ∷ []) (schedule_job s job type)
    runs :
        {jobs : List ℕ} {s s' : FifoScheduler Q} (n_idle : List ℕ)
        → Reach counter jobs s
        → run n_idle s ≡ some s'
        → Reach counter jobs s'
