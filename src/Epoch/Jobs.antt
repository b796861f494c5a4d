-- ===== src/Epoch/Jobs.antt =====
-- The jobs on the epochs (include/framework/DynamicExtension.h), interleaved with an advance.
use dynamic_extension.Base.{ℕ, ◌+◌, ◌<◌, ◌≡◌, ◌≢◌, some, List, [], ◌∷◌}
use dynamic_extension.Buffer.Clients.{count, erase}
use dynamic_extension.Epoch.{
  Epochs, first_epochs, get_active_epoch, end_job, create_new_epoch, retire_epoch, detach,
  store_previous, publish,
}

-- Where the one thread that advances the epoch is.
pub data Phase : Type 0 where
  idle retired detached stored : Phase

-- `jobs` has an entry for each job that runs, the epoch it took.
pub record System : Type 0 where
  pub epochs : Epochs
  pub jobs : List ℕ
  pub phase : Phase

pub data Step (s : System) (t : System) : Type 0 where
  enters :
      (e : ℕ)
      → get_active_epoch s.epochs ≡ some (e, t.epochs)
      → t.jobs ≡ e ∷ s.jobs
      → t.phase ≡ s.phase
      → Step s t
  leaves :
      (e : ℕ)
      → 0 < count e s.jobs
      → end_job e s.epochs ≡ some t.epochs
      → t.jobs ≡ erase e s.jobs
      → t.phase ≡ s.phase
      → Step s t
  creates :
      s.phase ≡ idle
      → create_new_epoch s.epochs ≡ some t.epochs
      → t.jobs ≡ s.jobs
      → t.phase ≡ idle
      → Step s t
  retires :
      s.phase ≡ idle
      → s.epochs.next.epoch ≢ 0
      → retire_epoch s.epochs ≡ some t.epochs
      → t.jobs ≡ s.jobs
      → t.phase ≡ retired
      → Step s t
  detaches :
      s.phase ≡ retired
      → detach s.epochs ≡ t.epochs
      → t.jobs ≡ s.jobs
      → t.phase ≡ detached
      → Step s t
  stores :
      s.phase ≡ detached
      → store_previous s.epochs ≡ t.epochs
      → t.jobs ≡ s.jobs
      → t.phase ≡ stored
      → Step s t
  publishes :
      s.phase ≡ stored → publish s.epochs ≡ t.epochs → t.jobs ≡ s.jobs → t.phase ≡ idle → Step s t

pub data Reach (s : System) : System → Type 0 where
  here : Reach s s
  next : {t u : System} → Reach s t → Step t u → Reach s u

abbrev pub first_system : System
first_system = record { epochs = first_epochs; jobs = []; phase = idle }

-- Every count is that of the jobs on the epoch, and no job is on another epoch.
pub record Counted (s : Epochs) (jobs : List ℕ) : Type 0 where
  pub current : s.current.refcnt ≡ count s.current.epoch jobs
  pub previous : s.previous.refcnt ≡ count s.previous.epoch jobs
  pub cur : s.cur.refcnt ≡ count s.cur.epoch jobs
  pub next : s.next.refcnt ≡ count s.next.epoch jobs
  pub null : count 0 jobs ≡ 0
  pub others :
      (e : ℕ) → e ≢ s.current.epoch → e ≢ s.previous.epoch → e ≢ s.cur.epoch → count e jobs ≡ 0
  pub known_current : s.current.epoch < s.epoch_cnt + 2
  pub known_previous : s.previous.epoch < s.epoch_cnt + 2
  pub known_cur : s.cur.epoch < s.epoch_cnt + 2
  pub known_next : s.next.epoch < s.epoch_cnt + 2
  pub current_apart :
      s.current.epoch ≢ 0
      → (s.current.epoch ≢ s.previous.epoch)
        × (s.current.epoch ≢ s.cur.epoch)
        × (s.current.epoch ≢ s.next.epoch)
  pub previous_apart :
      s.previous.epoch ≢ 0 → (s.previous.epoch ≢ s.cur.epoch) × (s.previous.epoch ≢ s.next.epoch)
  pub cur_apart : s.cur.epoch ≢ 0 → s.cur.epoch ≢ s.next.epoch

-- Which pointers are null in each phase.
abbrev pub InPhase : Phase → Epochs → Type 0
InPhase idle s = (s.current.epoch ≢ 0) × (s.cur.epoch ≡ 0)
InPhase retired s =
    (s.current.epoch ≢ 0) × (s.cur.epoch ≡ 0) × (s.previous.epoch ≡ 0) × (s.next.epoch ≢ 0)
InPhase detached s =
    (s.current.epoch ≡ 0) × (s.cur.epoch ≢ 0) × (s.previous.epoch ≡ 0) × (s.next.epoch ≢ 0)
InPhase stored s =
    (s.current.epoch ≡ 0) × (s.cur.epoch ≡ 0) × (s.previous.epoch ≢ 0) × (s.next.epoch ≢ 0)

pub record IsSound (s : System) : Type 0 where
  pub counted : Counted s.epochs s.jobs
  pub phased : InPhase s.phase s.epochs
