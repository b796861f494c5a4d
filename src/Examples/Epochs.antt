-- ===== src/Examples/Epochs.antt =====
-- The epochs with one job, before and after an advance.
use mathlib.Core.Option
use dynamic_extension.Base.{ℕ, ◌≡◌, refl, none, some, [], ◌∷◌, arith}
use dynamic_extension.Buffer.Clients.{count, erase}
use dynamic_extension.Epoch.{
  Epochs, null_ptr, first_epochs, get_active_epoch, end_in_previous, end_in_current, end_job,
  store_next, create_new_epoch, retire_epoch, detach, store_previous, publish, advance_epoch,
}
use dynamic_extension.Epoch.Jobs.{
  System, enters, leaves, creates, retires, detaches, stores, publishes, Reach, here, next,
  first_system, idle, retired, detached, stored,
}
use dynamic_extension.Epoch.Safety.{Reach-retire, Reach-progress, end_job-overtaken}

-- A job on epoch 0, while epoch 1 stands ready.
abbrev with_job : Epochs
with_job = record {
  next = record { epoch = 2; refcnt = 0 };
  current = record { epoch = 1; refcnt = 1 };
  previous = null_ptr;
  cur = null_ptr;
  epoch_cnt = 1;
}

abbrev created : Epochs
created = record first_epochs { next = record { epoch = 2; refcnt = 0 }; epoch_cnt = 1 }

-- The same job, when epoch 1 is the current one.
abbrev advanced : Epochs
advanced = record {
  next = null_ptr;
  current = record { epoch = 2; refcnt = 0 };
  previous = record { epoch = 1; refcnt = 1 };
  cur = null_ptr;
  epoch_cnt = 1;
}

abbrev running : System
running = record { epochs = with_job; jobs = 1 ∷ []; phase = idle }

running-Reach : Reach first_system running
unfolding create_new_epoch get_active_epoch end_job end_in_previous end_in_current store_next
    Option.bind
running-Reach =
    next {t = record { epochs = created; jobs = []; phase = idle }}
      (next here (creates refl refl refl refl)) (enters 1 refl refl refl)

advanced-Reach : Reach first_system (record { epochs = advanced; jobs = 1 ∷ []; phase = idle })
unfolding retire_epoch detach store_previous publish
advanced-Reach =
    next {t = record { epochs = store_previous (detach with_job); jobs = 1 ∷ []; phase = stored }}
      (next {t = record { epochs = detach with_job; jobs = 1 ∷ []; phase = detached }}
        (next {t = record { epochs = with_job; jobs = 1 ∷ []; phase = retired }}
          (next running-Reach (retires refl (omega arith) refl refl refl))
          (detaches refl refl refl refl))
        (stores refl refl refl refl))
      (publishes refl refl refl refl)

-- The job has ended, and epoch 2 stands ready.
abbrev ready : Epochs
ready = record {
  next = record { epoch = 3; refcnt = 0 };
  current = record { epoch = 2; refcnt = 0 };
  previous = record { epoch = 1; refcnt = 0 };
  cur = null_ptr;
  epoch_cnt = 2;
}

ready-Reach : Reach first_system (record { epochs = ready; jobs = []; phase = idle })
unfolding create_new_epoch get_active_epoch end_job end_in_previous end_in_current store_next
    Option.bind count erase
ready-Reach =
    next
      {t = record {
        epochs = record advanced { previous = record { epoch = 1; refcnt = 0 } };
        jobs = [];
        phase = idle;
      }}
      (next advanced-Reach (leaves 1 (omega arith) refl refl refl)) (creates refl refl refl refl)

Reach-retire_example : count 1 [] ≡ 0
unfolding retire_epoch
Reach-retire_example =
    Reach-retire (record { epochs = ready; jobs = []; phase = idle })
      (record ready { previous = null_ptr }) ready-Reach refl

Reach-progress_example :
    ((a : ℕ) × (t : Epochs) × (get_active_epoch advanced ≡ some (a, t)))
    × ((t : Epochs) × (end_job 1 advanced ≡ some t))
unfolding count
Reach-progress_example =
    Reach-progress (record { epochs = advanced; jobs = 1 ∷ []; phase = idle }) 1 advanced-Reach
      (omega arith) (λ e. idle-detached e)
  where
    idle-detached : idle ≡ detached → ⊥
    idle-detached e = cc

end_job-overtaken_example :
    (end_job 1 with_job ≡ end_in_current with_job)
    × ((t : Epochs) × (advance_epoch with_job ≡ some t)
        × (t.previous ≡ with_job.current)
        × (end_in_current t ≡ none))
end_job-overtaken_example = end_job-overtaken with_job 2 (omega arith) refl refl
