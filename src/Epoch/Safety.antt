-- ===== src/Epoch/Safety.antt =====
-- No epoch that a job uses is retired (include/framework/DynamicExtension.h).
use dynamic_extension.Base.{
  ℕ, ◌<◌, ◌≡◌, ◌≢◌, ◌⊎◌, inl, inr, refl, sym, ap, ◌∙◌, none, some, List, arith, ◌==◌, Bool-cases,
}
use dynamic_extension.Buffer.Clients.{count}
use dynamic_extension.Epoch.{
  Epochs, gain, drop, get_active_epoch, end_in_previous, end_in_current, end_job, retire_epoch,
  detach, store_previous, publish, advance_epoch,
}
use dynamic_extension.Epoch.Jobs.{
  Counted, Phase, idle, retired, detached, stored, System, Step, enters, leaves, creates, retires,
  detaches, stores, publishes, Reach, here, next, first_system, InPhase, IsSound,
}
use dynamic_extension.Epoch.Counts.{detach-Counted, store_previous-Counted, publish-Counted}
use dynamic_extension.Epoch.Operations.{
  get_active_epoch-Counted, job_epoch, end_job-Counted, retire_epoch-Counted,
  get_active_epoch-pointers, end_job-pointers, create_new_epoch-Counted,
}

InPhase-keeps :
    (p : Phase) (s t : Epochs)
    → t.current.epoch ≡ s.current.epoch
    → t.previous.epoch ≡ s.previous.epoch
    → t.cur.epoch ≡ s.cur.epoch
    → t.next.epoch ≡ s.next.epoch
    → InPhase p s
    → InPhase p t
InPhase-keeps idle s t a b c d h = ground (arith, a, b, c, d, h)
InPhase-keeps retired s t a b c d h = ground (arith, a, b, c, d, h)
InPhase-keeps detached s t a b c d h = ground (arith, a, b, c, d, h)
InPhase-keeps stored s t a b c d h = ground (arith, a, b, c, d, h)

one_null : (p : Phase) (s : Epochs) → InPhase p s → (s.current.epoch ≡ 0) ⊎ (s.cur.epoch ≡ 0)
one_null idle s h = inr h.1
one_null retired s h = inr h.1
one_null detached s h = inl h.0
one_null stored s h = inr h.1

-- Every step keeps the counts equal to the numbers of jobs, and the pointers in their phase.
pub Step-IsSound : (s t : System) → Step s t → IsSound s → IsSound t
unfolding detach store_previous publish
Step-IsSound s t (enters e h k f) w =
    let at = get_active_epoch-pointers s.epochs t.epochs e h in
    record {
      counted = rw k (get_active_epoch-Counted s.epochs t.epochs s.jobs e h w.counted);
      phased = rw f (
          InPhase-keeps s.phase s.epochs t.epochs at.0 at.1 (ap (λ p. p.epoch) at.2)
            (ap (λ p. p.epoch) at.3) w.phased);
    }
Step-IsSound s t (leaves e p h k f) w =
    let at = end_job-pointers s.epochs t.epochs e h in
    record {
      counted = rw k (
          end_job-Counted s.epochs t.epochs s.jobs e p h (one_null s.phase s.epochs w.phased)
            w.counted);
      phased = rw f (
          InPhase-keeps s.phase s.epochs t.epochs at.0 at.1 (ap (λ p. p.epoch) at.2)
            (ap (λ p. p.epoch) at.3) w.phased);
    }
Step-IsSound s t (creates f h k g) w =
    let at : InPhase idle s.epochs = rw f at w.phased in
    let made = create_new_epoch-Counted s.epochs t.epochs s.jobs h at.1 w.counted in
    record { counted = rw k made.0; phased = rw g (λ z. at.0 (sym made.1 ∙ z), made.2) }
Step-IsSound s t (retires f n h k g) w =
    let at : InPhase idle s.epochs = rw f at w.phased in
    let (kept, gone, unused, current, cur, upcoming) =
      retire_epoch-Counted s.epochs t.epochs s.jobs h w.counted in
    record { counted = rw k kept; phased = rw (g, current, cur, upcoming) (at.0, at.1, gone, n) }
Step-IsSound s t (detaches f h k g) w =
    let at : InPhase retired s.epochs = rw f at w.phased in
    record {
      counted = rw (k, sym h) (detach-Counted s.epochs s.jobs w.counted at.1);
      phased = rw (g, sym h) (refl, at.0, at.2, at.3);
    }
Step-IsSound s t (stores f h k g) w =
    let at : InPhase detached s.epochs = rw f at w.phased in
    record {
      counted = rw (k, sym h) (store_previous-Counted s.epochs s.jobs w.counted at.2 at.0);
      phased = rw (g, sym h) (at.0, refl, at.1, at.3);
    }
Step-IsSound s t (publishes f h k g) w =
    let at : InPhase stored s.epochs = rw f at w.phased in
    record {
      counted = rw (k, sym h) (publish-Counted s.epochs s.jobs w.counted at.0 at.1 at.3);
      phased = rw (g, sym h) (at.3, at.1);
    }

first_system-IsSound : IsSound first_system
unfolding count
first_system-IsSound = record {
  counted = record {
    current = refl;
    previous = refl;
    cur = refl;
    next = refl;
    null = refl;
    others = λ e i j k. refl;
    known_current = omega arith;
    known_previous = omega arith;
    known_cur = omega arith;
    known_next = omega arith;
    current_apart = λ h. (omega arith, omega arith, omega arith);
    previous_apart = λ h. absurd (h refl);
    cur_apart = λ h. absurd (h refl);
  };
  phased = (omega arith, refl);
}

Reach-IsSound : (s t : System) → Reach s t → IsSound s → IsSound t
Reach-IsSound s t here w = w
Reach-IsSound s u (next {t} r st) w = Step-IsSound t u st (Reach-IsSound s t r w)

-- In any run from the start, jobs entering and ending while one thread creates epochs and advances,
-- if every call of `get_active_epoch`, `end_job` and `create_new_epoch` runs without another thread in
-- between: an epoch that is retired has no job on it.
pub Reach-retire :
    (s : System) (t : Epochs)
    → Reach first_system s
    → retire_epoch s.epochs ≡ some t
    → count s.epochs.previous.epoch s.jobs ≡ 0
Reach-retire s t r h =
    (retire_epoch-Counted s.epochs t s.jobs h
      (Reach-IsSound first_system s r first_system-IsSound).counted).2

end_job-returns :
    (s : Epochs) (jobs : List ℕ) (e : ℕ)
    → Counted s jobs
    → 0 < count e jobs
    → s.cur.epoch ≡ 0
    → (t : Epochs) × (end_job e s ≡ some t)
unfolding end_job end_in_previous end_in_current
end_job-returns s jobs e c p z = elim (Bool-cases (s.previous.epoch == e)) [
  | inl y ↦
      let same : e ≡ s.previous.epoch = ground arith in
      (
        record s { previous = drop s.previous },
        ground (arith, c.previous, p, ap (λ k. count k jobs) same, (job_epoch s jobs e c p).0),
      )
  | inr y ↦
      let same : e ≡ s.current.epoch = ground (arith, job_epoch s jobs e c p) in
      (
        record s { current = drop s.current },
        ground (arith, c.current, p, ap (λ k. count k jobs) same, (job_epoch s jobs e c p).0),
      )
]

get_active_epoch-returns :
    (p : Phase) (s : Epochs)
    → InPhase p s
    → (p ≡ detached) ⊎ ((e : ℕ) × (t : Epochs) × (get_active_epoch s ≡ some (e, t)))
unfolding get_active_epoch
get_active_epoch-returns idle s h =
    inr (s.current.epoch, record s { current = gain s.current }, ground (arith, h.0))
get_active_epoch-returns retired s h =
    inr (s.current.epoch, record s { current = gain s.current }, ground (arith, h.0))
get_active_epoch-returns detached s h = inl refl
get_active_epoch-returns stored s h =
    inr (s.previous.epoch, record s { previous = gain s.previous }, ground (arith, h.0, h.2))

cur_null : (p : Phase) (s : Epochs) → InPhase p s → (p ≡ detached) ⊎ (s.cur.epoch ≡ 0)
cur_null idle s h = inr h.1
cur_null retired s h = inr h.1
cur_null detached s h = inl refl
cur_null stored s h = inr h.1

-- In any run from the start in which those calls run without another thread in between, outside of the
-- short phase in which the advancing thread holds the only pointer to the old epoch: while a job runs,
-- another can start, and the one that runs can end.
pub Reach-progress :
    (s : System) (e : ℕ)
    → Reach first_system s
    → 0 < count e s.jobs
    → s.phase ≢ detached
    → ((a : ℕ) × (t : Epochs) × (get_active_epoch s.epochs ≡ some (a, t)))
      × ((t : Epochs) × (end_job e s.epochs ≡ some t))
Reach-progress s e r p h =
    let w = Reach-IsSound first_system s r first_system-IsSound in
    (
      elim (get_active_epoch-returns s.phase s.epochs w.phased) [
        | inl d ↦ absurd (h d)
        | inr a ↦ a
      ],
      elim (cur_null s.phase s.epochs w.phased) [
        | inl d ↦ absurd (h d)
        | inr z ↦ end_job-returns s.epochs s.jobs e w.counted p z
      ],
    )

-- A job that has found its epoch not to be the previous one, and is then overtaken by a whole advance,
-- ends on the new epoch instead: no job is on that one, and its assertion fails.
pub end_job-overtaken :
    (s : Epochs) (n : ℕ)
    → s.current.epoch ≢ 0
    → s.previous.epoch ≡ 0
    → s.next ≡ record { epoch = n; refcnt = 0 }
    → (end_job s.current.epoch s ≡ end_in_current s)
      × ((t : Epochs) × (advance_epoch s ≡ some t)
          × (t.previous ≡ s.current)
          × (end_in_current t ≡ none))
unfolding end_job advance_epoch retire_epoch detach store_previous publish end_in_current
end_job-overtaken s n h z e = (
  ground (arith, h, z),
  (publish (store_previous (detach s)), ground (arith, z), refl, rw e (ground arith)),
)
