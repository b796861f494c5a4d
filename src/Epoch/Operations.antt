-- ===== src/Epoch/Operations.antt =====
-- What the operations on the epochs do to the counts and the pointers (include/framework/DynamicExtension.h).
use mathlib.Core.Option
use mathlib.Core.Option.{some_inj}
use dynamic_extension.Base.{
  ℕ, ◌<◌, ◌≡◌, ◌≢◌, ◌⊎◌, inl, inr, refl, sym, ap, ◌∙◌, none, some, List, ◌∷◌, arith, ◌==◌,
  Bool-cases, subst, false, ==_iff, Option-cases,
}
use dynamic_extension.Buffer.Clients.{count, erase}
use dynamic_extension.Buffer.Heads.{count-cons}
use dynamic_extension.Epoch.{
  Epochs, get_active_epoch, end_in_previous, end_in_current, end_job, store_next, create_new_epoch,
  retire_epoch,
}
use dynamic_extension.Epoch.Jobs.{Counted}
use dynamic_extension.Epoch.Counts.{
  enter_current, enter_previous, leave_current, leave_previous, store_next-Counted, retired-Counted,
}

pub get_active_epoch-Counted :
    (s t : Epochs) (jobs : List ℕ) (e : ℕ)
    → get_active_epoch s ≡ some (e, t)
    → Counted s jobs
    → Counted t (e ∷ jobs)
unfolding get_active_epoch
get_active_epoch-Counted s t jobs e h c = elim (Bool-cases (s.current.epoch == 0)) [
  | inl z ↦ elim (Bool-cases (s.previous.epoch == 0)) [
    | inl y ↦ absurd (ground arith)
    | inr y ↦
        subst (λ r. Counted r.1 (r.0 ∷ jobs)) (some_inj.0 (rw (z, y) at h))
          (enter_previous s jobs c (ground arith) (ground arith))
  ]
  | inr z ↦
      subst (λ r. Counted r.1 (r.0 ∷ jobs)) (some_inj.0 (rw z at h))
        (enter_current s jobs c (ground arith))
]

-- An epoch that a job is on is one of the three, and not null.
pub job_epoch :
    (s : Epochs) (jobs : List ℕ) (e : ℕ)
    → Counted s jobs
    → 0 < count e jobs
    → (e ≢ 0) × ((e ≡ s.current.epoch) ⊎ (e ≡ s.previous.epoch) ⊎ (e ≡ s.cur.epoch))
job_epoch s jobs e c p =
    (λ z. omega (arith, p, ap (λ k. count k jobs) z, c.null), ground (arith, p, c.others e))

pub end_job-Counted :
    (s t : Epochs) (jobs : List ℕ) (e : ℕ)
    → 0 < count e jobs
    → end_job e s ≡ some t
    → ((s.current.epoch ≡ 0) ⊎ (s.cur.epoch ≡ 0))
    → Counted s jobs
    → Counted t (erase e jobs)
unfolding end_job end_in_previous end_in_current
end_job-Counted s t jobs e p h z c = elim (Bool-cases (s.previous.epoch == e)) [
  | inl y ↦
      let same : s.previous.epoch ≡ e = ground arith in
      let out : 0 < count s.previous.epoch jobs = subst (λ k. 0 < count k jobs) (sym same) p in
      let y0 : (s.previous.epoch == 0) ≡ false = ground (arith, (job_epoch s jobs e c p).0) in
      let y1 : (s.previous.refcnt == 0) ≡ false = ground (arith, c.previous) in
      subst (λ k. Counted t (erase k jobs)) same
        (subst (λ r. Counted r (erase s.previous.epoch jobs)) (some_inj.0 (rw (y, y0, y1) at h))
          (leave_previous s jobs c out))
  | inr y ↦ elim (Bool-cases (s.current.epoch == 0)) [
    | inl w ↦ absurd (ground arith)
    | inr w ↦
        let same : s.current.epoch ≡ e = ground (arith, job_epoch s jobs e c p, z) in
        let out : 0 < count s.current.epoch jobs = subst (λ k. 0 < count k jobs) (sym same) p in
        let y1 : (s.current.refcnt == 0) ≡ false = ground (arith, c.current) in
        subst (λ k. Counted t (erase k jobs)) same
          (subst (λ r. Counted r (erase s.current.epoch jobs)) (some_inj.0 (rw (y, w, y1) at h))
            (leave_current s jobs c out))
  ]
]

pub retire_epoch-Counted :
    (s t : Epochs) (jobs : List ℕ)
    → retire_epoch s ≡ some t
    → Counted s jobs
    → Counted t jobs
      × (t.previous.epoch ≡ 0)
      × (count s.previous.epoch jobs ≡ 0)
      × (t.current ≡ s.current)
      × (t.cur ≡ s.cur)
      × (t.next ≡ s.next)
unfolding retire_epoch
retire_epoch-Counted s t jobs h c = elim (Bool-cases (s.previous.epoch == 0)) [
  | inl z ↦
      subst
        (λ r.
          Counted r jobs
          × (r.previous.epoch ≡ 0)
          × (count s.previous.epoch jobs ≡ 0)
          × (r.current ≡ s.current)
          × (r.cur ≡ s.cur)
          × (r.next ≡ s.next))
        (some_inj.0 (rw z at h))
        (
          c,
          ground arith,
          omega (arith, c.null, ap (λ k. count k jobs) ((==_iff s.previous.epoch 0).0 z)),
          refl,
          refl,
          refl,
        )
  | inr z ↦ elim (Bool-cases (s.previous.refcnt == 0)) [
    | inl y ↦
        subst
          (λ r.
            Counted r jobs
            × (r.previous.epoch ≡ 0)
            × (count s.previous.epoch jobs ≡ 0)
            × (r.current ≡ s.current)
            × (r.cur ≡ s.cur)
            × (r.next ≡ s.next))
          (some_inj.0 (rw (z, y) at h))
          (
            retired-Counted s jobs c (ground arith),
            refl,
            ground (arith, c.previous),
            refl,
            refl,
            refl,
          )
    | inr y ↦ absurd (ground arith)
  ]
]

-- What entering and leaving keep of the pointers.
pub get_active_epoch-pointers :
    (s t : Epochs) (e : ℕ)
    → get_active_epoch s ≡ some (e, t)
    → (t.current.epoch ≡ s.current.epoch)
      × (t.previous.epoch ≡ s.previous.epoch)
      × (t.cur ≡ s.cur)
      × (t.next ≡ s.next)
      × (t.epoch_cnt ≡ s.epoch_cnt)
unfolding get_active_epoch
get_active_epoch-pointers s t e h = ground arith

pub end_job-pointers :
    (s t : Epochs) (e : ℕ)
    → end_job e s ≡ some t
    → (t.current.epoch ≡ s.current.epoch)
      × (t.previous.epoch ≡ s.previous.epoch)
      × (t.cur ≡ s.cur)
      × (t.next ≡ s.next)
      × (t.epoch_cnt ≡ s.epoch_cnt)
unfolding end_job end_in_previous end_in_current
end_job-pointers s t e h = ground arith

erase-cons : (e : ℕ) (jobs : List ℕ) → erase e (e ∷ jobs) ≡ jobs
unfolding erase
erase-cons e jobs = ground arith

pub create_new_epoch-Counted :
    (s t : Epochs) (jobs : List ℕ)
    → create_new_epoch s ≡ some t
    → s.cur.epoch ≡ 0
    → Counted s jobs
    → Counted t jobs × (t.current.epoch ≡ s.current.epoch) × (t.cur.epoch ≡ 0)
unfolding create_new_epoch store_next Option.bind
create_new_epoch-Counted s t jobs h z c = elim (Bool-cases (s.next.epoch == 0)) [
  | inr y ↦ absurd (ground arith)
  | inl y ↦ elim (Option-cases (get_active_epoch s)) [
    | inl n ↦ absurd (none-some (rw (y, n) at h))
    | inr ((e, mid), g) ↦
        let ended : end_job e (store_next mid) ≡ some t = rw (y, g) at h in
        let entered = get_active_epoch-Counted s mid jobs e g c in
        let at_mid = get_active_epoch-pointers s mid e g in
        let at_end = end_job-pointers (store_next mid) t e ended in
        let mid_cur : mid.cur.epoch ≡ 0 = ap (λ p. p.epoch) (at_mid.2) ∙ z in
        (
          subst (Counted t) (erase-cons e jobs) (
              end_job-Counted (store_next mid) t (e ∷ jobs) e (ground (arith, count-cons e e jobs))
                ended (inr mid_cur) (store_next-Counted mid (e ∷ jobs) entered mid_cur)),
          at_end.0 ∙ at_mid.0,
          ap (λ p. p.epoch) at_end.2 ∙ mid_cur,
        )
  ]
]
  where
    none-some : none ≡ some t → ⊥
    none-some q = ground arith
