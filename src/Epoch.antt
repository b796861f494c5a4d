-- ===== src/Epoch.antt =====
-- The epochs of include/framework/DynamicExtension.h: three counted pointers that queries and the
-- reconstruction job share. A pointer is a number, and nullptr is 0. The epoch of number `n` has the
-- address `n + 1`; addresses are not used again. `none` is a failed assertion, or a loop that waits
-- for another thread. What an epoch points to is in the files on the structure and the buffer.
pub mod Jobs
pub mod Counts
pub mod Operations
pub mod Safety
use mathlib.Core.Option
use dynamic_extension.Base.{ℕ, ◌+◌, ◌-◌, Option, none, some, ◌==◌, if◌then◌else◌}

pub record EpochPtr : Type 0 where
  pub epoch : ℕ
  pub refcnt : ℕ

abbrev pub null_ptr : EpochPtr
null_ptr = record { epoch = 0; refcnt = 0 }

-- `cur` is the local of `advance_epoch`.
pub record Epochs : Type 0 where
  pub next : EpochPtr
  pub current : EpochPtr
  pub previous : EpochPtr
  pub cur : EpochPtr
  pub epoch_cnt : ℕ

-- The constructor.
abbrev pub first_epochs : Epochs
first_epochs = record {
  next = null_ptr;
  current = record { epoch = 1; refcnt = 0 };
  previous = null_ptr;
  cur = null_ptr;
  epoch_cnt = 0;
}

abbrev pub gain : EpochPtr → EpochPtr
gain p = record p { refcnt = p.refcnt + 1 }

abbrev pub drop : EpochPtr → EpochPtr
drop p = record p { refcnt = p.refcnt - 1 }

-- A round of the loop, with no other thread in between.
unfoldable pub get_active_epoch : Epochs → Option (ℕ × Epochs)
get_active_epoch s =
    if s.current.epoch == 0
    then (if s.previous.epoch == 0
        then none
        else some (s.previous.epoch, record s { previous = gain s.previous }))
    else some (s.current.epoch, record s { current = gain s.current })

-- The two branches of `end_job`, behind the test.
unfoldable pub end_in_previous : Epochs → Option Epochs
end_in_previous s =
    if s.previous.epoch == 0
    then none
    else if s.previous.refcnt == 0
    then none
    else some (record s { previous = drop s.previous })

unfoldable pub end_in_current : Epochs → Option Epochs
end_in_current s =
    if s.current.epoch == 0
    then none
    else if s.current.refcnt == 0
    then none
    else some (record s { current = drop s.current })

-- With no other thread between the test and the update.
unfoldable pub end_job : ℕ → Epochs → Option Epochs
end_job epoch s = if s.previous.epoch == epoch then end_in_previous s else end_in_current s

unfoldable pub store_next : Epochs → Epochs
store_next s = record s {
  epoch_cnt = s.epoch_cnt + 1;
  next = record { epoch = s.epoch_cnt + 2; refcnt = 0 };
}

-- With no other thread in between.
unfoldable pub create_new_epoch : Epochs → Option Epochs
create_new_epoch s =
    if s.next.epoch == 0
    then Option.bind (get_active_epoch s) (λ r. end_job r.0 (store_next r.1))
    else none

-- `retire_epoch(m_previous_epoch.load().epoch)`
unfoldable pub retire_epoch : Epochs → Option Epochs
retire_epoch s =
    if s.previous.epoch == 0
    then some s
    else if s.previous.refcnt == 0
    then some (record s { previous = null_ptr })
    else none

-- The exchange in `advance_epoch`, the store behind it, and the two stores at the end.
unfoldable pub detach : Epochs → Epochs
detach s = record s { current = null_ptr; cur = s.current }

unfoldable pub store_previous : Epochs → Epochs
store_previous s = record s { previous = s.cur; cur = null_ptr }

unfoldable pub publish : Epochs → Epochs
publish s = record s { current = s.next; next = null_ptr }

-- The whole of it, for a buffer whose head advances at once.
unfoldable pub advance_epoch : Epochs → Option Epochs
advance_epoch s = Option.map (λ t. publish (store_previous (detach t))) (retire_epoch s)
