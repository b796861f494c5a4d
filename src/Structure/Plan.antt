-- ===== src/Structure/Plan.antt =====
-- The planning of reconstructions (ExtensionStructure.h) keeps the simulated levels in bounds.
use dynamic_extension.Base.{
  ℕ, zero, suc, ◌+◌, ◌-◌, ◌≤◌, ◌<◌, ◌≡◌, refl, subst, Bool, true, false, Option, none, some, List,
  [], ◌∷◌, ◌++◌, arith, leb, if◌then◌else◌, length, length-append,
}
use dynamic_extension.Tasks.{no_tasks}
use dynamic_extension.Structure.{
  leveling, teiring, LevelState, Structure, state_at, can_reconstruct_with, find_from,
  find_reconstruction_target, grow, target_or_grow, plan_moves, get_reconstruction_tasks_from_level,
  plan_flush, calc_level_record_capacity,
}
use dynamic_extension.Structure.Moves.{Within, Room, set-Within, plan_moves-Within, find_from-Room}

append-bounded :
    (state : List LevelState) (st : LevelState)
    → st.shardcnt ≤ st.shardcap
    → ((j : ℕ) → (state_at state j).shardcnt ≤ (state_at state j).shardcap)
    → (j : ℕ) → (state_at (state ++ st ∷ []) j).shardcnt ≤ (state_at (state ++ st ∷ []) j).shardcap
append-bounded [] st h w zero = h
append-bounded [] st h w (suc j) = omega arith
append-bounded (x ∷ state) st h w zero = w 0
append-bounded (x ∷ state) st h w (suc j) = append-bounded state st h (λ i. w (suc i)) j

append-capable :
    (state : List LevelState) (st : LevelState)
    → 0 < st.shardcap
    → ((j : ℕ) → j < length state → 0 < (state_at state j).shardcap)
    → (j : ℕ) → j < length (state ++ st ∷ [])
    → 0 < (state_at (state ++ st ∷ []) j).shardcap
append-capable [] st h w zero inside = h
append-capable [] st h w (suc j) inside = absurd (omega arith)
append-capable (x ∷ state) st h w zero inside = w 0 (omega arith)
append-capable (x ∷ state) st h w (suc j) inside =
    append-capable state st h (λ i below. w (suc i) (omega arith)) j (omega arith)

state_at-last :
    (state : List LevelState) (st : LevelState) → state_at (state ++ st ∷ []) (length state) ≡ st
state_at-last [] st = refl
state_at-last (x ∷ state) st = state_at-last state st

module _ {S : Type 0} (s : Structure S) (uninit : ℕ) where
  grow-Within :
      (scratch : List LevelState)
      → 0 < s.scale_factor
      → Within scratch
      → Within (grow teiring s scratch).1 × Room (grow teiring s scratch).1 (length scratch)
  unfolding grow
  grow-Within scratch pos w =
      let st : LevelState = record {
        reccnt = 0;
        reccap = calc_level_record_capacity s.buffer_size s.scale_factor (length s.levels);
        shardcnt = 0;
        shardcap = s.scale_factor;
      } in
      (
        record {
          bounded = append-bounded scratch st (omega arith) w.bounded;
          capable = append-capable scratch st pos w.capable;
        },
        (omega (arith, length-append scratch (st ∷ [])), rw (state_at-last scratch st) pos),
      )

  target-Within :
      (scratch : List LevelState) (found : Option ℕ)
      → find_reconstruction_target teiring 0 scratch ≡ found
      → 0 < s.scale_factor
      → length scratch ≡ length s.levels
      → Within scratch
      → Within (target_or_grow teiring s found scratch).1
        × Room (target_or_grow teiring s found scratch).1 (target_or_grow teiring s found scratch).0
  unfolding find_reconstruction_target grow
  target-Within scratch none e pos same w =
      let (w1, room) = grow-Within scratch pos w in (w1, subst (Room _) same room)
  target-Within scratch (some base) e pos same w = (
    w,
    (find_from-Room scratch (state_at scratch 0).reccnt (length scratch - 1) 1 base
        (ground arith)).1,
  )

  tasks-Within :
      (scratch : List LevelState)
      → 0 < s.scale_factor
      → length scratch ≡ length s.levels
      → Within scratch
      → Within (get_reconstruction_tasks_from_level teiring uninit s 0 scratch).1
        × Room (get_reconstruction_tasks_from_level teiring uninit s 0 scratch).1 0
  unfolding get_reconstruction_tasks_from_level
  tasks-Within scratch pos same w =
      let (w1, room) = target-Within scratch _ refl pos same w in
      plan_moves-Within 0 _ no_tasks _ (subst (Room _) (omega arith) room) w1

  freed-Within :
      (buffer_reccnt : ℕ) (scratch : List LevelState) (fits : Bool)
      → can_reconstruct_with teiring 0 buffer_reccnt scratch ≡ fits
      → 0 < s.scale_factor
      → length scratch ≡ length s.levels
      → Within scratch
      → Within
          (if fits
            then (no_tasks, scratch)
            else get_reconstruction_tasks_from_level teiring uninit s 0 scratch).1
        × Room
            (if fits
              then (no_tasks, scratch)
              else get_reconstruction_tasks_from_level teiring uninit s 0 scratch).1
            0
  unfolding can_reconstruct_with
  freed-Within buffer_reccnt scratch true e pos same w = (w, ground arith)
  freed-Within buffer_reccnt scratch false e pos same w = tasks-Within scratch pos same w

  -- Under tiering, with a positive scale factor and one state for each level, planning a flush
  -- keeps the simulated shard count of every level within its capacity, level 0 included, which
  -- takes the buffer's shard.
  pub plan_flush-Within :
      (buffer_reccnt : ℕ) (scratch : List LevelState)
      → 0 < s.scale_factor
      → length scratch ≡ length s.levels
      → Within scratch
      → Within (plan_flush teiring uninit s buffer_reccnt scratch).1
  unfolding plan_flush
  plan_flush-Within buffer_reccnt scratch pos same w =
      let (w1, room) = freed-Within buffer_reccnt scratch _ refl pos same w in
      set-Within _ 0 _ room.0 (omega arith) (w1.capable 0 room.0) w1

-- With three levels, a flush that finds no room at level 0 moves level 1 into level 2 when level 0
-- fits level 2 but not level 1, and never asks whether level 1 fits level 2: the records planned
-- for level 2 are then those of levels 1 and 2 together, whatever its capacity.
pub plan_flush-overflow :
    {S : Type 0} (s : Structure S) (uninit buffer_reccnt : ℕ) (a b c : LevelState)
    → a.reccap < a.reccnt + buffer_reccnt
    → b.reccap < b.reccnt + a.reccnt
    → c.reccnt + a.reccnt ≤ c.reccap
    → (state_at (plan_flush leveling uninit s buffer_reccnt (a ∷ b ∷ c ∷ [])).1 2).reccnt
      ≡ c.reccnt + b.reccnt
unfolding plan_flush get_reconstruction_tasks_from_level find_reconstruction_target find_from
    can_reconstruct_with plan_moves
plan_flush-overflow s uninit buffer_reccnt a b c full crowded fits =
    let h0 : leb (a.reccnt + buffer_reccnt) a.reccap ≡ false = ground arith in
    let h1 : leb (b.reccnt + a.reccnt) b.reccap ≡ false = ground arith in
    let h2 : leb (c.reccnt + a.reccnt) c.reccap ≡ true = ground arith in rw (h0, h1, h2) refl
