-- ===== src/Structure/Moves.antt =====
-- The moves of a planned reconstruction (ExtensionStructure.h) under tiering.
use native.Mathlib.Decide.{ℕ_discrete}
use dynamic_extension.Base.{
  ℕ, zero, suc, ◌+◌, ◌-◌, ◌≤◌, ◌<◌, ◌≡◌, ◌≢◌, subst, some, List, arith, length, set, length-set,
  get_or-set_self, get_or-set_ne,
}
use dynamic_extension.Tasks.{ReconstructionVector}
use dynamic_extension.Structure.{
  teiring, LevelState, no_state, state_at, can_reconstruct_with, find_from, emptied, moved,
  plan_moves, gains_shard,
}

-- Under tiering: no level has more shards than it may have, and each may have some.
pub record Within (state : List LevelState) : Type 0 where
  pub bounded : (j : ℕ) → (state_at state j).shardcnt ≤ (state_at state j).shardcap
  pub capable : (j : ℕ) → j < length state → 0 < (state_at state j).shardcap

-- A level that can take one more shard.
abbrev pub Room : List LevelState → ℕ → Type 0
Room state i = (i < length state) × ((state_at state i).shardcnt < (state_at state i).shardcap)

state_at-set_self :
    (state : List LevelState) (i : ℕ) (st : LevelState)
    → i < length state
    → state_at (set state i st) i ≡ st
state_at-set_self state i st h = get_or-set_self state i st no_state h

state_at-set_ne :
    (state : List LevelState) (i j : ℕ) (st : LevelState)
    → i ≢ j
    → state_at (set state i st) j ≡ state_at state j
state_at-set_ne state i j st h = get_or-set_ne state i j st no_state h

-- Replacing the state of one level by one in bounds.
pub set-Within :
    (state : List LevelState) (i : ℕ) (st : LevelState)
    → i < length state
    → st.shardcnt ≤ st.shardcap
    → 0 < st.shardcap
    → Within state
    → Within (set state i st)
set-Within state i st h fits some_cap w = record {
  bounded = λ j. elim (ℕ_discrete i j) [
    | yes e ↦
        subst (λ k. (state_at (set state i st) k).shardcnt ≤ (state_at (set state i st) k).shardcap)
          e (rw (state_at-set_self state i st h) fits)
    | no e ↦ rw (state_at-set_ne state i j st e) (w.bounded j)
  ];
  capable = λ j inside. elim (ℕ_discrete i j) [
    | yes e ↦
        subst (λ k. 0 < (state_at (set state i st) k).shardcap) e
          (rw (state_at-set_self state i st h) some_cap)
    | no e ↦
        rw (state_at-set_ne state i j st e) (w.capable j (rw (length-set state i st) at inside))
  ];
}

-- What `moved` writes for level `i`.
abbrev moved_state : List LevelState → List LevelState → ℕ → LevelState
moved_state above state i = record (state_at above i) {
  reccnt = (state_at above i).reccnt + (state_at state (i - 1)).reccnt;
  shardcnt = gains_shard teiring (state_at above i).shardcnt;
}

moved-Within :
    (state : List LevelState) (i : ℕ)
    → 0 < i
    → Room state i
    → Within state
    → Within (moved teiring i state) × Room (moved teiring i state) (i - 1)
moved-Within state i pos room w =
    let above = set state (i - 1) (emptied (state_at state (i - 1))) in
    let w1 : Within above =
      set-Within state (i - 1) (emptied (state_at state (i - 1))) (omega arith) (omega arith)
        (w.capable (i - 1) (omega arith)) w in
    let same : state_at above i ≡ state_at state i =
      state_at-set_ne state (i - 1) i _ (λ e. omega arith) in
    let inside : i < length above =
      rw (length-set state (i - 1) (emptied (state_at state (i - 1)))) room.0 in
    (
      set-Within above i _ inside (ground (arith, same)) (rw same (w.capable i room.0)) w1,
      (
        rw (length-set above i (moved_state above state i)) (omega arith),
        rw
            (
              state_at-set_ne above i (i - 1) (moved_state above state i) (λ e. omega arith),
              state_at-set_self state (i - 1) (emptied (state_at state (i - 1))) (omega arith),
            )
            (w.capable (i - 1) (omega arith)),
      ),
    )

-- Moving each level of a chain into the next, from the bottom up, keeps every level in bounds, and
-- leaves room in the level at the top.
pub plan_moves-Within :
    (source n : ℕ) (tasks : ReconstructionVector) (state : List LevelState)
    → Room state (source + n)
    → Within state
    → Within (plan_moves teiring source n tasks state).1
      × Room (plan_moves teiring source n tasks state).1 source
unfolding plan_moves
plan_moves-Within source zero tasks state room w = (w, subst (Room state) (omega arith) room)
plan_moves-Within source (suc n) tasks state room w =
    let (w1, room1) = moved-Within state (source + suc n) (omega arith) room w in
    plan_moves-Within source n _ (moved teiring (source + suc n) state)
      (subst (Room (moved teiring (source + suc n) state)) (omega arith) room1) w1

-- The search finds a level below, and one that has room.
pub find_from-Room :
    (state : List LevelState) (incoming n i base : ℕ)
    → find_from teiring state incoming i n ≡ some base
    → (i ≤ base) × Room state base
unfolding find_from can_reconstruct_with
find_from-Room state incoming zero i base h = cc
find_from-Room state incoming (suc n) i base h =
    ground (arith, find_from-Room state incoming n (i + 1) base)
