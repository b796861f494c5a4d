-- ===== src/Structure/Sources.antt =====
-- What the planned compactions (ExtensionStructure.h) move.
use mathlib.Core.Option
use mathlib.Core.Option.{none-ne-some}
use dynamic_extension.Base.{
  ℕ, zero, suc, ◌+◌, ◌-◌, ◌≤◌, ◌<◌, ◌≡◌, ◌≢◌, refl, ap, true, false, not, ◌&&◌, Option, none, some,
  List, [], ◌∷◌, ◌++◌, arith, ltb, ◌==◌, length, Bool-cases, inl, inr,
}
use dynamic_extension.Shard.{ShardInterface}
use dynamic_extension.Level.{Level}
use dynamic_extension.Tasks.{ReconstructionTask, ReconstructionVector, no_tasks, add_reconstruction}
use dynamic_extension.Structure.{
  LayoutPolicy, leveling, teiring, bsm, Structure, LevelState, find_from,
  find_reconstruction_target, target_or_grow, grow,
}
use dynamic_extension.Structure.Compaction.{
  Proportion, level_in_proportion, validate_from, validate_tombstone_proportion, violation_from,
  compaction_reccnt, compaction_loop, compact_from, get_compaction_tasks,
}

-- Every task has level 0 as its only source.
abbrev pub FromFirst : List ReconstructionTask → Type 0
FromFirst [] = Unit
FromFirst (t ∷ ts) = (t.sources ≡ 0 ∷ []) × FromFirst ts

FromFirst-snoc :
    (ts : List ReconstructionTask) (t : ReconstructionTask)
    → FromFirst ts
    → t.sources ≡ 0 ∷ []
    → FromFirst (ts ++ t ∷ [])
FromFirst-snoc [] t h k = (k, tt)
FromFirst-snoc (x ∷ ts) t h k = (h.0, FromFirst-snoc ts t h.1 k)

length-snoc :
    (ts : List ReconstructionTask) (t : ReconstructionTask)
    → length (ts ++ t ∷ []) ≡ suc (length ts)
length-snoc [] t = refl
length-snoc (x ∷ ts) t = ap suc (length-snoc ts t)

find_from-above :
    (layout : LayoutPolicy) (state : List LevelState) (incoming n i base : ℕ)
    → find_from layout state incoming i n ≡ some base
    → i ≤ base
unfolding find_from
find_from-above layout state incoming zero i base h = cc
find_from-above layout state incoming (suc n) i base h =
    ground (arith, find_from-above layout state incoming n (i + 1) base)

module _ {S : Type 0} (I : ShardInterface S) (prop : Proportion) (s : Structure S) where
  -- If the proportion is not kept, there is a first level that violates it, and so a level.
  violation_found :
      (ls : List (Level S)) (i : ℕ)
      → validate_from I prop s ls i ≡ false
      → (idx : ℕ) × (violation_from I prop s ls i ≡ some idx) × (0 < length ls)
  unfolding validate_from violation_from
  violation_found [] i h = cc
  violation_found (l ∷ ls) i h = elim (Bool-cases (level_in_proportion I prop s l i)) [
    | inl e ↦
        let (idx, found, some_level) = violation_found ls (i + 1) (rw e at h) in
        (idx, rw e found, omega (arith, some_level))
    | inr e ↦ (i, rw e refl, omega arith)
  ]

  reccnt_some :
      (layout : LayoutPolicy) (scratch : List LevelState) (i : ℕ)
      → layout ≢ leveling
      → (reccnt : ℕ) × (compaction_reccnt I prop s layout scratch i ≡ some reccnt)
  unfolding compaction_reccnt
  reccnt_some leveling scratch i other = absurd (other refl)
  reccnt_some teiring scratch i other = (_, refl)
  reccnt_some bsm scratch i other = (_, refl)

  loop-FromFirst :
      (layout : LayoutPolicy) (scratch : List LevelState) (n : ℕ) (tasks : ReconstructionVector)
      → layout ≢ leveling
      → FromFirst tasks.tasks
      → (v : ReconstructionVector) × (compaction_loop I prop s layout scratch n tasks ≡ some v)
        × FromFirst v.tasks
        × (length v.tasks ≡ n + length tasks.tasks)
  unfolding compaction_loop add_reconstruction Option.bind
  loop-FromFirst layout scratch zero tasks other h = (tasks, refl, h, omega arith)
  loop-FromFirst layout scratch (suc n) tasks other h =
      let (reccnt, e) = reccnt_some layout scratch (suc n) other in
      let next = add_reconstruction tasks (suc n - suc n) (suc n) reccnt in
      let nothing : suc n - suc n ≡ 0 = omega arith in
      let (v, runs, first, size) =
        loop-FromFirst layout scratch n next other
          (FromFirst-snoc tasks.tasks _ h (ap (λ i. i ∷ []) nothing)) in
      (v, rw e runs, first, omega (arith, size, length-snoc tasks.tasks _))

  target_or_grow-positive :
      (layout : LayoutPolicy) (idx : ℕ) (scratch : List LevelState)
      → 0 < length s.levels
      → 0 < (target_or_grow layout s (find_reconstruction_target layout idx scratch) scratch).0
  unfolding find_reconstruction_target grow
  target_or_grow-positive layout idx scratch h =
      positive (find_reconstruction_target layout idx scratch) refl
    where
      positive :
          (found : Option ℕ)
          → find_reconstruction_target layout idx scratch ≡ found
          → 0 < (target_or_grow layout s found scratch).0
      positive none e = h
      positive (some base) e = elim (Bool-cases (idx == 0 && length scratch == 0)) [
        | inl t ↦ absurd (none-ne-some base (rw t at e))
        | inr t ↦ omega (arith, find_from-above layout scratch _ _ (idx + 1) base (rw t at e))
      ]

  -- Under tiering and BSM, the planning of compactions never fails its assertion, and there is a
  -- task just if a level has too many tombstones; but every task takes level 0 as its source,
  -- whichever level that is.
  pub get_compaction_tasks-FromFirst :
      (layout : LayoutPolicy)
      → layout ≢ leveling
      → (v : ReconstructionVector) × (get_compaction_tasks I prop s layout ≡ some v)
        × FromFirst v.tasks
        × (ltb 0 (length v.tasks) ≡ not (validate_tombstone_proportion I prop s))
  unfolding get_compaction_tasks validate_tombstone_proportion compact_from Option.bind
  get_compaction_tasks-FromFirst layout other =
      elim (Bool-cases (validate_from I prop s s.levels 0)) [
        | inl kept ↦ (no_tasks, rw kept refl, tt, rw kept refl)
        | inr broken ↦
            let (idx, found, some_level) = violation_found s.levels 0 broken in
            let target =
              target_or_grow layout s (find_reconstruction_target layout idx s.current_state)
                s.current_state in
            let (v, runs, first, size) =
              loop-FromFirst layout target.1 target.0 no_tasks other tt in
            let more : ltb 0 (length v.tasks) ≡ true =
              ground (arith, size, target_or_grow-positive layout idx s.current_state some_level) in
            (v, rw (broken, found) runs, first, rw broken more)
      ]
