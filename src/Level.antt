-- ===== src/Level.antt =====
-- include/framework/structure/InternalLevel.h: a level, which is a vector of shards.
pub mod Slots
pub mod Contents
use mathlib.Core.Option
use dynamic_extension.Base.{
  ℕ, zero, suc, ◌+◌, ◌-◌, ◌*◌, Bool, true, false, ◌&&◌, ◌||◌, Option, none, some, List, [], ◌∷◌,
  ◌++◌, ltb, leb, ◌==◌, if◌then◌else◌, length, get_or, set, replicate,
}
use dynamic_extension.Record.{Record, Wrapped, is_tombstone}
use dynamic_extension.Shard.{ShardInterface}

-- `shards` has one pointer for each slot. The pending shard is one that found no slot.
pub record Level (S : Type 0) : Type 0 where
  pub level_no : ℕ
  pub shard_cnt : ℕ
  pub shards : List (Option S)
  pub pending_shard : Option S

module _ {S : Type 0} where
  unfoldable pub make_level : ℕ → ℕ → Level S
  make_level level_no shard_cap = record {
    level_no = level_no;
    shard_cnt = 0;
    shards = replicate shard_cap none;
    pending_shard = none;
  }

  -- The pointers that are not null.
  unfoldable pub present : List (Option S) → List (Option S)
  present [] = []
  present (none ∷ ss) = present ss
  present (some s ∷ ss) = some s ∷ present ss

  -- A level of one shard, as both forms of `reconstruction` build it.
  abbrev pub single : ℕ → S → Level S
  single level_no s = record {
    level_no = level_no;
    shard_cnt = 1;
    shards = some s ∷ [];
    pending_shard = none;
  }

  unfoldable pub collect : List (Level S) → List (Option S)
  collect [] = []
  collect (l ∷ ls) = present l.shards ++ collect ls

  unfoldable pub get_shard : Level S → ℕ → Option S
  get_shard l idx = if leb l.shard_cnt idx then none else get_or l.shards idx none

  unfoldable pub get_shard_count : Level S → ℕ
  get_shard_count l = l.shard_cnt

  unfoldable pub finalize : Level S → Level S
  finalize l = elim l.pending_shard [
    | none ↦ l
    | some s ↦ record l {
      shards = set (replicate (length l.shards) none) 0 (some s);
      pending_shard = none;
      shard_cnt = 1;
    }
  ]

  -- `for (i = 0; i < cnt; i++) if (shards[i]) total += f(shards[i])`
  unfoldable pub sum_shards : (S → ℕ) → List (Option S) → ℕ → ℕ
  sum_shards f ss zero = 0
  sum_shards f [] (suc n) = 0
  sum_shards f (none ∷ ss) (suc n) = sum_shards f ss n
  sum_shards f (some s ∷ ss) (suc n) = f s + sum_shards f ss n

  -- The slots below `n` are copied, the others are null.
  unfoldable pub copy_slots : List (Option S) → ℕ → List (Option S)
  copy_slots [] n = []
  copy_slots (s ∷ ss) zero = none ∷ copy_slots ss zero
  copy_slots (s ∷ ss) (suc n) = s ∷ copy_slots ss n

  unfoldable pub clone : Level S → Level S
  clone l = record {
    level_no = l.level_no;
    shard_cnt = l.shard_cnt;
    shards = copy_slots l.shards l.shard_cnt;
    pending_shard = none;
  }

module _ {S : Type 0} (I : ShardInterface S) where
  -- The form of two levels; `none` is the failed assertion, or a constructor that fails.
  unfoldable pub reconstruction : Level S → Level S → Option (Level S)
  reconstruction base new =
      if ltb new.level_no base.level_no || (base.level_no == 0 && new.level_no == 0)
      then Option.map (single base.level_no)
          (I.of_shards (get_or base.shards 0 none ∷ get_or new.shards 0 none ∷ []))
      else none

  -- The form of a vector of levels.
  unfoldable pub reconstruction_all : List (Level S) → ℕ → Option (Level S)
  reconstruction_all levels level_idx = Option.map (single level_idx) (I.of_shards (collect levels))

  unfoldable pub append_level : Level S → Level S → Option (Level S)
  append_level l incoming =
      if incoming.shard_cnt == 0
      then some l
      else if l.shard_cnt == length l.shards
      then Option.map (λ s. record l { pending_shard = some s })
          (I.of_shards (present incoming.shards))
      else Option.map
          (λ s. record l {
            shards = set l.shards l.shard_cnt (some s);
            shard_cnt = l.shard_cnt + 1;
          })
          (I.of_shards (present incoming.shards))

  -- `records` is what the buffer view holds. The assertion of the first branch is `none`.
  unfoldable pub append_buffer : Level S → List Wrapped → Option (Level S)
  append_buffer l records =
      if l.shard_cnt == length l.shards
      then elim l.pending_shard [
        | some s ↦ none
        | none ↦ some (record l { pending_shard = some (I.of_view records) })
      ]
      else some (record l {
        shards = set l.shards l.shard_cnt (some (I.of_view records));
        shard_cnt = l.shard_cnt + 1;
      })

  -- The inner `none` is the null pointer.
  unfoldable pub get_combined_shard : Level S → Option (Option S)
  get_combined_shard l =
      if l.shard_cnt == 0
      then some none
      else Option.map (λ s. some s) (I.of_shards (present l.shards))

  unfoldable pub is_tombstone_in : S → Record → Bool
  is_tombstone_in s rec = elim (I.point_lookup s rec true false) [
    | none ↦ false
    | some w ↦ is_tombstone w
  ]

  abbrev pub slot_has_tombstone : Option S → Record → Bool
  slot_has_tombstone none rec = false
  slot_has_tombstone (some s) rec = is_tombstone_in s rec

  -- From slot `stop + n - 1` down to slot `stop`.
  unfoldable pub check_slots : List (Option S) → Record → ℕ → ℕ → Bool
  check_slots ss rec stop zero = false
  check_slots ss rec stop (suc n) =
      slot_has_tombstone (get_or ss (stop + n) none) rec || check_slots ss rec stop n

  unfoldable pub check_tombstone : Level S → ℕ → Record → Bool
  check_tombstone l shard_stop rec =
      if l.shard_cnt == 0
      then false
      else check_slots l.shards rec shard_stop (l.shard_cnt - shard_stop)

  -- The shards with the first match tagged, if there is one.
  unfoldable pub delete_in : List (Option S) → Record → Option (List (Option S))
  delete_in [] rec = none
  delete_in (none ∷ ss) rec = Option.map (λ t. none ∷ t) (delete_in ss rec)
  delete_in (some s ∷ ss) rec = elim (I.point_lookup s rec false false) [
    | some w ↦ some (some (I.tag s rec) ∷ ss)
    | none ↦ Option.map (λ t. some s ∷ t) (delete_in ss rec)
  ]

  unfoldable pub delete_record : Level S → Record → Bool × Level S
  delete_record l rec = if l.shard_cnt == 0 then (false, l) else elim (delete_in l.shards rec) [
    | none ↦ (false, l)
    | some ss ↦ (true, record l { shards = ss })
  ]

  unfoldable pub get_record_count : Level S → ℕ
  get_record_count l = sum_shards I.get_record_count l.shards l.shard_cnt

  unfoldable pub get_tombstone_count : Level S → ℕ
  get_tombstone_count l = sum_shards I.get_tombstone_count l.shards l.shard_cnt

  unfoldable pub get_aux_memory_usage : Level S → ℕ
  get_aux_memory_usage l = sum_shards I.get_aux_memory_usage l.shards l.shard_cnt

  unfoldable pub get_memory_usage : Level S → ℕ
  get_memory_usage l = sum_shards I.get_memory_usage l.shards l.shard_cnt
