-- ===== src/Level/Contents.antt =====
-- The records of a level (InternalLevel.h) and what the operations do to them.
use native.Mathlib.Numerals.{add-one}
use mathlib.Core.Option
use dynamic_extension.Base.{
  ℕ, zero, suc, ◌+◌, ◌<◌, ◌≡◌, ◌≢◌, ◌⊎◌, ltb, ◌||◌, ◌&&◌, refl, sym, ap, subst, ◌∙◌, true, false,
  Option, none, some, List, [], ◌∷◌, ◌++◌, arith, ◌==◌, length, get_or, set, replicate, append-nil,
  Bool-cases, inl, inr, length-append,
}
use dynamic_extension.Record.{Wrapped}
use dynamic_extension.Record.Net.{SameNet, SameNet-append}
use dynamic_extension.Merge.Scan.{Untagged}
use dynamic_extension.Shard.{ShardInterface, ShardLaws, all_records, AllLive}
use dynamic_extension.Level.{
  Level, make_level, present, single, finalize, sum_shards, append_level, append_buffer,
  get_record_count, reconstruction,
}
use dynamic_extension.Level.Slots.{
  Filled, Untagged-append, all_records-present, all_records-none, all_records-set, Filled-replicate,
  one_slot,
}

module _ {S : Type 0} {I : ShardInterface S} (W : ShardLaws I) where
  unfoldable pub records : Level S → List Wrapped
  records l = all_records W.contents l.shards

  -- The count is the number of leading slots in use, nothing is pending, no record is tagged.
  pub record IsWell (l : Level S) : Type 0 where
    pub filled : Filled l.shard_cnt l.shards
    pub settled : l.pending_shard ≡ none
    pub clean : Untagged (records l)

  -- There is a shard to merge, and none of them is null or empty.
  abbrev pub Mergeable : List (Option S) → Type 0
  Mergeable ss = AllLive W.contents ss × (0 < length ss)

  pub records_none : (l : Level S) → IsWell l → l.shard_cnt ≡ 0 → records l ≡ []
  unfolding records
  records_none l w e =
      all_records-none W.contents l.shards (subst (λ n. Filled n l.shards) e w.filled)

  -- In a level whose slots are filled from the front, the count that it reports is the number of
  -- its records.
  pub get_record_count-records :
      (l : Level S) → IsWell l → get_record_count I l ≡ length (records l)
  unfolding get_record_count records sum_shards all_records
  get_record_count-records l w = count_slots l.shard_cnt l.shards w.filled
    where
      count_slots :
          (n : ℕ) (ss : List (Option S))
          → Filled n ss
          → sum_shards I.get_record_count ss n ≡ length (all_records W.contents ss)
      count_slots zero ss h = sym (ap length (all_records-none W.contents ss h))
      count_slots (suc n) [] h = absurd h
      count_slots (suc n) (none ∷ ss) h = absurd h
      count_slots (suc n) (some s ∷ ss) h = omega (
        arith,
        W.count_lem s,
        count_slots n ss h,
        length-append (W.contents s) (all_records W.contents ss),
      )

  -- A shard goes to the first free slot.
  put_shard :
      (l : Level S) (s : S)
      → IsWell l
      → Untagged (W.contents s)
      → l.shard_cnt < length l.shards
      → let l' = record l {
        shards = set l.shards l.shard_cnt (some s);
        shard_cnt = l.shard_cnt + 1;
      } in
        (records l' ≡ records l ++ W.contents s) × IsWell l'
  unfolding records
  put_shard l s w clean room =
      let (same, filled) = all_records-set W.contents l.shard_cnt l.shards s w.filled room in
      (
        same,
        record {
          filled =
              subst (λ n. Filled n (set l.shards l.shard_cnt (some s))) (sym (add-one l.shard_cnt))
                filled;
          settled = w.settled;
          clean =
              subst Untagged (sym same) (Untagged-append (records l) (W.contents s) w.clean clean);
        },
      )

  -- The shard that a level's shards are merged into.
  merged_shard :
      (l : Level S)
      → IsWell l
      → Mergeable (present l.shards)
      → (s : S) × (I.of_shards (present l.shards) ≡ some s)
        × SameNet (records l) (W.contents s)
        × Untagged (W.contents s)
  unfolding records
  merged_shard l w (live, some_shards) =
      let same = all_records-present W.contents l.shards in
      let (s, e, net, clean) =
        W.of_shards-SameNet (present l.shards) live some_shards
          (subst Untagged (sym same) w.clean) in
      (s, e, subst (λ t. SameNet t (W.contents s)) same net, clean)

  -- A level with a free slot takes the shards of another as one shard: its net content is then
  -- that of both, and it is well formed.
  pub append_level-SameNet :
      (l incoming : Level S)
      → IsWell l
      → IsWell incoming
      → l.shard_cnt < length l.shards
      → (0 < incoming.shard_cnt → Mergeable (present incoming.shards))
      → (l' : Level S) × (append_level I l incoming ≡ some l')
        × SameNet (records l ++ records incoming) (records l')
        × IsWell l'
  unfolding append_level
  append_level-SameNet l incoming w v room live = elim (Bool-cases (incoming.shard_cnt == 0)) [
    | inl e ↦ (
      l,
      rw e refl,
      rw (records_none incoming v (ground arith), append-nil (records l)) (λ r. refl),
      w,
    )
    | inr e ↦
        let free : (l.shard_cnt == length l.shards) ≡ false = ground arith in
        let (s, made, net, clean) = merged_shard incoming v (live (ground arith)) in
        let (same, well) = put_shard l s w clean room in
        (
          record l { shards = set l.shards l.shard_cnt (some s); shard_cnt = l.shard_cnt + 1 },
          rw (e, free, made) refl,
          rw same (SameNet-append (records l) (records l) (records incoming) _ (λ r. refl) net),
          well,
        )
  ]

  -- A level with a free slot takes the records of the buffer as one shard: its net content is then
  -- that of both, and it is well formed.
  pub append_buffer-SameNet :
      (l : Level S) (ws : List Wrapped)
      → IsWell l
      → Untagged ws
      → l.shard_cnt < length l.shards
      → (l' : Level S) × (append_buffer I l ws ≡ some l')
        × SameNet (records l ++ ws) (records l')
        × IsWell l'
  unfolding append_buffer
  append_buffer-SameNet l ws w clean room =
      let free : (l.shard_cnt == length l.shards) ≡ false = ground arith in
      let (same, well) = put_shard l (I.of_view ws) w (W.of_view-Untagged ws clean) room in
      (
        record l {
          shards = set l.shards l.shard_cnt (some (I.of_view ws));
          shard_cnt = l.shard_cnt + 1;
        },
        rw free refl,
        rw same
            (SameNet-append (records l) (records l) ws _ (λ r. refl) (W.of_view-SameNet ws clean)),
        well,
      )

  -- Merging two levels of one slot each, where the assertion on their numbers holds, yields a level
  -- with the net content of both.
  pub reconstruction-SameNet :
      (base new : Level S)
      → IsWell base
      → IsWell new
      → length base.shards ≡ 1
      → length new.shards ≡ 1
      → (new.level_no < base.level_no) ⊎ ((base.level_no ≡ 0) × (new.level_no ≡ 0))
      → Mergeable (get_or base.shards 0 none ∷ get_or new.shards 0 none ∷ [])
      → (l' : Level S) × (reconstruction I base new ≡ some l')
        × SameNet (records base ++ records new) (records l')
        × IsWell l'
  unfolding reconstruction records all_records
  reconstruction-SameNet base new w v one one' numbers live =
      let two = get_or base.shards 0 none ∷ get_or new.shards 0 none ∷ [] in
      let same : all_records W.contents two ≡ records base ++ records new =
        one_slot W.contents base.shards (get_or new.shards 0 none ∷ []) one
        ∙ ap (λ t. records base ++ t)
            (one_slot W.contents new.shards [] one' ∙ append-nil (records new)) in
      let clean : Untagged (all_records W.contents two) =
        subst Untagged (sym same) (Untagged-append (records base) (records new) w.clean v.clean) in
      let (s, made, net, kept) = W.of_shards-SameNet two live.0 live.1 clean in
      let held : records (single base.level_no s) ≡ W.contents s = append-nil (W.contents s) in
      let fits : (ltb new.level_no base.level_no || (base.level_no == 0 && new.level_no == 0))
          ≡ true =
        ground arith in
      (
        single base.level_no s,
        rw (fits, made) refl,
        subst (λ t. SameNet (records base ++ records new) t) (sym held)
            (subst (λ t. SameNet t (W.contents s)) same net),
        record { filled = tt; settled = refl; clean = subst Untagged (sym held) kept },
      )

  -- A level that has no free slot loses its own records: after `append_level` and `finalize` it
  -- holds the shard made of the incoming level, and nothing else.
  pub append_level-full :
      (l incoming : Level S)
      → l.shard_cnt ≡ length l.shards
      → 0 < length l.shards
      → incoming.shard_cnt ≢ 0
      → (s : S) → I.of_shards (present incoming.shards) ≡ some s
      → Option.map (λ l'. records (finalize l')) (append_level I l incoming) ≡ some (W.contents s)
  unfolding append_level finalize records all_records
  append_level-full l incoming full some_slot more s made =
      let e : (incoming.shard_cnt == 0) ≡ false = ground arith in
      let e' : (l.shard_cnt == length l.shards) ≡ true = ground arith in
      rw (e, e', made) (ap some (only_first l.shards s some_slot))
    where
      only_first :
          (ss : List (Option S)) (s : S)
          → 0 < length ss
          → all_records W.contents (set (replicate (length ss) none) 0 (some s)) ≡ W.contents s
      only_first [] s p = absurd (omega arith)
      only_first (x ∷ ss) s p =
          ap (λ t. W.contents s ++ t)
            (all_records-none W.contents (replicate (length ss) none)
              (Filled-replicate W.contents (length ss)))
          ∙ append-nil (W.contents s)

  pub make_level-empty :
      (level_no size : ℕ)
      → (records (make_level level_no size) ≡ []) × IsWell (make_level level_no size)
  unfolding records make_level
  make_level-empty level_no size =
      let filled = Filled-replicate W.contents size in
      let none_there = all_records-none W.contents (replicate size none) filled in
      (
        none_there,
        record { filled = filled; settled = refl; clean = subst Untagged (sym none_there) tt },
      )

  -- `finalize` does nothing to a level with no pending shard.
  pub finalize-settled : (l : Level S) → IsWell l → finalize l ≡ l
  unfolding finalize
  finalize-settled l w = ground (arith, w.settled)

  -- A level of one shard.
  pub single-IsWell :
      (level_no : ℕ) (s : S)
      → Untagged (W.contents s)
      → (records (single level_no s) ≡ W.contents s) × IsWell (single level_no s)
  unfolding records all_records
  single-IsWell level_no s clean =
      let held = append-nil (W.contents s) in
      (held, record { filled = tt; settled = refl; clean = subst Untagged (sym held) clean })
