-- ===== src/Structure/Net.antt =====
-- What a structure amounts to (ExtensionStructure.h), which reconstructions and flushes keep.
use mathlib.Core.Option
use dynamic_extension.Base.{
  ℕ, zero, suc, ◌+◌, ◌≤◌, ◌<◌, ◌≡◌, ◌≢◌, ◌⊎◌, refl, sym, ap, subst, some, none, List, [], ◌∷◌, ◌++◌,
  arith, ltb, leb, ◌==◌, if◌then◌else◌, length, get_or, set, get_or-set_ne, length-set,
  length-append, Bool-cases, inl, inr,
}
use dynamic_extension.Record.{Record, Wrapped}
use dynamic_extension.Record.Net.{
  SameNet, SameNet-append, SameNet-trans, sum_by, sum_by-append, insert_of, erasure_of, inserts,
  erasures,
}
use dynamic_extension.Merge.Scan.{Untagged}
use dynamic_extension.Shard.{ShardInterface, ShardLaws}
use dynamic_extension.Level
use dynamic_extension.Level.{
  Level, make_level, present, finalize, append_level, append_buffer, get_shard_count, single,
}
use dynamic_extension.Level.Contents.{
  records, Mergeable, records_none, finalize-settled, single-IsWell, make_level-empty, IsWell,
  append_level-SameNet, reconstruction-SameNet, append_buffer-SameNet,
}
use dynamic_extension.Structure.{LayoutPolicy, leveling, teiring, bsm, Structure, shard_capacity}
use dynamic_extension.Structure.Apply.{
  level_at, combine_levels, ensure_level, install, reconstruction, flush_level,
  flush_buffer_into_l0, install_l0,
}

module _ {S : Type 0} {I : ShardInterface S} (W : ShardLaws I) where
  -- A sum over all the records of the levels.
  unfoldable pub total : (Wrapped → ℕ) → List (Level S) → ℕ
  total f [] = 0
  total f (l ∷ ls) = sum_by f (records W l) + total f ls

  abbrev pub AllWell : List (Level S) → Type 0
  AllWell [] = Unit
  AllWell (l ∷ ls) = IsWell W l × AllWell ls

  -- The levels insert each record as often as others do, once the erasures are taken off.
  abbrev pub SameLevels : List (Level S) → List (Level S) → Type 0
  SameLevels ls ls' =
      (r : Record)
      → total (insert_of r) ls + total (erasure_of r) ls'
        ≡ total (insert_of r) ls' + total (erasure_of r) ls

  total-set :
      (f : Wrapped → ℕ) (ls : List (Level S)) (i : ℕ) (l : Level S)
      → i < length ls
      → total f (set ls i l) + sum_by f (records W (level_at ls i))
        ≡ total f ls + sum_by f (records W l)
  unfolding total
  total-set f [] i l h = absurd (omega arith)
  total-set f (x ∷ ls) zero l h = omega arith
  total-set f (x ∷ ls) (suc i) l h = omega (arith, total-set f ls i l (omega arith))

  level_at-set_ne :
      (ls : List (Level S)) (i j : ℕ) (l : Level S)
      → i ≢ j
      → level_at (set ls i l) j ≡ level_at ls j
  level_at-set_ne ls i j l h = get_or-set_ne ls i j l (make_level 0 0) h

  AllWell-at : (ls : List (Level S)) (i : ℕ) → i < length ls → AllWell ls → IsWell W (level_at ls i)
  AllWell-at [] i h w = absurd (omega arith)
  AllWell-at (x ∷ ls) zero h w = w.0
  AllWell-at (x ∷ ls) (suc i) h w = AllWell-at ls i (omega arith) w.1

  AllWell-set :
      (ls : List (Level S)) (i : ℕ) (l : Level S) → AllWell ls → IsWell W l → AllWell (set ls i l)
  AllWell-set [] i l w v = tt
  AllWell-set (x ∷ ls) zero l w v = (v, w.1)
  AllWell-set (x ∷ ls) (suc i) l w v = (w.0, AllWell-set ls i l w.1 v)

  -- Two levels replaced by one that has the net content of both, and by an empty one.
  install-SameLevels :
      (ls : List (Level S)) (base incoming cap : ℕ) (combined : Level S)
      → base ≢ incoming
      → base < length ls
      → incoming < length ls
      → SameNet
          (records W (level_at ls base) ++ records W (level_at ls incoming))
          (records W combined)
      → SameLevels ls (set (set ls base combined) incoming (make_level incoming cap))
  unfolding sum_by
  install-SameLevels ls base incoming cap combined apart h k net r = omega (
    arith,
    net r,
    sum_by-append (insert_of r) (records W (level_at ls base)) (records W (level_at ls incoming)),
    sum_by-append (erasure_of r) (records W (level_at ls base)) (records W (level_at ls incoming)),
    replaced (insert_of r),
    replaced (erasure_of r),
  )
    where
      replaced :
          (f : Wrapped → ℕ)
          → total f (set (set ls base combined) incoming (make_level incoming cap))
              + sum_by f (records W (level_at ls incoming))
              + sum_by f (records W (level_at ls base))
            ≡ total f ls + sum_by f (records W combined)
      replaced f = omega (
        arith,
        total-set f (set ls base combined) incoming (make_level incoming cap)
            (rw (length-set ls base combined) k),
        total-set f ls base combined h,
        ap (λ l. sum_by f (records W l)) (level_at-set_ne ls base incoming combined apart),
        ap (sum_by f) (make_level-empty W incoming cap).0,
      )

  -- Adding an empty level at the bottom changes no sum.
  total-append :
      (f : Wrapped → ℕ) (ls : List (Level S)) (level_no size : ℕ)
      → total f (ls ++ make_level level_no size ∷ []) ≡ total f ls
  unfolding total sum_by
  total-append f [] level_no size =
      omega (arith, ap (sum_by f) (make_level-empty W level_no size).0)
  total-append f (l ∷ ls) level_no size = omega (arith, total-append f ls level_no size)

  AllWell-append :
      (ls : List (Level S)) (level_no size : ℕ)
      → AllWell ls
      → AllWell (ls ++ make_level level_no size ∷ [])
  AllWell-append [] level_no size w = ((make_level-empty W level_no size).1, tt)
  AllWell-append (l ∷ ls) level_no size w = (w.0, AllWell-append ls level_no size w.1)

  ensure_level-keeps :
      (layout : LayoutPolicy) (s : Structure S) (base : ℕ)
      → AllWell s.levels
      → AllWell (ensure_level I layout s base).levels
        × ((f : Wrapped → ℕ) → total f (ensure_level I layout s base).levels ≡ total f s.levels)
  unfolding ensure_level
  ensure_level-keeps layout s base w = elim (Bool-cases (leb (length s.levels) base)) [
    | inl e ↦ rw e (AllWell-append s.levels base _ w, λ f. total-append f s.levels base _)
    | inr e ↦ rw e (w, λ f. refl)
  ]

  -- What one level of the structure with room for the incoming one amounts to, by layout.
  abbrev pub CanCombine : LayoutPolicy → Level S → Level S → Type 0
  CanCombine leveling base incoming =
      (length base.shards ≡ 1)
      × (length incoming.shards ≡ 1)
      × ((incoming.level_no < base.level_no) ⊎ ((base.level_no ≡ 0) × (incoming.level_no ≡ 0)))
      × (0 < base.shard_cnt
          → Mergeable W (get_or base.shards 0 none ∷ get_or incoming.shards 0 none ∷ []))
  CanCombine _ base incoming =
      (base.shard_cnt < length base.shards)
      × (0 < incoming.shard_cnt → Mergeable W (present incoming.shards))

  ensure_level-bounds :
      (layout : LayoutPolicy) (s : Structure S) (base incoming : ℕ)
      → base ≤ length s.levels
      → incoming < length s.levels
      → (base < length (ensure_level I layout s base).levels)
        × (incoming < length (ensure_level I layout s base).levels)
  unfolding ensure_level
  ensure_level-bounds layout s base incoming h k =
      ground (
        arith,
        length-append s.levels (make_level base (shard_capacity layout s.scale_factor) ∷ []),
      )

  combine_levels-SameNet :
      (layout : LayoutPolicy) (base incoming : Level S)
      → IsWell W base
      → IsWell W incoming
      → CanCombine layout base incoming
      → (l : Level S) × (combine_levels I layout base incoming ≡ some l)
        × SameNet (records W base ++ records W incoming) (records W l)
        × IsWell W l
  unfolding combine_levels get_shard_count
  combine_levels-SameNet leveling base incoming w v c = elim (Bool-cases (ltb 0 base.shard_cnt)) [
    | inl e ↦ rw e (reconstruction-SameNet W base incoming w v c.0 c.1 c.2 (c.3 (ground arith)))
    | inr e ↦ rw e (incoming, refl, rw (records_none W base w (ground arith)) (λ r. refl), v)
  ]
  combine_levels-SameNet teiring base incoming w v c =
      let (l, done, net, well) = append_level-SameNet W base incoming w v c.0 c.1 in
      (l, rw (done, finalize-settled W l well) refl, net, well)
  combine_levels-SameNet bsm base incoming w v c =
      let (l, done, net, well) = append_level-SameNet W base incoming w v c.0 c.1 in
      (l, rw (done, finalize-settled W l well) refl, net, well)

  -- Moving a level into another one that has room (or, at the bottom, into a new one), with no null or
  -- empty shard among those that are merged, succeeds. It keeps the net content of the structure,
  -- under every layout, and the levels well formed.
  pub reconstruction-SameLevels :
      (layout : LayoutPolicy) (s : Structure S) (base incoming : ℕ)
      → base ≢ incoming
      → base ≤ length s.levels
      → incoming < length s.levels
      → AllWell s.levels
      → CanCombine layout
          (level_at (ensure_level I layout s base).levels base)
          (level_at (ensure_level I layout s base).levels incoming)
      → (s' : Structure S) × (reconstruction I layout s base incoming ≡ some s')
        × SameLevels s.levels s'.levels
        × AllWell s'.levels
  unfolding reconstruction install
  reconstruction-SameLevels layout s base incoming apart low there w c =
      let s1 = ensure_level I layout s base in
      let (w1, same) = ensure_level-keeps layout s base w in
      let (h, k) = ensure_level-bounds layout s base incoming low there in
      let (l, done, net, well) =
        combine_levels-SameNet layout (level_at s1.levels base) (level_at s1.levels incoming)
          (AllWell-at s1.levels base h w1) (AllWell-at s1.levels incoming k w1) c in
      let step =
        install-SameLevels s1.levels base incoming (shard_capacity layout s1.scale_factor) l apart h
          k net in
      (
        install I layout s1 base incoming l,
        rw done refl,
        (λ r. omega (arith, step r, same (insert_of r), same (erasure_of r))),
        AllWell-set (set s1.levels base l) incoming _ (AllWell-set s1.levels base l w1 well)
            (make_level-empty W incoming _).1,
      )

  -- What level 0 must be to take a flush, by layout.
  abbrev pub CanFlush : LayoutPolicy → Level S → List Wrapped → Type 0
  CanFlush leveling old ws =
      (length old.shards ≡ 1)
      × (old.level_no ≡ 0)
      × (0 < old.shard_cnt → Mergeable W (get_or old.shards 0 none ∷ some (I.of_view ws) ∷ []))
  CanFlush _ old ws = old.shard_cnt < length old.shards

  flush_level-SameNet :
      (layout : LayoutPolicy) (old : Level S) (ws : List Wrapped)
      → IsWell W old
      → Untagged ws
      → CanFlush layout old ws
      → (l : Level S) × (flush_level I layout old ws ≡ some l)
        × SameNet (records W old ++ ws) (records W l)
        × IsWell W l
  unfolding flush_level get_shard_count append_buffer make_level Option.bind Level.reconstruction
  flush_level-SameNet leveling old ws w clean c =
      let (held, well) = single-IsWell W 0 (I.of_view ws) (W.of_view-Untagged ws clean) in
      let flushed : SameNet ws (records W (single 0 (I.of_view ws))) =
        subst (λ t. SameNet ws t) (sym held) (W.of_view-SameNet ws clean) in
      elim (Bool-cases (ltb 0 old.shard_cnt)) [
        | inl e ↦
            let (l, done, net, ok) =
              reconstruction-SameNet W old (single 0 (I.of_view ws)) w well c.0 refl
                (inr (c.1, refl)) (c.2 (ground arith)) in
            (
              l,
              rw e done,
              SameNet-trans (records W old ++ ws)
                  (records W old ++ records W (single 0 (I.of_view ws))) (records W l)
                  (SameNet-append (records W old) (records W old) ws _ (λ r. refl) flushed) net,
              ok,
            )
        | inr e ↦ (
          single 0 (I.of_view ws),
          rw e refl,
          rw (records_none W old w (ground arith)) flushed,
          well,
        )
      ]
  flush_level-SameNet teiring old ws w clean c = append_buffer-SameNet W old ws w clean c
  flush_level-SameNet bsm old ws w clean c = append_buffer-SameNet W old ws w clean c

  -- The structure as `flush_buffer_into_l0` finds it: with a level 0.
  abbrev pub with_level_0 : LayoutPolicy → Structure S → Structure S
  with_level_0 layout s = if length s.levels == 0 then ensure_level I layout s 0 else s

  with_level_0-keeps :
      (layout : LayoutPolicy) (s : Structure S)
      → AllWell s.levels
      → AllWell (with_level_0 layout s).levels
        × (0 < length (with_level_0 layout s).levels)
        × ((f : Wrapped → ℕ) → total f (with_level_0 layout s).levels ≡ total f s.levels)
  unfolding ensure_level
  with_level_0-keeps layout s w = elim (Bool-cases (length s.levels == 0)) [
    | inl e ↦
        let (w1, same) = ensure_level-keeps layout s 0 w in
        rw e (
          w1,
          ground (
            arith,
            length-append s.levels (make_level 0 (shard_capacity layout s.scale_factor) ∷ []),
          ),
          same,
        )
    | inr e ↦ rw e (w, ground arith, λ f. refl)
  ]

  pub flush_buffer_into_l0-adds :
      (layout : LayoutPolicy) (s : Structure S) (ws : List Wrapped)
      → AllWell s.levels
      → Untagged ws
      → CanFlush layout (level_at (with_level_0 layout s).levels 0) ws
      → (s' : Structure S) × (flush_buffer_into_l0 I layout s ws ≡ some s')
        × ((r : Record)
            → total (insert_of r) s.levels + inserts r ws + total (erasure_of r) s'.levels
              ≡ total (insert_of r) s'.levels + (total (erasure_of r) s.levels + erasures r ws))
        × AllWell s'.levels
  unfolding flush_buffer_into_l0 install_l0
  flush_buffer_into_l0-adds layout s ws w clean c =
      let s1 = with_level_0 layout s in
      let (w1, nonempty, same) = with_level_0-keeps layout s w in
      let old = level_at s1.levels 0 in
      let (l, done, net, well) =
        flush_level-SameNet layout old ws (AllWell-at s1.levels 0 nonempty w1) clean c in
      (
        install_l0 I s1 l,
        rw done refl,
        (λ r. omega (
          arith,
          net r,
          same (insert_of r),
          same (erasure_of r),
          total-set (insert_of r) s1.levels 0 l nonempty,
          total-set (erasure_of r) s1.levels 0 l nonempty,
          sum_by-append (insert_of r) (records W old) ws,
          sum_by-append (erasure_of r) (records W old) ws,
        )),
        AllWell-set s1.levels 0 l w1 well,
      )
