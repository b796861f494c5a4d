-- ===== src/TrieSpline/Merged.antt =====
-- What the constructor of include/shard/TrieSpline.h from other shards establishes.
use mathlib.Core.Option
use mathlib.Core.Option.{some_inj}
use dynamic_extension.Base.{
  ℕ, ◌<◌, ◌≤◌, ◌≡◌, refl, sym, ◌∙◌, subst, Option, none, some, List, [], ◌∷◌, map, not, ◌&&◌, arith,
  length, ltb, leb, if◌then◌else◌,
}
use dynamic_extension.Bloom.{Bloom}
use dynamic_extension.Record.{Wrapped}
use dynamic_extension.Record.Net.{SameNet, sum_by, sum_by-append, bit}
use dynamic_extension.Shard.{all_records}
use dynamic_extension.Merge.Scan.{Untagged}
use dynamic_extension.Merge.Array.{IsSorted}
use dynamic_extension.Merge.Queue.{PriorityQueue, QueueLaws}
use dynamic_extension.Merge.Disorder.{ArraysSorted}
use dynamic_extension.Merge.Loop.{NoEmpty, arrays}
use dynamic_extension.Merge.Merged.{sorted_array_merge-SameNet}
use dynamic_extension.Merge.Ordered.{sorted_array_merge-IsSorted}
use dynamic_extension.Merge.Within.{sorted_array_merge-free}
use dynamic_extension.Isam.Built.{NoEmpty-cons}
use dynamic_extension.TrieSpline.{Spline, TrieSpline, Within, max_of, min_of, from_info, of_shards}
use dynamic_extension.TrieSpline.Built.{IsSplined, from_info-IsSplined}

-- Whether a key lies outside of a range.
abbrev outside : (lo hi : ℕ) → Wrapped → ℕ
outside lo hi w = bit (not (leb lo w.rec.key && leb w.rec.key hi))

outside-Within : (lo hi : ℕ) (ws : List Wrapped) → sum_by (outside lo hi) ws ≡ 0 → Within lo hi ws
unfolding sum_by
outside-Within lo hi [] h = tt
outside-Within lo hi (w ∷ ws) h = (ground arith, outside-Within lo hi ws (omega arith))

Within-outside :
    (lo hi a b : ℕ) (ws : List Wrapped)
    → Within a b ws
    → lo ≤ a
    → b ≤ hi
    → sum_by (outside lo hi) ws ≡ 0
unfolding sum_by
Within-outside lo hi a b [] h p q = refl
Within-outside lo hi a b (w ∷ ws) h p q = ground (arith, Within-outside lo hi a b ws h.1 p q)

module _ {X : Type 0} where
  abbrev pub arrays_of : List (Option (TrieSpline X)) → List (Option (List Wrapped))
  arrays_of = map (Option.map (λ t. t.records))

  abbrev MaxBelow : ℕ → List (Option (TrieSpline X)) → Type 0
  MaxBelow hi [] = Unit
  MaxBelow hi (none ∷ ss) = ⊥
  MaxBelow hi (some t ∷ ss) = (t.max_key ≤ hi) × MaxBelow hi ss

  abbrev MinAbove : ℕ → List (Option (TrieSpline X)) → Type 0
  MinAbove lo [] = Unit
  MinAbove lo (none ∷ ss) = ⊥
  MinAbove lo (some t ∷ ss) = (lo ≤ t.min_key) × MinAbove lo ss

module _ {X : Type 0} (I : Spline X) where
  -- The shards of a merge are built, and none of them is null or empty.
  abbrev pub AllSplined : List (Option (TrieSpline X)) → Type 0
  AllSplined [] = Unit
  AllSplined (none ∷ ss) = ⊥
  AllSplined (some t ∷ ss) = IsSplined I t × (0 < length t.records) × AllSplined ss

  AllSplined-NoEmpty : (ss : List (Option (TrieSpline X))) → AllSplined ss → NoEmpty (arrays_of ss)
  AllSplined-NoEmpty [] h = tt
  AllSplined-NoEmpty (none ∷ ss) h = absurd h
  AllSplined-NoEmpty (some t ∷ ss) h =
      NoEmpty-cons t.records (arrays_of ss) h.1 (AllSplined-NoEmpty ss h.2)

  AllSplined-ArraysSorted :
      (ss : List (Option (TrieSpline X))) → AllSplined ss → ArraysSorted (arrays_of ss)
  AllSplined-ArraysSorted [] h = tt
  AllSplined-ArraysSorted (none ∷ ss) h = absurd h
  AllSplined-ArraysSorted (some t ∷ ss) h = (h.0.sorted, AllSplined-ArraysSorted ss h.2)

  -- The greatest of the greatest keys, and the least of the least ones, are found.
  max_of-lem :
      (ss : List (Option (TrieSpline X))) (m : ℕ)
      → AllSplined ss
      → (hi : ℕ) × (max_of m ss ≡ some hi) × (m ≤ hi) × MaxBelow hi ss
  unfolding max_of
  max_of-lem [] m h = (m, refl, omega arith, tt)
  max_of-lem (none ∷ ss) m h = absurd h
  max_of-lem (some t ∷ ss) m h =
      let (hi, e, p, q) = max_of-lem ss (if ltb m t.max_key then t.max_key else m) h.2 in
      (hi, e, ground arith, (ground arith, q))

  min_of-lem :
      (ss : List (Option (TrieSpline X))) (m : ℕ)
      → AllSplined ss
      → (lo : ℕ) × (min_of m ss ≡ some lo) × (lo ≤ m) × MinAbove lo ss
  unfolding min_of
  min_of-lem [] m h = (m, refl, omega arith, tt)
  min_of-lem (none ∷ ss) m h = absurd h
  min_of-lem (some t ∷ ss) m h =
      let (lo, e, p, q) = min_of-lem ss (if ltb t.min_key m then t.min_key else m) h.2 in
      (lo, e, ground arith, (ground arith, q))

  arrays-outside :
      (lo hi : ℕ) (ss : List (Option (TrieSpline X)))
      → AllSplined ss
      → MaxBelow hi ss
      → MinAbove lo ss
      → sum_by (outside lo hi) (arrays (arrays_of ss)) ≡ 0
  unfolding all_records sum_by
  arrays-outside lo hi [] h p q = refl
  arrays-outside lo hi (none ∷ ss) h p q = absurd h
  arrays-outside lo hi (some t ∷ ss) h p q = omega (
    arith,
    sum_by-append (outside lo hi) t.records (arrays (arrays_of ss)),
    Within-outside lo hi t.min_key t.max_key t.records h.0.bounded q.0 p.0,
    arrays-outside lo hi ss h.2 p.1 q.1,
  )

module _ {X Q F : Type 0} (I : Spline X) (P : PriorityQueue Q) (L : QueueLaws P) (b : Bloom F) where
  -- Building a shard from shards, one at least, that are built, neither null nor empty, and without
  -- delete tags ends. The new shard is sorted, has no delete tags and the net content of all, its
  -- keys lie between `m_min_key` and `m_max_key`, and the builder was given keys in its range only.
  pub of_shards-IsSplined :
      (ss : List (Option (TrieSpline X)))
      → 0 < length ss
      → AllSplined I ss
      → Untagged (arrays (arrays_of ss))
      → (t : TrieSpline X) × (of_shards I P b ss ≡ some t)
        × IsSplined I t
        × Untagged t.records
        × SameNet (arrays (arrays_of ss)) t.records
  unfolding of_shards from_info Option.bind
  of_shards-IsSplined [] z h u = absurd (omega arith)
  of_shards-IsSplined (none ∷ ss) z h u = absurd h
  of_shards-IsSplined (some s ∷ ss) z h u =
      let all = some s ∷ ss in
      let arr = arrays_of all in
      let n = AllSplined-NoEmpty I all h in
      let (hi, eh, p, above) = max_of-lem I all s.max_key h in
      let (lo, el, q, below) = min_of-lem I all s.min_key h in
      let (out, e, net, clean, count) = sorted_array_merge-SameNet P L b arr none n u in
      let (out1, e1, order) =
        sorted_array_merge-IsSorted P L b arr none n (AllSplined-ArraysSorted I all h) in
      let (out2, e2, free) =
        sorted_array_merge-free P L b (outside lo hi) arr none n
          (arrays-outside I lo hi all h above below) in
      (
        from_info I lo hi out,
        rw (eh, el, e) refl,
        from_info-IsSplined I lo hi out
            (subst (λ i. IsSorted i.buffer) (some_inj.0 (sym e1 ∙ e)) order) count
            (outside-Within lo hi out.buffer
              (subst (λ i. sum_by (outside lo hi) i.buffer ≡ 0) (some_inj.0 (sym e2 ∙ e)) free)),
        clean,
        net,
      )
