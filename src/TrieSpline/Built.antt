-- ===== src/TrieSpline/Built.antt =====
-- What the constructor of include/shard/TrieSpline.h from a buffer establishes.
use mathlib.Core.List.{Perm}
use dynamic_extension.Base.{
  ℕ, ◌<◌, ◌≤◌, ◌≡◌, refl, sym, subst, none, some, List, [], ◌∷◌, arith, length, ltb, lt→ltb,
  if◌then◌else◌,
}
use dynamic_extension.Bloom.{Bloom}
use dynamic_extension.Record.{Wrapped, rec_lt}
use dynamic_extension.Record.Net.{SameNet, tombstones, length-sum_by, sum_by-Perm}
use dynamic_extension.Merge.{MergeInfo, sorted_array_from_bufferview}
use dynamic_extension.Merge.Scan.{Untagged}
use dynamic_extension.Merge.Array.{
  IsSorted, IsOrdered, IsOrdered→IsSorted, survivors-All, scan-survivors, array-SameNet,
  array-IsSorted, array-counts,
}
use dynamic_extension.TrieSpline.{
  Spline, TrieSpline, Within, keys_of, lowest, highest, last_key, from_info, from_sorted, of_view,
}

-- The invariant of a shard: the array is sorted, its tombstones are counted, its keys lie between
-- `m_min_key` and `m_max_key`, and in the range of the builder, whose spline it has if it is long.
pub record IsSplined {X : Type 0} (I : Spline X) (t : TrieSpline X) : Type 0 where
  pub lo : ℕ
  pub hi : ℕ
  pub sorted : IsSorted t.records
  pub counted : t.tombstone_cnt ≡ tombstones t.records
  pub bounded : Within t.min_key t.max_key t.records
  pub built_over : Within lo hi t.records
  pub splined : 50 < length t.records → t.ts ≡ I.build lo hi (keys_of t.records)

lowest-le : (ws : List Wrapped) (m : ℕ) → lowest m ws ≤ m
unfolding lowest
lowest-le [] m = omega arith
lowest-le (w ∷ ws) m = ground (arith, lowest-le ws m, lowest-le ws w.rec.key)

highest-ge : (ws : List Wrapped) (m : ℕ) → m ≤ highest m ws
unfolding highest
highest-ge [] m = omega arith
highest-ge (w ∷ ws) m = ground (arith, highest-ge ws m, highest-ge ws w.rec.key)

-- What the loop leaves in `m_min_key` and `m_max_key` bounds the keys.
extremes-Within :
    (ws : List Wrapped) (l h a b : ℕ) → a ≤ lowest h ws → highest l ws ≤ b → Within a b ws
unfolding lowest highest
extremes-Within [] l h a b p q = tt
extremes-Within (w ∷ ws) l h a b p q =
    let l' = if ltb l w.rec.key then w.rec.key else l in
    let h' = if ltb w.rec.key h then w.rec.key else h in
    (ground (arith, lowest-le ws h', highest-ge ws l'), extremes-Within ws l' h' a b p q)

last_key-ge :
    (w : Wrapped) (ws : List Wrapped) → IsSorted (w ∷ ws) → w.rec.key ≤ last_key w.rec.key ws
unfolding last_key rec_lt
last_key-ge w [] s = omega arith
last_key-ge w (v ∷ ws) s = ground (arith, last_key-ge v ws s.1)

-- A sorted array lies between its first and its last key.
sorted-Within :
    (a : ℕ) (w : Wrapped) (ws : List Wrapped)
    → a ≤ w.rec.key
    → IsSorted (w ∷ ws)
    → Within a (last_key w.rec.key ws) (w ∷ ws)
unfolding last_key rec_lt
sorted-Within a w [] h s = ((h, omega arith), tt)
sorted-Within a w (v ∷ ws) h s =
    ((h, ground (arith, last_key-ge v ws s.1)), sorted-Within a v ws (ground arith) s.1)

module _ {X : Type 0} (I : Spline X) where
  pub from_info-IsSplined :
      {F : Type 0} (lo hi : ℕ) (info : MergeInfo F)
      → IsSorted info.buffer
      → info.tombstone_count ≡ tombstones info.buffer
      → Within lo hi info.buffer
      → IsSplined I (from_info I lo hi info)
  unfolding from_info
  from_info-IsSplined lo hi info s c w = record {
    lo = lo;
    hi = hi;
    sorted = s;
    counted = c;
    bounded = extremes-Within info.buffer lo hi _ _ (omega arith) (omega arith);
    built_over = w;
    splined = λ h. rw (lt→ltb 50 (length info.buffer) h) refl;
  }

length_Perm : (xs ys : List Wrapped) → Perm xs ys → 0 < length xs → 0 < length ys
length_Perm xs ys p h =
    omega (arith, length-sum_by xs, length-sum_by ys, sum_by-Perm (λ _. 1) xs ys p)

module _ {X F : Type 0} (I : Spline X) (b : Bloom F) (sort : List Wrapped → List Wrapped)
    (permutes : (xs : List Wrapped) → Perm xs (sort xs))
    (orders : (xs : List Wrapped) → IsOrdered (sort xs)) where
  -- The records that the scan keeps are among the sorted ones.
  array-Within :
      (lo hi : ℕ) (records : List Wrapped)
      → Within lo hi (sort records)
      → Within lo hi (sorted_array_from_bufferview b sort records none).buffer
  unfolding sorted_array_from_bufferview
  array-Within lo hi records w =
      subst (Within lo hi) (sym (scan-survivors b _ (sort records)))
        (survivors-All (λ r. (lo ≤ r.key) × (r.key ≤ hi)) (sort records) w)

  from_sorted-IsSplined :
      (records sorted : List Wrapped)
      → sorted ≡ sort records
      → 0 < length sorted
      → (t : TrieSpline X) × (from_sorted I
            (sorted_array_from_bufferview b sort records none)
            sorted
          ≡ some t)
        × IsSplined I t
        × (t.records ≡ (sorted_array_from_bufferview b sort records none).buffer)
  unfolding from_sorted from_info
  from_sorted-IsSplined records [] e h = absurd (omega arith)
  from_sorted-IsSplined records (w ∷ ws) e h =
      let info = sorted_array_from_bufferview b sort records none in
      let order = subst IsSorted (sym e) (IsOrdered→IsSorted (sort records) (orders records)) in
      let range = sorted-Within w.rec.key w ws (omega arith) order in
      (
        from_info I w.rec.key (last_key w.rec.key ws) info,
        refl,
        from_info-IsSplined I w.rec.key (last_key w.rec.key ws) info
            (array-IsSorted b sort orders records none) (array-counts b sort records none)
            (array-Within w.rec.key (last_key w.rec.key ws) records (subst (Within _ _) e range)),
        refl,
      )

  -- If std::sort permutes and orders its input, a shard is built from records, one at least, without
  -- delete tags. It is sorted, counts its tombstones, has the net content of the records, its keys
  -- lie between `m_min_key` and `m_max_key`, and the builder was given keys in its range only.
  pub of_view-IsSplined :
      (records : List Wrapped)
      → 0 < length records
      → Untagged records
      → (t : TrieSpline X) × (of_view I b sort records ≡ some t)
        × IsSplined I t
        × SameNet records t.records
  unfolding of_view
  of_view-IsSplined records h u =
      let (t, e, i, same) =
        from_sorted-IsSplined records (sort records) refl
          (length_Perm records (sort records) (permutes records) h) in
      (t, e, i, subst (SameNet records) (sym same) (array-SameNet b sort permutes records none u))
