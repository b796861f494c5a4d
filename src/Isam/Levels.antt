-- ===== src/Isam/Levels.antt =====
-- The nodes that `build_internal_levels` of include/shard/ISAMTree.h builds above a sorted array.
use dynamic_extension.Base.{
  ℕ, zero, suc, ◌+◌, ◌-◌, ◌*◌, ◌<◌, ◌≤◌, ◌≡◌, refl, min, List, arith, length, ltb, Bool-cases, inl,
  inr, ◌⊎◌,
}
use dynamic_extension.Record.{Wrapped}
use dynamic_extension.Merge.Array.{IsSorted}
use dynamic_extension.KeySearch.Split.{key_at, key_at_mono}
use dynamic_extension.Isam.Nodes.{Child, leaf, Entries, nil, entry, child_count, key_of, fill}
use dynamic_extension.Isam.Descent.{first, Bounds, IsSearchable, AreSearchable}

pub entry-AreSearchable :
    (ws : List Wrapped) (k : ℕ) (c : Child) (e : Entries)
    → IsSearchable ws c
    → (e ≡ nil) ⊎ (Bounds ws k (first e) × AreSearchable ws e)
    → AreSearchable ws (entry k c e)
unfolding IsSearchable first
entry-AreSearchable ws k c nil h r = h
entry-AreSearchable ws k c (entry k' c' rest) h (inl e) = absurd (ground arith)
entry-AreSearchable ws k c (entry k' c' rest) h (inr (b, s)) = (h, b, s)

module _ (ws : List Wrapped) (internal_fanout leaf_fanout : ℕ) where
  abbrev pub filled : ℕ → ℕ → Entries
  filled = fill ws internal_fanout leaf_fanout

  abbrev sep_key : ℕ → ℕ
  sep_key p = key_at ws (min (p + leaf_fanout - 1) (length ws - 1))

  -- The pointer behind the records below a node.
  abbrev pub filled_to : ℕ → ℕ → ℕ
  filled_to i rec_ptr = rec_ptr + child_count (filled i rec_ptr) * leaf_fanout

  filled_some :
      (i p : ℕ)
      → p < length ws
      → filled (suc i) p ≡ entry (sep_key p) (leaf p) (filled i (p + leaf_fanout))
  unfolding fill
  filled_some i p h = ground arith

  filled_zero : (p : ℕ) → filled 0 p ≡ nil
  unfolding fill
  filled_zero p = refl

  filled_none : (i p : ℕ) → length ws ≤ p → filled i p ≡ nil
  unfolding fill
  filled_none zero p h = refl
  filled_none (suc i) p h = ground arith

  filled_to-suc : (i p : ℕ) → p < length ws → filled_to (suc i) p ≡ filled_to i (p + leaf_fanout)
  unfolding child_count
  filled_to-suc i p h = rw (filled_some i p h) (grind arith)

  first-filled : (i p : ℕ) → p < length ws → first (filled (suc i) p) ≡ p
  unfolding first
  first-filled i p h = rw (filled_some i p h) refl

module _ (ws : List Wrapped) (internal_fanout leaf_fanout : ℕ) (sorted : IsSorted ws)
    (full : 1 ≤ leaf_fanout) where
  -- The separator of a slot bounds the keys below it and before it, if others follow.
  separator-Bounds :
      (p : ℕ)
      → p + leaf_fanout < length ws
      → Bounds ws (sep_key ws internal_fanout leaf_fanout p) (p + leaf_fanout)
  separator-Bounds p h i l =
      let e : min (p + leaf_fanout - 1) (length ws - 1) ≡ p + leaf_fanout - 1 = ground arith in
      rw e (key_at_mono ws i (p + leaf_fanout - 1) sorted (omega arith) (omega arith))

  filled-AreSearchable :
      (i p : ℕ) → p < length ws → AreSearchable ws (filled ws internal_fanout leaf_fanout (suc i) p)
  unfolding IsSearchable
  filled-AreSearchable zero p h = rw (filled_some ws internal_fanout leaf_fanout 0 p h) (
      entry-AreSearchable ws (sep_key ws internal_fanout leaf_fanout p) (leaf p)
        (filled ws internal_fanout leaf_fanout 0 (p + leaf_fanout)) h
        (inl (filled_zero ws internal_fanout leaf_fanout (p + leaf_fanout))))
  filled-AreSearchable (suc i) p h = rw (filled_some ws internal_fanout leaf_fanout (suc i) p h) (
      entry-AreSearchable ws _ (leaf p) _ h (elim (Bool-cases (ltb (p + leaf_fanout) (length ws))) [
        | inl more ↦
            let l : p + leaf_fanout < length ws = ground arith in
            inr (
              rw (first-filled ws internal_fanout leaf_fanout i (p + leaf_fanout) l)
                  (separator-Bounds p l),
              filled-AreSearchable i (p + leaf_fanout) l,
            )
        | inr last ↦
            inl
              (filled_none ws internal_fanout leaf_fanout (suc i) (p + leaf_fanout) (ground arith))
      ]))

  -- If records are left behind a node, its last slot is filled and bounds the keys before them.
  filled-Bounds :
      (i p : ℕ)
      → filled_to ws internal_fanout leaf_fanout (suc i) p < length ws
      → Bounds ws
          (key_of i (filled ws internal_fanout leaf_fanout (suc i) p))
          (filled_to ws internal_fanout leaf_fanout (suc i) p)
  unfolding key_of child_count fill
  filled-Bounds zero p h =
      let l : p < length ws = omega arith in
      let e = filled_to-suc ws internal_fanout leaf_fanout 0 p l in
      rw (filled_some ws internal_fanout leaf_fanout 0 p l)
        (λ j k. separator-Bounds p (omega arith) j (omega arith))
  filled-Bounds (suc i) p h =
      let l : p < length ws = omega arith in
      let e = filled_to-suc ws internal_fanout leaf_fanout (suc i) p l in
      let ih = filled-Bounds i (p + leaf_fanout) (omega arith) in
      rw (filled_some ws internal_fanout leaf_fanout (suc i) p l) (λ j k. ih j (omega arith))

  -- A node above the array, with `rounds` slots, starts at its pointer and covers some record.
  pub node_lem :
      (rounds p : ℕ)
      → 1 ≤ rounds
      → p < length ws
      → AreSearchable ws (filled ws internal_fanout leaf_fanout rounds p)
        × (first (filled ws internal_fanout leaf_fanout rounds p) ≡ p)
        × (p < filled_to ws internal_fanout leaf_fanout rounds p)
        × (filled_to ws internal_fanout leaf_fanout rounds p < length ws
            → Bounds ws
                (key_of (rounds - 1) (filled ws internal_fanout leaf_fanout rounds p))
                (filled_to ws internal_fanout leaf_fanout rounds p))
  node_lem zero p r h = absurd (omega arith)
  node_lem (suc i) p r h =
      let e : suc i - 1 ≡ i = omega arith in
      (
        filled-AreSearchable i p h,
        first-filled ws internal_fanout leaf_fanout i p h,
        omega (arith, filled_to-suc ws internal_fanout leaf_fanout i p h),
        rw e (filled-Bounds i p),
      )
