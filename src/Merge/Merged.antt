-- ===== src/Merge/Merged.antt =====
-- What `sorted_array_merge` (SortedMerge.h) leaves in the array.
use mathlib.Core.Option
use dynamic_extension.Base.{
  ℕ, ◌+◌, ◌≡◌, refl, sym, ap, subst, ◌∙◌, false, Option, none, some, List, [], ◌∷◌, ◌++◌, arith,
}
use dynamic_extension.Bloom.{Bloom}
use dynamic_extension.Record.{Record, Wrapped, is_deleted}
use dynamic_extension.Record.Net.{
  SameNet, inserts, erasures, tombstones, sum_by, sum_by-append, insert_of, erasure_of,
  tombstone_of, tagged_of,
}
use dynamic_extension.Shard.{all_records}
use dynamic_extension.Cursor.{Cursor, make_cursor}
use dynamic_extension.Merge.{MergeInfo, emit}
use dynamic_extension.Merge.Scan.{Untagged, SameNet-cancelled}
use dynamic_extension.Merge.Array.{Untagged→tagged, tagged→Untagged}
use dynamic_extension.Merge.Queue.{PriorityQueue, QueueLaws}
use dynamic_extension.Merge.Cursors.{
  MergeState, sum_rests, build_cursor_vec, push_all, sorted_array_merge,
}
use dynamic_extension.Merge.Rounds.{Taken, Round}
use dynamic_extension.Merge.Loop.{NoEmpty, arrays, sorted_array_merge-ends}

-- The cursors of a vector of shards are on its records.
pub sum_rests-build_cursor_vec :
    (f : Wrapped → ℕ) (ss : List (Option (List Wrapped)))
    → sum_rests (sum_by f) (build_cursor_vec ss) ≡ sum_by f (arrays ss)
unfolding sum_rests build_cursor_vec make_cursor all_records sum_by
sum_rests-build_cursor_vec f [] = refl
sum_rests-build_cursor_vec f (none ∷ ss) = omega (arith, sum_rests-build_cursor_vec f ss)
sum_rests-build_cursor_vec f (some ws ∷ ss) =
    omega (arith, sum_rests-build_cursor_vec f ss, sum_by-append f ws (arrays ss))

module _ {Q F : Type 0} (P : PriorityQueue Q) (L : QueueLaws P) (b : Bloom F) where
  -- The records written and the records to come.
  abbrev both : (Wrapped → ℕ) → MergeState Q F → ℕ
  both f s = sum_by f s.info.buffer + sum_rests (sum_by f) s.cursors

  -- What the loop keeps: no delete tags, the tombstones counted, and the net content of `all`.
  abbrev Keeps : List Wrapped → MergeState Q F → Type 0
  Keeps all s =
      (both tagged_of s ≡ 0)
      × (s.info.tombstone_count ≡ tombstones s.info.buffer)
      × ((r : Record)
          → inserts r all + both (erasure_of r) s ≡ both (insert_of r) s + erasures r all)

  pub emit-sum :
      (f : Wrapped → ℕ) (info : MergeInfo F) (w : Wrapped)
      → sum_by f (emit b info w).buffer ≡ sum_by f info.buffer + f w
  unfolding emit sum_by
  emit-sum f info w = omega (arith, sum_by-append f info.buffer (w ∷ []))

  both-wrote :
      (f : Wrapped → ℕ) (s s' : MergeState Q F) (w : Wrapped) (ws : List Wrapped)
      → ((g : List Wrapped → ℕ)
          → sum_rests g s'.cursors + g (w ∷ ws) ≡ sum_rests g s.cursors + g ws)
      → s'.info ≡ emit b s.info w
      → both f s' ≡ both f s
  unfolding sum_by
  both-wrote f s s' w ws g e =
      omega (arith, g (sum_by f), emit-sum f s.info w, ap (λ t. sum_by f t.buffer) e)

  both-skipped :
      (f : Wrapped → ℕ) (s s' : MergeState Q F) (x y : Wrapped) (mid : List Cursor)
      → Taken x s.cursors mid
      → Taken y mid s'.cursors
      → s'.info ≡ s.info
      → both f s' + sum_by f (x ∷ y ∷ []) ≡ both f s
  unfolding sum_by
  both-skipped f s s' x y mid (us, g) (vs, h) e =
      omega (arith, g (sum_by f), h (sum_by f), ap (λ t. sum_by f t.buffer) e)

  emit-count :
      (info : MergeInfo F) (w : Wrapped)
      → info.tombstone_count ≡ tombstones info.buffer
      → (emit b info w).tombstone_count ≡ tombstones (emit b info w).buffer
  unfolding emit
  emit-count info w h = ground (arith, emit-sum tombstone_of info w)

  Keeps-Round :
      (all : List Wrapped) (s s' : MergeState Q F) → Keeps all s → Round P L b s s' → Keeps all s'
  unfolding sum_by
  Keeps-Round all s s' (u, t, k) (Round.wrote w _ (ws, g) e) =
      let d : is_deleted w ≡ false = ground (arith, g (sum_by tagged_of)) in
      let e' : s'.info ≡ emit b s.info w = e ∙ rw d refl in
      (
        both-wrote tagged_of s s' w ws g e' ∙ u,
        subst (λ i. i.tombstone_count ≡ tombstones i.buffer) (sym e') (emit-count s.info w t),
        λ r. omega (
          arith,
          k r,
          both-wrote (insert_of r) s s' w ws g e',
          both-wrote (erasure_of r) s s' w ws g e',
        ),
      )
  Keeps-Round all s s' (u, t, k) (Round.skipped x y mid c p q e) = (
    omega (arith, both-skipped tagged_of s s' x y mid p q e),
    subst (λ i. i.tombstone_count ≡ tombstones i.buffer) (sym e) t,
    λ r. omega (
      arith,
      k r,
      SameNet-cancelled x y c r,
      both-skipped (insert_of r) s s' x y mid p q e,
      both-skipped (erasure_of r) s s' x y mid p q e,
    ),
  )

  -- Merging nonempty arrays without delete tags ends without a read outside of an array. The array
  -- that it leaves inserts each record as often as they do, less the erasures, has no delete tags,
  -- and the tombstone count is its number of tombstones.
  pub sorted_array_merge-SameNet :
      (shards : List (Option (List Wrapped))) (bf : Option F)
      → NoEmpty shards
      → Untagged (arrays shards)
      → (out : MergeInfo F) × (sorted_array_merge P b (build_cursor_vec shards) bf ≡ some out)
        × SameNet (arrays shards) out.buffer
        × Untagged out.buffer
        × (out.tombstone_count ≡ tombstones out.buffer)
  unfolding sum_by
  sorted_array_merge-SameNet shards bf n u =
      let (s, e, (v, t, k), z) =
        sorted_array_merge-ends P L b {I = Keeps (arrays shards)}
          (λ s s' _. Keeps-Round (arrays shards) s s') shards bf n
          (λ q. (
            omega (
              arith,
              sum_rests-build_cursor_vec tagged_of shards,
              Untagged→tagged (arrays shards) u,
            ),
            refl,
            λ r. omega (
              arith,
              sum_rests-build_cursor_vec (insert_of r) shards,
              sum_rests-build_cursor_vec (erasure_of r) shards,
            ),
          )) in
      (
        s.info,
        e,
        λ r. omega (arith, k r, z (insert_of r), z (erasure_of r)),
        tagged→Untagged s.info.buffer (omega arith),
        t,
      )

module _ {Q F : Type 0} (P : PriorityQueue Q) (b : Bloom F) where
  push_all-empty :
      (q : Q) (k : ℕ) (before after : List (Option (List Wrapped)))
      → push_all P q k (build_cursor_vec (before ++ some [] ∷ after)) ≡ none
  unfolding push_all build_cursor_vec make_cursor
  push_all-empty q k [] after = refl
  push_all-empty q k (none ∷ before) after = refl
  push_all-empty q k (some [] ∷ before) after = refl
  push_all-empty q k (some (w ∷ ws) ∷ before) after =
      push_all-empty (P.push q (record { data_at = w; version = k })) (k + 1) before after

  -- If one of the shards is empty, the merge reads outside of its array.
  pub sorted_array_merge-empty :
      (before after : List (Option (List Wrapped))) (bf : Option F)
      → sorted_array_merge P b (build_cursor_vec (before ++ some [] ∷ after)) bf ≡ none
  unfolding sorted_array_merge Option.bind
  sorted_array_merge-empty before after bf = rw (push_all-empty P.empty 0 before after) refl
