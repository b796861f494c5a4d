-- ===== src/Merge/Loop.antt =====
-- The merge (SortedMerge.h) ends, and has read every record when it does.
use mathlib.Core.Option
use mathlib.Core.Option.{some_inj}
use dynamic_extension.Base.{
  ℕ, zero, suc, ◌+◌, ◌<◌, ◌≤◌, ◌≡◌, refl, ap, true, Option, none, some, List, [], ◌∷◌, length,
  arith, Bool-cases, inl, inr, ◌==◌,
}
use dynamic_extension.Bloom.{Bloom}
use dynamic_extension.Record.{Wrapped}
use dynamic_extension.Record.Net.{sum_by}
use dynamic_extension.Shard.{all_records}
use dynamic_extension.Cursor.{Cursor, make_cursor}
use dynamic_extension.Merge.Queue.{QueueRecord, PriorityQueue, QueueLaws}
use dynamic_extension.Merge.Cursors.{
  MergeState, sum_rests, records_left, build_cursor_vec, merge_loop, push_all, sorted_array_merge,
}
use dynamic_extension.Merge.Heads.{sum_of, sum_of-Perm, heads_sum, head_sum, Counted}
use dynamic_extension.Merge.Rounds.{length-sum_of, Taken, InStep, Round, merge_round-Round}

-- No pointer is null, and no array is empty.
abbrev pub NoEmpty : List (Option (List Wrapped)) → Type 0
NoEmpty [] = Unit
NoEmpty (none ∷ shards) = ⊥
NoEmpty (some [] ∷ shards) = ⊥
NoEmpty (some (w ∷ ws) ∷ shards) = NoEmpty shards

-- The records of the arrays.
abbrev pub arrays : List (Option (List Wrapped)) → List Wrapped
arrays = all_records (λ ws. ws)

Counted-build_cursor_vec : (ss : List (Option (List Wrapped))) → Counted (build_cursor_vec ss)
unfolding build_cursor_vec make_cursor
Counted-build_cursor_vec [] = tt
Counted-build_cursor_vec (none ∷ ss) = (refl, Counted-build_cursor_vec ss)
Counted-build_cursor_vec (some ws ∷ ss) = (omega arith, Counted-build_cursor_vec ss)

head_sum-none :
    (k : ℕ) (ws : List Wrapped) (f : Wrapped → ℕ) → head_sum (λ _. 1) k ws ≡ 0 → sum_by f ws ≡ 0
unfolding sum_by
head_sum-none k [] f h = refl
head_sum-none k (w ∷ ws) f h = absurd (omega arith)

-- The records in front of the cursors, when nothing is left of them.
heads_sum-none :
    (k : ℕ) (cs : List Cursor) (f : Wrapped → ℕ)
    → heads_sum (λ _. 1) k cs ≡ 0
    → sum_rests (sum_by f) cs ≡ 0
unfolding heads_sum sum_rests sum_by
heads_sum-none k [] f h = refl
heads_sum-none k (c ∷ cs) f h =
    omega (arith, head_sum-none k c.rest f (omega arith), heads_sum-none (k + 1) cs f (omega arith))

module _ {Q F : Type 0} (P : PriorityQueue Q) (L : QueueLaws P) (b : Bloom F) where
  abbrev NonemptyCursors : List Cursor → Type 0
  NonemptyCursors [] = Unit
  NonemptyCursors (c ∷ cs) = (0 < length c.rest) × NonemptyCursors cs

  Taken-left :
      (w : Wrapped) (cs cs' : List Cursor) → Taken w cs cs' → records_left cs' < records_left cs
  Taken-left w cs cs' (ws, h) = omega (arith, h length)

  Round-left :
      (s s' : MergeState Q F) → Round P L b s s' → records_left s'.cursors < records_left s.cursors
  Round-left s s' (Round.wrote w x t e) = Taken-left w _ _ t
  Round-left s s' (Round.skipped x y mid c t u e) =
      omega (arith, Taken-left x _ _ t, Taken-left y _ _ u)

  left_none :
      (s : MergeState Q F)
      → InStep P L b s
      → (P.size s.pq == 0) ≡ true
      → (f : Wrapped → ℕ) → sum_rests (sum_by f) s.cursors ≡ 0
  unfolding sum_of
  left_none s k t f =
      let z : P.size s.pq ≡ 0 = ground arith in
      heads_sum-none 0 s.cursors f
        (omega (arith, k.0 (λ _. 1), L.size_lem s.pq, length-sum_of P L b (L.entries s.pq)))

  -- What every round keeps holds at the end, where no record is left.
  pub merge_loop-ends :
      {I : MergeState Q F → Type 0}
      → ((s s' : MergeState Q F) → InStep P L b s → I s → Round P L b s s' → I s')
      → (n : ℕ) (s : MergeState Q F) → InStep P L b s
      → I s
      → records_left s.cursors ≤ n
      → (s' : MergeState Q F) × (merge_loop P b n s ≡ some s'.info)
        × I s'
        × ((f : Wrapped → ℕ) → sum_rests (sum_by f) s'.cursors ≡ 0)
  unfolding merge_loop Option.bind
  merge_loop-ends step zero s k i l = elim (Bool-cases (P.size s.pq == 0)) [
    | inl t ↦ (s, rw t refl, i, left_none s k t)
    | inr t ↦
        let (s1, e, k1, r) = merge_round-Round P L b s (ground arith) k in
        absurd (omega (arith, Round-left s s1 r))
  ]
  merge_loop-ends step (suc n) s k i l = elim (Bool-cases (P.size s.pq == 0)) [
    | inl t ↦ (s, rw t refl, i, left_none s k t)
    | inr t ↦
        let h : 0 < P.size s.pq = ground arith in
        let (s1, e, k1, r) = merge_round-Round P L b s h k in
        let (s2, e2, j, z) =
          merge_loop-ends step n s1 k1 (step s s1 k i r) (omega (arith, Round-left s s1 r)) in
        (s2, rw (t, L.peek_lem s.pq h, e) e2, j, z)
  ]

  -- The first loop.
  push_all-lem :
      (q : Q) (k : ℕ) (ss : List (Option (List Wrapped)))
      → NoEmpty ss
      → (q' : Q) × (push_all P q k (build_cursor_vec ss) ≡ some q')
        × ((f : QueueRecord → ℕ)
            → sum_of f (L.entries q')
              ≡ heads_sum f k (build_cursor_vec ss) + sum_of f (L.entries q))
  unfolding push_all build_cursor_vec make_cursor heads_sum sum_of
  push_all-lem q k [] h = (q, refl, λ f. omega arith)
  push_all-lem q k (none ∷ ss) h = absurd h
  push_all-lem q k (some [] ∷ ss) h = absurd h
  push_all-lem q k (some (w ∷ ws) ∷ ss) h =
      let e : QueueRecord = record { data_at = w; version = k } in
      let (q', x, y) = push_all-lem (P.push q e) (k + 1) ss h in
      (q', x, λ f. omega (arith, y f, sum_of-Perm f _ _ (L.entries-push q e)))

  pub sorted_array_merge-ends :
      {I : MergeState Q F → Type 0}
      → ((s s' : MergeState Q F) → InStep P L b s → I s → Round P L b s s' → I s')
      → (ss : List (Option (List Wrapped))) (bf : Option F) → NoEmpty ss
      → ((q : Q)
          → I (record {
            pq = q;
            cursors = build_cursor_vec ss;
            info = record { buffer = []; tombstone_count = 0; bf = bf };
          }))
      → (s' : MergeState Q F) × (sorted_array_merge P b (build_cursor_vec ss) bf ≡ some s'.info)
        × I s'
        × ((f : Wrapped → ℕ) → sum_rests (sum_by f) s'.cursors ≡ 0)
  unfolding sorted_array_merge Option.bind sum_of
  sorted_array_merge-ends step ss bf h i =
      let (q, x, y) = push_all-lem P.empty 0 ss h in
      let start : MergeState Q F = record {
        pq = q;
        cursors = build_cursor_vec ss;
        info = record { buffer = []; tombstone_count = 0; bf = bf };
      } in
      let (s', e, j, z) =
        merge_loop-ends step (records_left start.cursors) start
          (λ f. omega (arith, y f, ap (sum_of f) L.entries-empty), Counted-build_cursor_vec ss)
          (i q) (omega arith) in
      (s', rw x e, j, z)
