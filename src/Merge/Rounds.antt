-- ===== src/Merge/Rounds.antt =====
-- A round of the merge (SortedMerge.h) reads inside of the arrays, and takes one record, or a record
-- and its tombstone, off the arrays.
use dynamic_extension.Base.{
  ℕ, suc, ◌+◌, ◌<◌, ◌≡◌, refl, ◌∙◌, true, none, some, List, [], ◌∷◌, length, arith, Bool-cases, inl,
  inr, ◌⊎◌, ltb, if◌then◌else◌,
}
use dynamic_extension.Bloom.{Bloom}
use dynamic_extension.Record.{Wrapped, is_deleted}
use dynamic_extension.Cursor.{Cursor, cursor_at}
use dynamic_extension.Merge.{cancels, emit}
use dynamic_extension.Merge.Queue.{QueueRecord, PriorityQueue, QueueLaws, NoneLess}
use dynamic_extension.Merge.Cursors.{
  MergeState, sum_rests, advance_at, next_record, written, write_out, skip_both, merge_round,
}
use dynamic_extension.Merge.Heads.{sum_of, sum_of-Perm, Counted}
use dynamic_extension.Merge.Refill.{
  Holds, Holds-front, Holds-pop, Holds-advance_at, Counted-advance_at, sum_rests-advance_at,
}

-- The record `w` has gone from the front of one of the arrays.
abbrev pub Taken : Wrapped → List Cursor → List Cursor → Type 0
Taken w cs cs' =
    (ws : List Wrapped) × ((g : List Wrapped → ℕ)
      → sum_rests g cs' + g (w ∷ ws) ≡ sum_rests g cs + g ws)

module _ {Q F : Type 0} (P : PriorityQueue Q) (L : QueueLaws P) (b : Bloom F) where
  abbrev pub InStep : MergeState Q F → Type 0
  InStep s = Holds P L [] s.pq s.cursors × Counted s.cursors

  -- What a round does.
  pub data Round (s s' : MergeState Q F) : Type 0 where
    wrote :
        (w : Wrapped)
        → NoneLess w (L.entries s.pq)
        → Taken w s.cursors s'.cursors
        → s'.info ≡ (if is_deleted w then s.info else emit b s.info w)
        → Round s s'
    skipped :
        (x y : Wrapped) (mid : List Cursor)
        → cancels x y ≡ true
        → Taken x s.cursors mid
        → Taken y mid s'.cursors
        → s'.info ≡ s.info
        → Round s s'

  pub length-sum_of : (es : List QueueRecord) → sum_of (λ _. 1) es ≡ length es
  unfolding sum_of
  length-sum_of [] = refl
  length-sum_of (e ∷ es) = omega (arith, length-sum_of es)

  pub size-pop : (q : Q) → 0 < P.size q → P.size q ≡ suc (P.size (P.pop q))
  unfolding sum_of
  size-pop q h = omega (
    arith,
    L.size_lem q,
    L.size_lem (P.pop q),
    length-sum_of (L.entries q),
    length-sum_of (L.entries (P.pop q)),
    sum_of-Perm (λ _. 1) _ _ (L.entries-pop q h),
  )

  write_out-lem :
      (s : MergeState Q F) (version : ℕ) (w : Wrapped) (ws : List Wrapped)
      → (cursor_at s.cursors version).rest ≡ w ∷ ws
      → write_out P b s version ≡ some (written P b s version w)
  unfolding write_out
  write_out-lem s version w ws r = rw (write_out, r) refl

  write_out-Round :
      (s : MergeState Q F) (h : 0 < P.size s.pq)
      → InStep s
      → (s' : MergeState Q F) × (write_out P b s (L.first s.pq h).version ≡ some s')
        × InStep s'
        × Round s s'
  unfolding written
  write_out-Round s h (k, n) =
      let e = L.first s.pq h in
      let k' = Holds-pop P L [] s.pq s.cursors h k in
      let (l, ws, r) = Holds-front P L e [] (P.pop s.pq) s.cursors k' in
      (
        written P b s e.version e.data_at,
        write_out-lem s e.version e.data_at ws r,
        (
          Holds-advance_at P L e [] (P.pop s.pq) s.cursors ws k' l n r,
          Counted-advance_at P L (P.pop s.pq) s.cursors e.version e.data_at ws l n r,
        ),
        wrote e.data_at (L.first_least s.pq h)
            (
              ws,
              λ g. sum_rests-advance_at P L g (P.pop s.pq) s.cursors e.version e.data_at ws l n r,
            )
            refl,
      )

  Holds-swap :
      (e e' : QueueRecord) (q : Q) (cs : List Cursor)
      → Holds P L (e' ∷ e ∷ []) q cs
      → Holds P L (e ∷ e' ∷ []) q cs
  unfolding sum_of
  Holds-swap e e' q cs h f = omega (arith, h f)

  skip_both-Round :
      (s : MergeState Q F) (h : 0 < P.size s.pq) (h' : 0 < P.size (P.pop s.pq))
      → InStep s
      → cancels (L.first s.pq h).data_at (L.first (P.pop s.pq) h').data_at ≡ true
      → (s' : MergeState Q F) × (skip_both P b s
            (L.first s.pq h).version
            (L.first (P.pop s.pq) h').version
          ≡ s')
        × InStep s'
        × Round s s'
  unfolding skip_both
  skip_both-Round s h h' (k, n) c =
      let e = L.first s.pq h in
      let e' = L.first (P.pop s.pq) h' in
      let q = P.pop (P.pop s.pq) in
      let k1 =
        Holds-swap e e' q s.cursors (
          Holds-pop P L (e ∷ []) (P.pop s.pq) s.cursors h' (Holds-pop P L [] s.pq s.cursors h k)) in
      let (l, ws, r) = Holds-front P L e (e' ∷ []) q s.cursors k1 in
      let k2 = Holds-advance_at P L e (e' ∷ []) q s.cursors ws k1 l n r in
      let n2 = Counted-advance_at P L q s.cursors e.version e.data_at ws l n r in
      let (q2, mid) = advance_at P q s.cursors e.version in
      let (l', ws', r') = Holds-front P L e' [] q2 mid k2 in
      (
        skip_both P b s e.version e'.version,
        refl,
        (
          Holds-advance_at P L e' [] q2 mid ws' k2 l' n2 r',
          Counted-advance_at P L q2 mid e'.version e'.data_at ws' l' n2 r',
        ),
        skipped e.data_at e'.data_at mid c
            (ws, λ g. sum_rests-advance_at P L g q s.cursors e.version e.data_at ws l n r)
            (ws', λ g. sum_rests-advance_at P L g q2 mid e'.version e'.data_at ws' l' n2 r') refl,
      )

  next_record-lem :
      (q : Q) (h : 0 < P.size q)
      → (next_record P q ≡ none)
        ⊎ (h' : 0 < P.size (P.pop q)) × (next_record P q ≡ some (L.first (P.pop q) h'))
  next_record-lem q h = elim (Bool-cases (ltb 1 (P.size q))) [
    | inl t ↦
        let l : 1 < P.size q = ground arith in
        let h' : 0 < P.size (P.pop q) = omega (arith, size-pop q h) in
        inr (h', rw t (L.peek-next q l ∙ L.peek_lem (P.pop q) h'))
    | inr f ↦ inl (rw f refl)
  ]

  pub merge_round-Round :
      (s : MergeState Q F) (h : 0 < P.size s.pq)
      → InStep s
      → (s' : MergeState Q F) × (merge_round P b s (L.first s.pq h) (next_record P s.pq) ≡ some s')
        × InStep s'
        × Round s s'
  unfolding merge_round
  merge_round-Round s h k = elim (next_record-lem s.pq h) [
    | inl e ↦ rw e (write_out-Round s h k)
    | inr (h', e) ↦
        elim (Bool-cases (cancels (L.first s.pq h).data_at (L.first (P.pop s.pq) h').data_at)) [
          | inl c ↦ let (s', x, i, r) = skip_both-Round s h h' k c in (s', rw (e, c, x) refl, i, r)
          | inr c ↦ rw (e, c) (write_out-Round s h k)
        ]
  ]
