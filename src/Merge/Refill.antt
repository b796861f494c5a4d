-- ===== src/Merge/Refill.antt =====
-- The calls of `pop`, `advance_cursor` and `push` of the merge (SortedMerge.h) keep the queue in step
-- with the cursors.
use dynamic_extension.Base.{
  ℕ, ◌+◌, ◌<◌, ◌≡◌, refl, sym, ap, subst, List, [], ◌∷◌, length, set, if◌then◌else◌, arith,
}
use dynamic_extension.Record.{Wrapped}
use dynamic_extension.Cursor.{Cursor, advance_cursor, cursor_at, in_array}
use dynamic_extension.Merge.Queue.{QueueRecord, PriorityQueue, QueueLaws}
use dynamic_extension.Merge.Cursors.{sum_rests, push_head, advance_at}
use dynamic_extension.Merge.Heads.{
  sum_of, sum_of-Perm, head_sum, heads_sum, heads_sum-set, sum_rests-set, same, same_self,
  heads_sum-present, Counted, Counted-at, Counted-set, advance_cursor-lem,
}

module _ {Q : Type 0} (P : PriorityQueue Q) (L : QueueLaws P) where
  -- The queue, and the records taken off it whose cursors wait, are the first records in front of
  -- the cursors.
  abbrev pub Holds : List QueueRecord → Q → List Cursor → Type 0
  Holds waiting q cs =
      (f : QueueRecord → ℕ) → sum_of f waiting + sum_of f (L.entries q) ≡ heads_sum f 0 cs

  pub Holds-front :
      (e : QueueRecord) (es : List QueueRecord) (q : Q) (cs : List Cursor)
      → Holds (e ∷ es) q cs
      → (e.version < length cs)
        × (ws : List Wrapped) × ((cursor_at cs e.version).rest ≡ e.data_at ∷ ws)
  unfolding sum_of
  Holds-front e es q cs h =
      heads_sum-present e 0 e.version cs _ (omega (arith, h (same e), same_self e)) (omega arith)

  pub Holds-pop :
      (es : List QueueRecord) (q : Q) (cs : List Cursor) (h : 0 < P.size q)
      → Holds es q cs
      → Holds (L.first q h ∷ es) (P.pop q) cs
  unfolding sum_of
  Holds-pop es q cs h k f = omega (arith, k f, sum_of-Perm f _ _ (L.entries-pop q h))

  push_head-sum :
      (f : QueueRecord → ℕ) (q : Q) (version : ℕ) (ws : List Wrapped)
      → sum_of f (L.entries (push_head P q version ws))
        ≡ head_sum f version ws + sum_of f (L.entries q)
  unfolding sum_of
  push_head-sum f q version [] = omega arith
  push_head-sum f q version (w ∷ ws) = sym (sum_of-Perm f _ _ (L.entries-push q _))

  if-push_head :
      (q : Q) (version : ℕ) (ws : List Wrapped)
      → (if in_array ws then push_head P q version ws else q) ≡ push_head P q version ws
  if-push_head q version [] = refl
  if-push_head q version (w ∷ ws) = refl

  -- Advancing a cursor pushes the record that is now in front of it.
  advance_at-lem :
      (q : Q) (cs : List Cursor) (i : ℕ) (w : Wrapped) (ws : List Wrapped)
      → i < length cs
      → Counted cs
      → (cursor_at cs i).rest ≡ w ∷ ws
      → ((advance_at P q cs i).0 ≡ push_head P q i ws)
        × (c : Cursor) × ((advance_at P q cs i).1 ≡ set cs i c)
        × (c.rest ≡ ws)
        × (c.rec_cnt ≡ c.cur_rec_idx + length ws)
  unfolding advance_at
  advance_at-lem q cs i w ws l n e =
      let a = advance_cursor-lem (cursor_at cs i) w ws e (Counted-at cs i n l) in
      (rw (a.0, a.1) (if-push_head q i ws), (advance_cursor (cursor_at cs i)).1, refl, a.1, a.2)

  pub Counted-advance_at :
      (q : Q) (cs : List Cursor) (i : ℕ) (w : Wrapped) (ws : List Wrapped)
      → i < length cs
      → Counted cs
      → (cursor_at cs i).rest ≡ w ∷ ws
      → Counted (advance_at P q cs i).1
  Counted-advance_at q cs i w ws l n e =
      let (_, c, x, r, k) = advance_at-lem q cs i w ws l n e in
      subst Counted (sym x) (Counted-set cs i c n (rw r k))

  -- The records in front of the cursors are one fewer.
  pub sum_rests-advance_at :
      (g : List Wrapped → ℕ) (q : Q) (cs : List Cursor) (i : ℕ) (w : Wrapped) (ws : List Wrapped)
      → i < length cs
      → Counted cs
      → (cursor_at cs i).rest ≡ w ∷ ws
      → sum_rests g (advance_at P q cs i).1 + g (w ∷ ws) ≡ sum_rests g cs + g ws
  sum_rests-advance_at g q cs i w ws l n e =
      let (_, c, x, r, _) = advance_at-lem q cs i w ws l n e in
      rw x (
        subst (λ t. sum_rests g (set cs i c) + g t ≡ sum_rests g cs + g ws) e
          (subst (λ t. sum_rests g (set cs i c) + g (cursor_at cs i).rest ≡ sum_rests g cs + g t) r
            (sum_rests-set g i cs c _ l)))

  -- The cursor of a waiting record advances.
  pub Holds-advance_at :
      (e : QueueRecord) (es : List QueueRecord) (q : Q) (cs : List Cursor) (ws : List Wrapped)
      → Holds (e ∷ es) q cs
      → e.version < length cs
      → Counted cs
      → (cursor_at cs e.version).rest ≡ e.data_at ∷ ws
      → Holds es (advance_at P q cs e.version).0 (advance_at P q cs e.version).1
  unfolding sum_of
  Holds-advance_at e es q cs ws h l n r f =
      let (y, c, x, k, _) = advance_at-lem q cs e.version e.data_at ws l n r in
      let m : heads_sum f 0 (set cs e.version c)
            + head_sum f e.version (cursor_at cs e.version).rest
          ≡ heads_sum f 0 cs + head_sum f e.version c.rest =
        heads_sum-set f 0 e.version e.version cs c _ l (omega arith) in
      let u = ap (head_sum f e.version) r in
      let v = ap (head_sum f e.version) k in
      rw (y, x) (omega (arith, h f, push_head-sum f q e.version ws, m, u, v))
