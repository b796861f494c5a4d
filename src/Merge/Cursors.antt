-- ===== src/Merge/Cursors.antt =====
-- include/util/SortedMerge.h: merging the sorted arrays of shards.
use mathlib.Core.Option
use dynamic_extension.Base.{
  ℕ, zero, suc, ◌+◌, Option, none, some, List, [], ◌∷◌, ltb, ◌==◌, if◌then◌else◌, length, set,
}
use dynamic_extension.Bloom.{Bloom}
use dynamic_extension.Record.{Wrapped, is_deleted}
use dynamic_extension.Cursor.{Cursor, make_cursor, advance_cursor, cursor_at}
use dynamic_extension.Merge.{MergeInfo, cancels, emit}
use dynamic_extension.Merge.Queue.{QueueRecord, PriorityQueue}

-- The arrays of the shards, or none for a null pointer.
unfoldable pub build_cursor_vec : List (Option (List Wrapped)) → List Cursor
build_cursor_vec [] = []
build_cursor_vec (none ∷ shards) = make_cursor [] ∷ build_cursor_vec shards
build_cursor_vec (some ws ∷ shards) = make_cursor ws ∷ build_cursor_vec shards

-- A measure of the arrays in front of the cursors, summed up.
unfoldable pub sum_rests : (List Wrapped → ℕ) → List Cursor → ℕ
sum_rests g [] = 0
sum_rests g (c ∷ cursors) = g c.rest + sum_rests g cursors

abbrev pub records_left : List Cursor → ℕ
records_left = sum_rests length

module _ {Q : Type 0} (P : PriorityQueue Q) where
  -- The first loop. A cursor with no record is pushed with a pointer that must not be read: `none`.
  unfoldable pub push_all : Q → ℕ → List Cursor → Option Q
  push_all q i [] = some q
  push_all q i (c ∷ cursors) = elim c.rest [
    | [] ↦ none
    | w ∷ ws ↦ push_all (P.push q (record { data_at = w; version = i })) (i + 1) cursors
  ]

  -- `pq.push(cursor.ptr, version)` for a cursor that `advance_cursor` has found to be in its array.
  abbrev pub push_head : Q → ℕ → List Wrapped → Q
  push_head q version [] = q
  push_head q version (w ∷ ws) = P.push q (record { data_at = w; version = version })

  unfoldable pub advance_at : Q → List Cursor → ℕ → Q × List Cursor
  advance_at q cursors version =
      let (more, c) = advance_cursor (cursor_at cursors version) in
      (if more then push_head q version c.rest else q, set cursors version c)

  -- `pq.peek(1)`, or a null record.
  abbrev pub next_record : Q → Option QueueRecord
  next_record q = if ltb 1 (P.size q) then P.peek q 1 else none

-- The variables of the second loop.
pub record MergeState (Q F : Type 0) : Type 0 where
  pub pq : Q
  pub cursors : List Cursor
  pub info : MergeInfo F

module _ {Q F : Type 0} (P : PriorityQueue Q) (b : Bloom F) where
  -- The branch for a record that goes out unless it is tagged. It reads `*cursor.ptr`, which is
  -- `none` behind the array.
  unfoldable pub written : MergeState Q F → ℕ → Wrapped → MergeState Q F
  written s version w =
      let (q, cursors) = advance_at P (P.pop s.pq) s.cursors version in
      record { pq = q; cursors = cursors; info = if is_deleted w then s.info else emit b s.info w }

  unfoldable pub write_out : MergeState Q F → ℕ → Option (MergeState Q F)
  write_out s version = elim (cursor_at s.cursors version).rest [
    | [] ↦ none
    | w ∷ ws ↦ some (written s version w)
  ]

  -- The branch for a record and its tombstone.
  unfoldable pub skip_both : MergeState Q F → ℕ → ℕ → MergeState Q F
  skip_both s now next =
      let (q1, cursors1) = advance_at P (P.pop (P.pop s.pq)) s.cursors now in
      let (q2, cursors2) = advance_at P q1 cursors1 next in record s { pq = q2; cursors = cursors2 }

  -- A round, with the first record of the queue and the one behind it.
  unfoldable pub merge_round :
      MergeState Q F → QueueRecord → Option QueueRecord → Option (MergeState Q F)
  merge_round s now none = write_out s now.version
  merge_round s now (some next) =
      if cancels now.data_at next.data_at
      then some (skip_both s now.version next.version)
      else write_out s now.version

  -- The loop on fuel: `none` if it runs out, or on a read outside of an array.
  unfoldable pub merge_loop : ℕ → MergeState Q F → Option (MergeInfo F)
  merge_loop zero s = if P.size s.pq == 0 then some s.info else none
  merge_loop (suc n) s =
      let more =
        Option.bind (P.peek s.pq 0)
          (λ now. Option.bind (merge_round s now (next_record P s.pq)) (λ s'. merge_loop n s')) in
      if P.size s.pq == 0 then some s.info else more

  unfoldable pub sorted_array_merge : List Cursor → Option F → Option (MergeInfo F)
  sorted_array_merge cursors bf = Option.bind (push_all P P.empty 0 cursors) (λ q.
      merge_loop (records_left cursors) (record {
        pq = q;
        cursors = cursors;
        info = record { buffer = []; tombstone_count = 0; bf = bf };
      }))
