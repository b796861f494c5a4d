-- ===== src/Query/Answers.antt =====
-- What the range query, the range count and the point lookup answer (include/query).
use dynamic_extension.Base.{
  ℕ, zero, suc, ◌+◌, ◌<◌, ◌≡◌, refl, sym, ap, ◌∙◌, false, ◌||◌, List, [], ◌∷◌, ◌++◌, ltb, leb, ◌==◌,
  if◌then◌else◌, length, take, drop, take_all, ==_iff, le→leb, arith, Bool-cases, inl, inr, none,
}
use dynamic_extension.Record.{Wrapped, is_deleted, is_tombstone}
use dynamic_extension.View.{BufferView, get, get_record_count}
use dynamic_extension.View.Contents.{gets, contents}
use dynamic_extension.Query.{Parameters, SortedShard, local_preproc, roll, in_range}
use dynamic_extension.Query.Range
use dynamic_extension.Query.Count
use dynamic_extension.Query.Count.{LocalResultType, no_result, counted}
use dynamic_extension.Query.Point
use dynamic_extension.Query.Keys.{
  within, count_all, Above, Missing, SortedKeys, Sound, Above-weaken, SortedKeys-drop, drop_all,
  within-drop, within-Above,
}

module _ (parms : Parameters) where
  run-within :
      (ws : List Wrapped)
      → SortedKeys ws
      → Above parms.lower_bound ws
      → Range.run parms.upper_bound ws ≡ within parms ws
  unfolding Range.run within in_range
  run-within [] s a = refl
  run-within (w ∷ ws) s a = ground (
    arith,
    a.0,
    run-within ws s.1 a.1,
    λ (h : parms.upper_bound < w.rec.key). within-Above parms w.rec.key ws h s.0,
  )

  roll-Above :
      (ws : List Wrapped) → SortedKeys ws → Above parms.lower_bound (roll parms.lower_bound ws)
  unfolding roll
  roll-Above [] s = tt
  roll-Above (w ∷ ws) s = elim (Bool-cases (ltb w.rec.key parms.lower_bound)) [
    | inl e ↦ rw e (roll-Above ws s.1)
    | inr e ↦ rw e (ground arith, Above-weaken parms.lower_bound w.rec.key ws (ground arith) s.0)
  ]

  roll-SortedKeys : (ws : List Wrapped) → SortedKeys ws → SortedKeys (roll parms.lower_bound ws)
  unfolding roll
  roll-SortedKeys [] s = tt
  roll-SortedKeys (w ∷ ws) s = elim (Bool-cases (ltb w.rec.key parms.lower_bound)) [
    | inl e ↦ rw e (roll-SortedKeys ws s.1)
    | inr e ↦ rw e s
  ]

  roll-within : (ws : List Wrapped) → within parms (roll parms.lower_bound ws) ≡ within parms ws
  unfolding roll within in_range
  roll-within [] = refl
  roll-within (w ∷ ws) = ground (arith, roll-within ws)

  count_run-within :
      (ws : List Wrapped) (result : LocalResultType)
      → SortedKeys ws
      → Above parms.lower_bound ws
      → Count.run parms.upper_bound ws result ≡ count_all (within parms ws) result
  unfolding Count.run within in_range count_all
  count_run-within [] result s a = refl
  count_run-within (w ∷ ws) result s a = elim (Bool-cases (leb w.rec.key parms.upper_bound)) [
    | inl e ↦
        rw (e, le→leb parms.lower_bound w.rec.key a.0)
          (count_run-within ws (counted w result) s.1 a.1)
    | inr e ↦
        rw
          (
            e,
            le→leb parms.lower_bound w.rec.key a.0,
            within-Above parms w.rec.key ws (ground arith) s.0,
          )
          refl
  ]

  module _ {S : Type 0} (I : SortedShard S) (shard : S)
      (sound : Sound I shard parms.lower_bound) where
    -- The array from the lower bound on.
    abbrev behind : List Wrapped
    behind =
        drop (I.get_lower_bound shard parms.lower_bound)
          (take (length (I.get_data shard)) (I.get_data shard))

    behind-drop : behind ≡ drop (I.get_lower_bound shard parms.lower_bound) (I.get_data shard)
    behind-drop =
        ap (drop (I.get_lower_bound shard parms.lower_bound))
          (take_all (length (I.get_data shard)) (I.get_data shard) (omega arith))

    behind-within : within parms behind ≡ within parms (I.get_data shard)
    behind-within = rw behind-drop (sym (within-drop parms _ (I.get_data shard) sound.below))

    behind-SortedKeys : SortedKeys behind
    behind-SortedKeys = rw behind-drop (SortedKeys-drop _ (I.get_data shard) sound.sorted)

    within-none :
        I.get_lower_bound shard parms.lower_bound ≡ length (I.get_data shard)
        → within parms (I.get_data shard) ≡ []
    unfolding within
    within-none e =
        sym behind-within
        ∙ ap (within parms)
            (behind-drop ∙ ap (λ n. drop n (I.get_data shard)) e ∙ drop_all (I.get_data shard))

    -- A range query of a shard whose array is sorted, and whose `get_lower_bound` skips no record
    -- that the lower bound allows, answers with the records whose keys are in the range, in order.
    pub local_query-within :
        Range.local_query I shard (local_preproc I shard parms) ≡ within parms (I.get_data shard)
    unfolding Range.local_query local_preproc
    local_query-within =
        elim (Bool-cases (I.get_lower_bound shard parms.lower_bound == length (I.get_data shard))) [
          | inl e ↦ rw e (sym (within-none ((==_iff _ _).0 e)))
          | inr e ↦ rw e (
              run-within (roll parms.lower_bound behind) (roll-SortedKeys behind behind-SortedKeys)
                (roll-Above behind behind-SortedKeys)
              ∙ roll-within behind
              ∙ behind-within)
        ]

    -- For such a shard, a range count is the count of the records that a range query answers, but
    -- there is no count at all when the lower bound is behind the last record.
    pub local_query-count : Count.local_query I shard (local_preproc I shard parms) ≡ (
        if I.get_lower_bound shard parms.lower_bound == length (I.get_data shard)
        then []
        else count_all (Range.local_query I shard (local_preproc I shard parms)) no_result ∷ [])
    unfolding Count.local_query local_preproc
    local_query-count =
        elim (Bool-cases (I.get_lower_bound shard parms.lower_bound == length (I.get_data shard))) [
          | inl e ↦ rw e refl
          | inr e ↦
              rw (e, local_query-within)
                (ap (λ t. t ∷ [])
                  (count_run-within (roll parms.lower_bound behind) no_result
                      (roll-SortedKeys behind behind-SortedKeys)
                      (roll-Above behind behind-SortedKeys)
                    ∙ ap (λ t. count_all t no_result) (roll-within behind ∙ behind-within)))
        ]

  module _ {F : Type 0} (v : BufferView F) (cells : List Wrapped) where
    range_from-gets :
        (n i : ℕ) → Range.buffer_from parms v cells i n ≡ within parms (gets v cells i n)
    unfolding Range.buffer_from within gets
    range_from-gets zero i = refl
    range_from-gets (suc n) i = ground (arith, range_from-gets n (i + 1))

    count_from-gets :
        (n i : ℕ) (result : LocalResultType)
        → Count.buffer_from parms v cells i n result
          ≡ count_all (within parms (gets v cells i n)) result
    unfolding Count.buffer_from within gets count_all
    count_from-gets zero i result = refl
    count_from-gets (suc n) i result = elim (Bool-cases (in_range parms (get v cells i))) [
      | inl e ↦ rw e (count_from-gets n (i + 1) (counted (get v cells i) result))
      | inr e ↦ rw e (count_from-gets n (i + 1) result)
    ]

    -- On the buffer, the range query answers with the records that the view shows in the range,
    -- and the range count with their count.
    pub local_query_buffer-within :
        (Range.local_query_buffer parms v cells ≡ within parms (contents v cells))
        × (Count.local_query_buffer parms v cells
            ≡ count_all (Range.local_query_buffer parms v cells) no_result ∷ [])
    unfolding Range.local_query_buffer Count.local_query_buffer contents
    local_query_buffer-within =
        let e = range_from-gets (get_record_count v) 0 in
        (
          e,
          ap (λ t. t ∷ [])
              (count_from-gets (get_record_count v) 0 no_result
                ∙ ap (λ t. count_all t no_result) (sym e)),
        )

sum-missing :
    (before after : List (List LocalResultType)) (total : LocalResultType)
    → Count.sum_results (before ++ [] ∷ after) total ≡ none
unfolding Count.sum_results
sum-missing [] after total = refl
sum-missing ([] ∷ before) after total = refl
sum-missing ((r ∷ rs) ∷ before) after total = sum-missing before after _

-- A single shard or buffer without a result makes `combine` of the range count read outside of a
-- vector, whatever the others found.
pub combine-missing :
    (before after : List (List LocalResultType)) → Count.combine (before ++ [] ∷ after) ≡ none
unfolding Count.combine
combine-missing before after = rw (sum-missing before after no_result) refl

-- The first record of a list with the key.
unfoldable pub first_with : ℕ → List Wrapped → List Wrapped
first_with k [] = []
first_with k (w ∷ ws) = if w.rec.key == k then w ∷ [] else first_with k ws

first_with-skips :
    (k : ℕ) (older newer : List Wrapped) (w : Wrapped)
    → Missing k older
    → w.rec.key ≡ k
    → first_with k (older ++ w ∷ newer) ≡ w ∷ []
unfolding first_with
first_with-skips k [] newer w missing same = ground (arith, same)
first_with-skips k (x ∷ older) newer w missing same =
    ground (arith, missing.0, first_with-skips k older newer w missing.1 same)

pub point_from-gets :
    {F : Type 0} (k : ℕ) (v : BufferView F) (cells : List Wrapped) (n i : ℕ)
    → Point.buffer_from k v cells i n ≡ first_with k (gets v cells i n)
unfolding Point.buffer_from first_with gets
point_from-gets k v cells zero i = refl
point_from-gets k v cells (suc n) i = ground (arith, point_from-gets k v cells n (i + 1))

-- `combine` of the point lookup on the buffer's result: the oldest record of the key that the
-- view shows decides, and what the view shows behind it, a tombstone too, does not matter.
pub point-oldest :
    {F : Type 0} (search_key : ℕ) (v : BufferView F) (cells : List Wrapped)
    (older newer : List Wrapped) (w : Wrapped) (others : List (List Wrapped))
    → contents v cells ≡ older ++ w ∷ newer
    → Missing search_key older
    → w.rec.key ≡ search_key
    → (is_deleted w || is_tombstone w) ≡ false
    → Point.combine (Point.local_query_buffer search_key v cells ∷ others) ≡ w.rec ∷ []
unfolding Point.combine Point.local_query_buffer contents
point-oldest search_key v cells older newer w others e missing same live =
    let hit : Point.local_query_buffer search_key v cells ≡ w ∷ [] =
      point_from-gets search_key v cells (get_record_count v) 0
      ∙ ap (first_with search_key) e
      ∙ first_with-skips search_key older newer w missing same in
    rw (hit, live) refl
