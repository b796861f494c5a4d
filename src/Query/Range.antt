-- ===== src/Query/Range.antt =====
-- include/query/rangequery.h: the records whose keys are in a range, without `combine`.
use dynamic_extension.Base.{
  ℕ, zero, suc, ◌+◌, List, [], ◌∷◌, leb, ◌==◌, if◌then◌else◌, length, take, drop,
}
use dynamic_extension.Record.{Wrapped}
use dynamic_extension.View.{BufferView, get, get_record_count}
use dynamic_extension.Query.{Parameters, SortedShard, LocalQuery, roll, in_range}

-- The second loop.
unfoldable pub run : ℕ → List Wrapped → List Wrapped
run upper_bound [] = []
run upper_bound (w ∷ ws) =
    let rest = run upper_bound ws in if leb w.rec.key upper_bound then w ∷ rest else []

unfoldable pub local_query : {S : Type 0} → SortedShard S → S → LocalQuery → List Wrapped
local_query I shard query =
    if query.start_idx == length (I.get_data shard)
    then []
    else run query.global_parms.upper_bound (
        roll query.global_parms.lower_bound
          (drop query.start_idx (take query.stop_idx (I.get_data shard))))

module _ {F : Type 0} (parms : Parameters) (v : BufferView F) (cells : List Wrapped) where
  -- The loop of `local_query_buffer`: index `i`, with `n` rounds left.
  unfoldable pub buffer_from : ℕ → ℕ → List Wrapped
  buffer_from i zero = []
  buffer_from i (suc n) =
      let rest = buffer_from (i + 1) n in
      if in_range parms (get v cells i) then get v cells i ∷ rest else rest

  unfoldable pub local_query_buffer : List Wrapped
  local_query_buffer = buffer_from 0 (get_record_count v)
