-- ===== src/Query/Count.antt =====
-- include/query/rangecount.h: the number of records whose keys are in a range.
use mathlib.Core.Option
use dynamic_extension.Base.{
  ℕ, zero, suc, ◌+◌, ◌-◌, List, [], ◌∷◌, Option, none, some, ltb, leb, ◌==◌, if◌then◌else◌, length,
  take, drop,
}
use dynamic_extension.Record.{Wrapped, is_deleted, is_tombstone}
use dynamic_extension.View.{BufferView, get, get_record_count}
use dynamic_extension.Query.{Parameters, SortedShard, LocalQuery, roll, in_range}

pub record LocalResultType : Type 0 where
  pub record_count : ℕ
  pub tombstone_count : ℕ

abbrev pub no_result : LocalResultType
no_result = record { record_count = 0; tombstone_count = 0 }

-- What both loops do with a record in the range.
unfoldable pub counted : Wrapped → LocalResultType → LocalResultType
counted w result = if is_deleted w then result else record {
  record_count = result.record_count + 1;
  tombstone_count = if is_tombstone w then result.tombstone_count + 1 else result.tombstone_count;
}

-- The second loop, with the counts so far.
unfoldable pub run : ℕ → List Wrapped → LocalResultType → LocalResultType
run upper_bound [] result = result
run upper_bound (w ∷ ws) result =
    let rest = run upper_bound ws (counted w result) in
    if leb w.rec.key upper_bound then rest else result

unfoldable pub local_query : {S : Type 0} → SortedShard S → S → LocalQuery → List LocalResultType
local_query I shard query =
    if query.start_idx == length (I.get_data shard)
    then []
    else run query.global_parms.upper_bound
        (roll query.global_parms.lower_bound
          (drop query.start_idx (take query.stop_idx (I.get_data shard))))
        no_result
      ∷ []

module _ {F : Type 0} (parms : Parameters) (v : BufferView F) (cells : List Wrapped) where
  -- The loop of `local_query_buffer`: index `i`, with `n` rounds left.
  unfoldable pub buffer_from : ℕ → ℕ → LocalResultType → LocalResultType
  buffer_from i zero result = result
  buffer_from i (suc n) result =
      buffer_from (i + 1) n
        (if in_range parms (get v cells i) then counted (get v cells i) result else result)

  unfoldable pub local_query_buffer : List LocalResultType
  local_query_buffer = buffer_from 0 (get_record_count v) no_result ∷ []

-- The loop of `combine`. It reads the first result of every shard and the buffer: `none` is a
-- read of one that is not there.
unfoldable pub sum_results : List (List LocalResultType) → LocalResultType → Option LocalResultType
sum_results [] total = some total
sum_results ([] ∷ local_results) total = none
sum_results ((r ∷ rs) ∷ local_results) total = sum_results local_results record {
  record_count = total.record_count + r.record_count;
  tombstone_count = total.tombstone_count + r.tombstone_count;
}

unfoldable pub combine : List (List LocalResultType) → Option ℕ
combine local_results =
    Option.map
      (λ t.
        t.record_count
        - (if ltb t.record_count t.tombstone_count then t.record_count else t.tombstone_count))
      (sum_results local_results no_result)
