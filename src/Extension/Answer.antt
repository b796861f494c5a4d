-- ===== src/Extension/Answer.antt =====
-- include/framework/DynamicExtension.h: the job of a query, over the buffer and the shards of every
-- level, and the queries of include/query that it runs here. In all of them `distribute_query` does
-- nothing and `repeat` answers no, so there is one round.
use dynamic_extension.Base.{
  ℕ, zero, suc, Bool, true, ◌&&◌, ◌||◌, Option, none, some, List, [], ◌∷◌, ◌++◌, ltb, if◌then◌else◌,
  length,
}
use dynamic_extension.Record.{Record, Wrapped}
use dynamic_extension.View.{BufferView}
use dynamic_extension.Shard.{ShardInterface}
use dynamic_extension.Level.{Level}
use dynamic_extension.Query.Point
use dynamic_extension.Extension.{DynamicExtension}
use dynamic_extension.Extension.Reads.{with_view}

-- include/framework/interface/Query.h: what the framework asks of a query, for a shard `S`, a
-- view `V`, parameters `P`, a local query `Q`, that of a buffer `B`, a local result `R` and an output `O`.
-- The last argument of `local_query` is whether a page buffer is handed in, which the job does.
pub record QueryType (S V P Q B R O : Type 0) : Type 0 where
  pub local_preproc : S → P → Q
  pub local_preproc_buffer : V → P → B
  pub local_query : S → Q → Bool → List R
  pub local_query_buffer : B → List R
  pub combine : List (List R) → O
  pub early_abort : Bool

module _ {S V P Q B R O : Type 0} (T : QueryType S V P Q B R O) where
  -- A level pushes the shard and the local query of each slot below `n` that has a shard.
  -- The ids that go with the shards are never read; they are left out.
  unfoldable pub level_queries : P → List (Option S) → ℕ → List (S × Q)
  level_queries parms ss zero = []
  level_queries parms [] (suc n) = []
  level_queries parms (none ∷ ss) (suc n) = level_queries parms ss n
  level_queries parms (some s ∷ ss) (suc n) =
      (s, T.local_preproc s parms) ∷ level_queries parms ss n

  unfoldable pub get_local_queries : P → List (Level S) → List (S × Q)
  get_local_queries parms [] = []
  get_local_queries parms (l ∷ ls) =
      level_queries parms l.shards l.shard_cnt ++ get_local_queries parms ls

  -- The test behind each local query.
  unfoldable pub ends_early : List R → Bool
  ends_early result = T.early_abort && ltb 0 (length result)

  -- The loop over the shards. Once it is left, the results behind stay empty.
  unfoldable pub run_queries : Bool → List (S × Q) → List (List R)
  run_queries left [] = []
  run_queries left (sq ∷ rest) =
      let result = if left then [] else T.local_query sq.0 sq.1 true in
      result ∷ run_queries (left || ends_early result) rest

  unfoldable pub query_results : B → List (S × Q) → List (List R)
  query_results buffer_query local_queries =
      let result = T.local_query_buffer buffer_query in
      result ∷ run_queries (ends_early result) local_queries

module _ {F S P Q B R O : Type 0} (T : QueryType S (BufferView F × List Wrapped) P Q B R O) where
  unfoldable pub async_query : DynamicExtension F S → P → Option (O × DynamicExtension F S)
  async_query e parms = with_view e (λ view cells. T.combine (
      query_results T (T.local_preproc_buffer (view, cells) parms)
        (get_local_queries T parms e.structure.levels)))

-- include/query/pointlookup.h; the parameters are the key.
abbrev pub point_query :
    {F S : Type 0}
    → ShardInterface S
    → QueryType S
        (BufferView F × List Wrapped)
        ℕ
        ℕ
        ((BufferView F × List Wrapped) × ℕ)
        Wrapped
        (List Record)
point_query I = record {
  local_preproc = λ shard search_key. search_key;
  local_preproc_buffer = λ shown search_key. (shown, search_key);
  local_query = Point.local_query I;
  local_query_buffer = λ query. Point.local_query_buffer query.1 query.0.0 query.0.1;
  combine = Point.combine;
  early_abort = true;
}
