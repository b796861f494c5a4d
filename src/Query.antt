-- ===== src/Query.antt =====
-- include/query: the queries. What the range query and the range count share is in this file.
pub mod Range
pub mod Count
pub mod Point
pub mod Keys
pub mod Answers
use dynamic_extension.Base.{ℕ, ◌&&◌, Bool, List, [], ◌∷◌, leb, ltb, if◌then◌else◌, length}
use dynamic_extension.Record.{Wrapped}

pub record Parameters : Type 0 where
  pub lower_bound : ℕ
  pub upper_bound : ℕ

-- What these queries ask of a shard: its array, and where a key would stand in it.
pub record SortedShard (S : Type 0) : Type 0 where
  pub get_data : S → List Wrapped
  pub get_lower_bound : S → ℕ → ℕ

pub record LocalQuery : Type 0 where
  pub start_idx : ℕ
  pub stop_idx : ℕ
  pub global_parms : Parameters

unfoldable pub local_preproc : {S : Type 0} → SortedShard S → S → Parameters → LocalQuery
local_preproc I shard parms = record {
  start_idx = I.get_lower_bound shard parms.lower_bound;
  stop_idx = length (I.get_data shard);
  global_parms = parms;
}

-- The first loop: the pointer moves to the first record that the lower bound allows. The list is
-- the array from the pointer to `stop_idx`.
unfoldable pub roll : ℕ → List Wrapped → List Wrapped
roll lower_bound [] = []
roll lower_bound (w ∷ ws) =
    let rest = roll lower_bound ws in if ltb w.rec.key lower_bound then rest else w ∷ ws

-- The test of the loops over a buffer.
unfoldable pub in_range : Parameters → Wrapped → Bool
in_range parms w = leb parms.lower_bound w.rec.key && leb w.rec.key parms.upper_bound
