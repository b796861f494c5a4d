-- ===== src/Query/Point.antt =====
-- include/query/pointlookup.h: the record of a key, when keys are unique.
use dynamic_extension.Base.{
  ℕ, zero, suc, ◌+◌, Bool, false, ◌||◌, List, [], ◌∷◌, Option, none, some, ◌==◌, if◌then◌else◌,
}
use dynamic_extension.Record.{Record, Wrapped, is_deleted, is_tombstone}
use dynamic_extension.Shard.{ShardInterface}
use dynamic_extension.View.{BufferView, get, get_record_count}

abbrev pub found : Option Wrapped → List Wrapped
found none = []
found (some w) = w ∷ []

-- `buffer` is whether a page is handed in; it is passed on to the shard.
unfoldable pub local_query : {S : Type 0} → ShardInterface S → S → ℕ → Bool → List Wrapped
local_query I shard search_key buffer =
    found (I.point_lookup shard (record { key = search_key; value = 0 }) false buffer)

module _ {F : Type 0} (search_key : ℕ) (v : BufferView F) (cells : List Wrapped) where
  -- The loop of `local_query_buffer`: index `i`, with `n` rounds left.
  unfoldable pub buffer_from : ℕ → ℕ → List Wrapped
  buffer_from i zero = []
  buffer_from i (suc n) =
      let rest = buffer_from (i + 1) n in
      if (get v cells i).rec.key == search_key then get v cells i ∷ [] else rest

  unfoldable pub local_query_buffer : List Wrapped
  local_query_buffer = buffer_from 0 (get_record_count v)

-- The results of the buffer come first, then those of the shards.
unfoldable pub combine : List (List Wrapped) → List Record
combine [] = []
combine ([] ∷ local_results) = combine local_results
combine ((w ∷ ws) ∷ local_results) = if is_deleted w || is_tombstone w then [] else w.rec ∷ []
