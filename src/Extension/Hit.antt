-- ===== src/Extension/Hit.antt =====
-- What the point lookup (include/query/pointlookup.h) answers over the buffer and every level.
use dynamic_extension.Base.{ℕ, true, ◌||◌, List, [], ◌∷◌, ◌++◌, if◌then◌else◌}
use dynamic_extension.Record.{Record, Wrapped, is_deleted, is_tombstone}
use dynamic_extension.View.{BufferView}
use dynamic_extension.View
use dynamic_extension.Shard.{ShardInterface, all_records}
use dynamic_extension.Level.{Level}
use dynamic_extension.Level.Slots.{Filled}
use dynamic_extension.Query.Point

-- The first record decides: a live one is the answer, one that is deleted stands for none.
unfoldable pub verdict : List Wrapped → List Record
verdict [] = []
verdict (w ∷ ws) = if is_deleted w || is_tombstone w then [] else w.rec ∷ []

-- The slots of every level are filled from the front.
abbrev pub AllFilled : {S : Type 0} → List (Level S) → Type 0
AllFilled [] = Unit
AllFilled (l ∷ ls) = Filled l.shard_cnt l.shards × AllFilled ls

module _ {S : Type 0} (I : ShardInterface S) where
  -- What the queried shards find, in order.
  unfoldable finds : List (S × ℕ) → List Wrapped
  finds [] = []
  finds (sq ∷ rest) = Point.local_query I sq.0 sq.1 true ++ finds rest

module _ {S : Type 0} (I : ShardInterface S) (search_key : ℕ) where
  -- What the shards of the levels find, in order.
  unfoldable pub lookups : List (Level S) → List Wrapped
  lookups [] = []
  lookups (l ∷ ls) = all_records (λ s. Point.local_query I s search_key true) l.shards ++ lookups ls
