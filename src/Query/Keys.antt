-- ===== src/Query/Keys.antt =====
-- Lists of records by key, for the queries (include/query).
use dynamic_extension.Base.{
  ℕ, zero, suc, ◌≤◌, ◌<◌, ◌≡◌, ◌≢◌, refl, List, [], ◌∷◌, if◌then◌else◌, length, take, drop, arith,
}
use dynamic_extension.Record.{Wrapped}
use dynamic_extension.Query.{Parameters, SortedShard, in_range}
use dynamic_extension.Query.Count.{LocalResultType, counted}

-- The records of a list with keys in the range.
unfoldable pub within : Parameters → List Wrapped → List Wrapped
within parms [] = []
within parms (w ∷ ws) = if in_range parms w then w ∷ within parms ws else within parms ws

-- The counts after every record of a list.
unfoldable pub count_all : List Wrapped → LocalResultType → LocalResultType
count_all [] result = result
count_all (w ∷ ws) result = count_all ws (counted w result)

-- No key is below `k`.
abbrev pub Above : ℕ → List Wrapped → Type 0
Above k [] = Unit
Above k (w ∷ ws) = (k ≤ w.rec.key) × Above k ws

-- Every key is below `k`.
abbrev pub Below : ℕ → List Wrapped → Type 0
Below k [] = Unit
Below k (w ∷ ws) = (w.rec.key < k) × Below k ws

-- No record has the key.
abbrev pub Missing : ℕ → List Wrapped → Type 0
Missing k [] = Unit
Missing k (w ∷ ws) = (w.rec.key ≢ k) × Missing k ws

abbrev pub SortedKeys : List Wrapped → Type 0
SortedKeys [] = Unit
SortedKeys (w ∷ ws) = Above w.rec.key ws × SortedKeys ws

-- What a shard promises of its array and of `get_lower_bound`.
pub record Sound {S : Type 0} (I : SortedShard S) (shard : S) (k : ℕ) : Type 0 where
  pub sorted : SortedKeys (I.get_data shard)
  pub below : Below k (take (I.get_lower_bound shard k) (I.get_data shard))

pub Above-weaken : (j k : ℕ) (ws : List Wrapped) → j ≤ k → Above k ws → Above j ws
Above-weaken j k [] h a = tt
Above-weaken j k (w ∷ ws) h a = (omega arith, Above-weaken j k ws h a.1)

pub SortedKeys-drop : (n : ℕ) (ws : List Wrapped) → SortedKeys ws → SortedKeys (drop n ws)
SortedKeys-drop zero ws h = h
SortedKeys-drop (suc n) [] h = tt
SortedKeys-drop (suc n) (w ∷ ws) h = SortedKeys-drop n ws h.1

pub drop_all : (ws : List Wrapped) → drop (length ws) ws ≡ []
drop_all [] = refl
drop_all (w ∷ ws) = drop_all ws

pub within-drop :
    (parms : Parameters) (n : ℕ) (ws : List Wrapped)
    → Below parms.lower_bound (take n ws)
    → within parms ws ≡ within parms (drop n ws)
unfolding within in_range
within-drop parms zero ws h = refl
within-drop parms (suc n) [] h = refl
within-drop parms (suc n) (w ∷ ws) h = ground (arith, h.0, within-drop parms n ws h.1)

pub within-Above :
    (parms : Parameters) (k : ℕ) (ws : List Wrapped)
    → parms.upper_bound < k
    → Above k ws
    → within parms ws ≡ []
unfolding within in_range
within-Above parms k [] h a = refl
within-Above parms k (w ∷ ws) h a = ground (arith, a.0, within-Above parms k ws h a.1)
