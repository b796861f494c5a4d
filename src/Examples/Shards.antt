-- ===== src/Examples/Shards.antt =====
-- Shards under an index, at concrete inputs.
use dynamic_extension.Base.{
  ℕ, ◌<◌, ◌≤◌, ◌≡◌, ◌≢◌, ◌↔◌, refl, ap, zero, suc, ◌==◌, Option, none, some, List, [], ◌∷◌, map,
  arith, length, ltb, if◌then◌else◌, true, false,
}
use dynamic_extension.Bloom.{exact}
use dynamic_extension.Record.{Record, Wrapped, rec_lt, is_deleted, is_tombstone}
use dynamic_extension.Record.Net.{SameNet, sum_by}
use dynamic_extension.Merge.Scan.{Untagged}
use dynamic_extension.Merge.Array.{IsSorted, All}
use dynamic_extension.Merge.Loop.{arrays}
use dynamic_extension.Shard.{all_records}
use dynamic_extension.KeySearch.Split.{key_at, one_before, Splits}
use dynamic_extension.KeySearch.Walk.{Locates}
use dynamic_extension.Isam
use dynamic_extension.Pgm
use dynamic_extension.TrieSpline
use dynamic_extension.Pgm.{PgmIndex, PgmLaws, Pgm}
use dynamic_extension.Pgm.Lookup.{IsIndexed, point_lookup-Locates}
use dynamic_extension.TrieSpline.{Spline, SplineLaws, TrieSpline, Within, of_shards}
use dynamic_extension.TrieSpline.Built.{IsSplined}
use dynamic_extension.TrieSpline.Lookup.{get_lower_bound_lem}
use dynamic_extension.TrieSpline.Merged.{arrays_of, of_shards-IsSplined}
use dynamic_extension.Isam.Nodes.{Entries, build_internal_levels, get_lower_bound, get_upper_bound}
use dynamic_extension.Isam.Search.{build_internal_levels-bounds, build_internal_levels-point_lookup}
use dynamic_extension.Examples.Queue.{sorted_queue, sorted_queue-QueueLaws}

abbrev cell : ℕ → ℕ → Wrapped
cell header key = record { header = header; rec = record { key = key; value = 0 } }

abbrev cells : List Wrapped
cells = cell 4 3 ∷ cell 4 5 ∷ cell 4 7 ∷ cell 4 9 ∷ cell 4 9 ∷ []

unfoldable cells-IsSorted : IsSorted cells
unfolding rec_lt
cells-IsSorted = (
  (refl, (refl, (refl, (refl, tt)))),
  ((refl, (refl, (refl, tt))), ((refl, (refl, tt)), ((refl, tt), (tt, tt)))),
)

-- Two records below a slot, and two slots in a node: three levels of nodes.
build_internal_levels-bounds_example :
    (root : Entries) × (build_internal_levels cells 2 2 ≡ some root)
    × ((key : ℕ)
        → (l : ℕ) × (u : ℕ) × (get_lower_bound cells root key ≡ some l)
          × (get_upper_bound cells root key ≡ some u)
          × Splits cells key l
          × ((i : ℕ) → i < length cells → ((l ≤ i) × (i < u)) ↔ (key_at cells i ≡ key)))
build_internal_levels-bounds_example =
    build_internal_levels-bounds cells 2 2 cells-IsSorted (omega arith) (omega arith) (omega arith)

build_internal_levels-point_lookup_example :
    (root : Entries) × (build_internal_levels cells 2 2 ≡ some root)
    × ((rec : Record)
        → Locates cells rec (Isam.Nodes.point_lookup cells root rec false)
          × (Isam.Nodes.point_lookup cells root rec true ≡ none))
build_internal_levels-point_lookup_example =
    build_internal_levels-point_lookup cells 2 2 cells-IsSorted (omega arith) (omega arith)
      (omega arith)

-- An index that remembers the keys, and predicts the whole array.
unfoldable keep_keys : PgmIndex (List ℕ)
keep_keys = record {
  empty = [];
  build = λ keys. keys;
  search = λ keys key. record { lo = 0; hi = length keys };
}

length-keys : (ws : List Wrapped) → length (map (λ w. w.rec.key) ws) ≡ length ws
length-keys [] = refl
length-keys (w ∷ ws) = ap suc (length-keys ws)

keep_keys-PgmLaws : PgmLaws keep_keys
unfolding keep_keys
keep_keys-PgmLaws = record {
  window = λ ws key r s h split.
      (omega arith, omega (arith, length-keys ws), omega (arith, length-keys ws));
}

unfoldable indexed_cells : Pgm (List ℕ)
indexed_cells = record { records = cells; tombstone_cnt = 0; pgm = map (λ w. w.rec.key) cells }

indexed_cells-IsIndexed : IsIndexed keep_keys indexed_cells
unfolding indexed_cells keep_keys sum_by is_tombstone
indexed_cells-IsIndexed = record { sorted = cells-IsSorted; counted = refl; indexed = λ h. refl }

point_lookup-Locates_example :
    Locates
      (indexed_cells.records)
      (record { key = 7; value = 0 })
      (Pgm.point_lookup keep_keys indexed_cells (record { key = 7; value = 0 }))
point_lookup-Locates_example =
    point_lookup-Locates keep_keys keep_keys-PgmLaws indexed_cells indexed_cells-IsIndexed
      (record { key = 7; value = 0 }) (unfold indexed_cells in omega arith)

unfoldable whole_window : Spline (List ℕ)
whole_window = record {
  empty = [];
  build = λ lo hi keys. keys;
  search = λ keys key. record { lo = 0; hi = length keys };
}

whole_window-SplineLaws : SplineLaws whole_window
unfolding whole_window
whole_window-SplineLaws = record {
  window = λ lo hi ws key r s h w split.
      (omega arith, omega (arith, length-keys ws), omega (arith, length-keys ws));
}

abbrev splined : (header key : ℕ) → TrieSpline (List ℕ)
splined header key = record {
  records = cell header key ∷ [];
  tombstone_cnt = if header == 5 then 1 else 0;
  max_key = key;
  min_key = key;
  ts = [];
}

insert-IsSplined : IsSplined whole_window (splined 4 7)
unfolding sum_by is_tombstone
insert-IsSplined = record {
  lo = 0;
  hi = 9;
  sorted = (tt, tt);
  counted = refl;
  bounded = ((omega arith, omega arith), tt);
  built_over = ((omega arith, omega arith), tt);
  splined = λ h. absurd (omega arith);
}

erasure-IsSplined : IsSplined whole_window (splined 5 8)
unfolding sum_by is_tombstone
erasure-IsSplined = record {
  lo = 0;
  hi = 9;
  sorted = (tt, tt);
  counted = refl;
  bounded = ((omega arith, omega arith), tt);
  built_over = ((omega arith, omega arith), tt);
  splined = λ h. absurd (omega arith);
}

-- One record of key 3 and fifty of key 7, under a spline.
abbrev repeated : ℕ → List Wrapped
repeated zero = []
repeated (suc n) = cell 4 7 ∷ repeated n

abbrev long_array : List Wrapped
long_array = cell 4 3 ∷ repeated 50

repeated-All : (P : Wrapped → Type 0) → P (cell 4 7) → (n : ℕ) → All P (repeated n)
repeated-All P p zero = tt
repeated-All P p (suc n) = (p, repeated-All P p n)

repeated-Within : (n : ℕ) → Within 3 7 (repeated n)
repeated-Within zero = tt
repeated-Within (suc n) = ((omega arith, omega arith), repeated-Within n)

repeated-IsSorted : (n : ℕ) → IsSorted (repeated n)
unfolding rec_lt
repeated-IsSorted zero = tt
repeated-IsSorted (suc n) =
    (repeated-All (λ v. rec_lt v.rec (cell 4 7).rec ≡ false) refl n, repeated-IsSorted n)

repeated-key_at : (n i : ℕ) → i < n → key_at (repeated n) i ≡ 7
repeated-key_at zero i h = absurd (omega arith)
repeated-key_at (suc n) zero h = refl
repeated-key_at (suc n) (suc i) h = repeated-key_at n i (omega arith)

length-repeated : (n : ℕ) → length (repeated n) ≡ n
length-repeated zero = refl
length-repeated (suc n) = ap suc (length-repeated n)

unfoldable long_splined : TrieSpline (List ℕ)
long_splined = record {
  records = long_array;
  tombstone_cnt = 0;
  max_key = 7;
  min_key = 3;
  ts = map (λ w. w.rec.key) long_array;
}

long_splined-IsSplined : IsSplined whole_window long_splined
unfolding long_splined whole_window sum_by is_tombstone rec_lt
long_splined-IsSplined = record {
  lo = 3;
  hi = 7;
  sorted = (repeated-All (λ v. rec_lt v.rec (cell 4 3).rec ≡ false) refl 50, repeated-IsSorted 50);
  counted = refl;
  bounded = ((omega arith, omega arith), repeated-Within 50);
  built_over = ((omega arith, omega arith), repeated-Within 50);
  splined = λ h. refl;
}

below_one : (i : ℕ) → i < 1 → key_at long_array i < 5
below_one zero h = omega arith
below_one (suc i) h = absurd (omega arith)

from_one : (i : ℕ) → 1 ≤ i → i < length long_array → 5 ≤ key_at long_array i
from_one zero h k = absurd (omega arith)
from_one (suc i) h k = omega (arith, repeated-key_at 50 i (omega (arith, length-repeated 50)))

long_splined-Splits : Splits long_splined.records 5 1
unfolding long_splined
long_splined-Splits = (omega arith, below_one, from_one)

long_splined-length : length long_splined.records ≢ 50
unfolding long_splined
long_splined-length e = absurd (omega (arith, e, length-repeated 50))

-- The search for a key that is not there goes through the spline and ends one position early.
get_lower_bound_lem_example :
    TrieSpline.get_lower_bound whole_window long_splined 5
    ≡ some (if ltb (length long_splined.records) 50 then 1 else one_before long_splined.records 5 1)
get_lower_bound_lem_example =
    get_lower_bound_lem whole_window whole_window-SplineLaws long_splined long_splined-IsSplined 5 1
      long_splined-length long_splined-Splits

abbrev two_splined : List (Option (TrieSpline (List ℕ)))
two_splined = some (splined 4 7) ∷ some (splined 5 8) ∷ []

of_shards-IsSplined_example :
    (t : TrieSpline (List ℕ)) × (of_shards whole_window sorted_queue exact two_splined ≡ some t)
    × IsSplined whole_window t
    × Untagged t.records
    × SameNet (arrays (arrays_of two_splined)) t.records
unfolding all_records is_deleted
of_shards-IsSplined_example =
    of_shards-IsSplined whole_window sorted_queue sorted_queue-QueueLaws exact two_splined
      (omega arith) (insert-IsSplined, omega arith, (erasure-IsSplined, omega arith, tt))
      (refl, (refl, tt))
