-- ===== src/Pgm/LowerBound.antt =====
-- What `get_lower_bound` of include/shard/PGM.h returns.
use mathlib.Core.Option
use dynamic_extension.Base.{
  ℕ, ◌-◌, ◌<◌, ◌≤◌, ◌≡◌, ap, ◌∙◌, some, List, arith, length, ◌==◌, Bool-cases, inl, inr,
}
use dynamic_extension.Record.{Wrapped}
use dynamic_extension.Merge.Array.{IsSorted}
use dynamic_extension.KeySearch.{Bound}
use dynamic_extension.KeySearch.Split.{one_before, Splits, get_elem?-key_at}
use dynamic_extension.KeySearch.Window.{search_window_lem, previous_fits_lem}
use dynamic_extension.Pgm.{PgmIndex, PgmLaws, Pgm, keys_of, settle, bound_within, get_lower_bound}

pub settle_lem :
    (ws : List Wrapped) (key r : ℕ) → Splits ws key r → settle ws key r ≡ some (one_before ws key r)
unfolding settle Option.bind
settle_lem ws key r split = elim (Bool-cases (r == length ws)) [
  | inl e ↦ ground arith
  | inr e ↦
      let (w, f, g) = get_elem?-key_at ws r (ground (arith, split.0)) in
      ground (
        arith,
        f,
        g,
        previous_fits_lem ws key r (ground (arith, split.0)),
        split.1 (r - 1),
        split.2 r,
      )
]

bound_within_lem :
    (ws : List Wrapped) (key r : ℕ)
    → Splits ws key r
    → (bound : Bound) → bound.lo ≤ r
    → r ≤ bound.hi
    → bound.hi ≤ length ws
    → bound_within ws key bound ≡ some (one_before ws key r)
unfolding bound_within Option.bind
bound_within_lem ws key r split bound low high inside =
    ground
      (arith, search_window_lem ws key r split bound low high inside, settle_lem ws key r split)

module _ {X : Type 0} (I : PgmIndex X) (laws : PgmLaws I) (t : Pgm X) (sorted : IsSorted t.records)
    (built : t.pgm ≡ I.build (keys_of t.records)) (some_records : 0 < length t.records) where
  -- On a sorted array that is not empty, under an index that was built over its keys, and if the
  -- index predicts a window that holds the lower bound, `get_lower_bound` returns a position, and
  -- reads nothing outside of the array. The position is the lower bound, if the array holds the
  -- key there, or if it is the first position or the end, and the position before it otherwise.
  pub get_lower_bound_lem :
      (key r : ℕ)
      → Splits t.records key r
      → get_lower_bound I t key ≡ some (one_before t.records key r)
  unfolding get_lower_bound
  get_lower_bound_lem key r split =
      let (low, high, inside) = laws.window t.records key r sorted some_records split in
      ap (λ x. bound_within t.records key (I.search x key)) built
      ∙ bound_within_lem t.records key r split _ low high inside
