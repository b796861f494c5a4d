-- ===== src/View/Tombstone.antt =====
-- `check_tombstone` of a view (BufferView.h) against the records that the view shows.
use dynamic_extension.Base.{
  ℕ, zero, suc, ◌+◌, ◌≡◌, refl, Bool, true, false, ◌&&◌, ◌||◌, some, List, [], ◌∷◌, arith,
  Option-cases, inl, inr,
}
use dynamic_extension.Bloom.{Bloom}
use dynamic_extension.Record.{Record, Wrapped, rec_eq, is_tombstone}
use dynamic_extension.Record.Order.{rec_eq_iff}
use dynamic_extension.View.{
  BufferView, get_record_count, check_from, check_tombstone, filter_misses,
}
use dynamic_extension.View.Contents.{gets, contents}

unfoldable pub has_tombstone : Record → List Wrapped → Bool
has_tombstone r [] = false
has_tombstone r (w ∷ ws) = rec_eq w.rec r && is_tombstone w || has_tombstone r ws

-- Every tombstone of the list is in the filter.
abbrev pub Covers : {F : Type 0} → Bloom F → F → List Wrapped → Type 0
Covers b f [] = Unit
Covers b f (w ∷ ws) = (is_tombstone w ≡ true → b.lookup f w.rec ≡ true) × Covers b f ws

module _ {F : Type 0} (b : Bloom F) where
  has_tombstone-lookup :
      (f : F) (r : Record) (ws : List Wrapped)
      → Covers b f ws
      → has_tombstone r ws ≡ true
      → b.lookup f r ≡ true
  unfolding has_tombstone
  has_tombstone-lookup f r [] c h = cc
  has_tombstone-lookup f r (w ∷ ws) c h =
      ground (arith, rec_eq_iff w.rec r, c.0, has_tombstone-lookup f r ws c.1)

  check_from-gets :
      (v : BufferView F) (cells : List Wrapped) (r : Record) (n i : ℕ)
      → check_from v cells r i n ≡ has_tombstone r (gets v cells i n)
  unfolding check_from gets has_tombstone
  check_from-gets v cells r zero i = refl
  check_from-gets v cells r (suc n) i = ground (arith, check_from-gets v cells r n (i + 1))

  -- If the view's filter, where it has one, knows every tombstone that the view shows, then
  -- `check_tombstone` answers exactly whether the view shows a tombstone of the record.
  pub check_tombstone-contents :
      (v : BufferView F) (cells : List Wrapped) (r : Record)
      → ((f : F) → v.tombstone_filter ≡ some f → Covers b f (contents v cells))
      → check_tombstone b v cells r ≡ has_tombstone r (contents v cells)
  unfolding check_tombstone filter_misses contents
  check_tombstone-contents v cells r known = elim (Option-cases v.tombstone_filter) [
    | inl e ↦ simp e (check_from-gets v cells r (get_record_count v) 0)
    | inr (f, e) ↦ simp e (
        ground (
          arith,
          check_from-gets v cells r (get_record_count v) 0,
          has_tombstone-lookup f r (gets v cells 0 (get_record_count v)) (known f e),
        ))
  ]
