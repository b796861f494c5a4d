-- ===== src/View/Marks.antt =====
-- The loop that marks a record in the ring (`delete_record` of BufferView.h).
use mathlib.Core.Path.{ap₂}
use dynamic_extension.Base.{
  ℕ, zero, suc, ◌+◌, ◌≤◌, ◌<◌, ◌≡◌, ◌≢◌, ◌⊎◌, refl, ap, ◌∙◌, Bool, true, false, ◌||◌, none, some,
  List, [], ◌∷◌, ◌++◌, arith, if◌then◌else◌, set, length, get_or-set_self, get_or-set_ne,
  Bool-cases, inl, inr,
}
use dynamic_extension.Record.{Record, Wrapped, rec_eq, set_delete}
use dynamic_extension.View.{blank, cell, mark_first}
use dynamic_extension.View.Contents.{cells_from}

unfoldable pub shows : Record → List Wrapped → Bool
shows r [] = false
shows r (w ∷ ws) = rec_eq w.rec r || shows r ws

-- The list with its first match marked as deleted.
unfoldable pub tag_first : Record → List Wrapped → List Wrapped
tag_first r [] = []
tag_first r (w ∷ ws) = if rec_eq w.rec r then set_delete w ∷ ws else w ∷ tag_first r ws

shows-append : (r : Record) (xs ys : List Wrapped) → shows r (xs ++ ys) ≡ (shows r xs || shows r ys)
unfolding shows
shows-append r [] ys = refl
shows-append r (x ∷ xs) ys = ground (arith, shows-append r xs ys)

tag_first-append :
    (r : Record) (xs ys : List Wrapped)
    → tag_first r (xs ++ ys) ≡ (if shows r xs then tag_first r xs ++ ys else xs ++ tag_first r ys)
unfolding shows tag_first
tag_first-append r [] ys = refl
tag_first-append r (x ∷ xs) ys = ground (arith, tag_first-append r xs ys)

pub tag_first-none : (r : Record) (xs : List Wrapped) → shows r xs ≡ false → tag_first r xs ≡ xs
unfolding shows tag_first
tag_first-none r [] h = refl
tag_first-none r (x ∷ xs) h = ground (arith, tag_first-none r xs)

-- A loop of `delete_record` that finds nothing, and one that marks a cell of its range.
pub mark_first-none :
    (r : Record) (cells : List Wrapped) (n i : ℕ)
    → mark_first r cells i n ≡ none
    → shows r (cells_from cells i n) ≡ false
unfolding mark_first shows cells_from
mark_first-none r cells zero i h = refl
mark_first-none r cells (suc n) i h = ground (arith, mark_first-none r cells n (i + 1))

pub mark_first-place :
    (r : Record) (cells marked : List Wrapped) (n i : ℕ)
    → mark_first r cells i n ≡ some marked
    → (k : ℕ) × (i ≤ k) × (k < i + n) × (marked ≡ set cells k (set_delete (cell cells k)))
unfolding mark_first
mark_first-place r cells marked zero i h = cc
mark_first-place r cells marked (suc n) i h = elim (Bool-cases (rec_eq (cell cells i).rec r)) [
  | inl e ↦ (i, omega arith, omega arith, ground arith)
  | inr e ↦
      let (k, low, high, same) = mark_first-place r cells marked n (i + 1) (ground arith) in
      (k, omega arith, omega arith, same)
]

-- A loop whose range holds a match ends with one.
pub mark_first-found :
    (r : Record) (cells : List Wrapped) (i : ℕ)
    → rec_eq (cell cells i).rec r ≡ true
    → (n j : ℕ) → j ≤ i
    → i < j + n
    → (marked : List Wrapped) × (mark_first r cells j n ≡ some marked)
unfolding mark_first
mark_first-found r cells i same zero j low high = absurd (omega arith)
mark_first-found r cells i same (suc n) j low high =
    elim (Bool-cases (rec_eq (cell cells j).rec r)) [
      | inl e ↦ (set cells j (set_delete (cell cells j)), rw e refl)
      | inr e ↦
          let apart : j ≢ i = λ t. cc (ap (λ k. rec_eq (cell cells k).rec r) t) in
          let (marked, found) =
            mark_first-found r cells i same n (j + 1) (omega arith) (omega arith) in
          (marked, rw e found)
    ]

pub le_or_lt : (a b : ℕ) → (a ≤ b) ⊎ (b < a)
le_or_lt a b = omega arith

cells_from-set :
    (cells : List Wrapped) (k : ℕ) (x : Wrapped) (n i : ℕ)
    → (k < i) ⊎ (i + n ≤ k)
    → cells_from (set cells k x) i n ≡ cells_from cells i n
unfolding cells_from
cells_from-set cells k x zero i h = refl
cells_from-set cells k x (suc n) i h =
    ap₂ ◌∷◌ (get_or-set_ne cells k i x blank (λ e. omega arith))
      (cells_from-set cells k x n (i + 1) (omega arith))

-- A loop leaves the cells outside its range alone.
pub mark_first-outside :
    (r : Record) (cells marked : List Wrapped) (n i m j : ℕ)
    → mark_first r cells i n ≡ some marked
    → (j + m ≤ i) ⊎ (i + n ≤ j)
    → cells_from marked j m ≡ cells_from cells j m
mark_first-outside r cells marked n i m j h away =
    let (k, low, high, same) = mark_first-place r cells marked n i h in
    ap (λ t. cells_from t j m) same ∙ cells_from-set cells k _ m j (omega arith)

pub mark_first-some :
    (r : Record) (cells marked : List Wrapped) (n i : ℕ)
    → i + n ≤ length cells
    → mark_first r cells i n ≡ some marked
    → (shows r (cells_from cells i n) ≡ true)
      × (cells_from marked i n ≡ tag_first r (cells_from cells i n))
unfolding mark_first shows cells_from tag_first
mark_first-some r cells marked zero i fits h = cc
mark_first-some r cells marked (suc n) i fits h = elim (Bool-cases (rec_eq (cell cells i).rec r)) [
  | inl e ↦
      let same : marked ≡ set cells i (set_delete (cell cells i)) = ground arith in
      let head : cell marked i ≡ set_delete (cell cells i) =
        ap (λ t. cell t i) same ∙ get_or-set_self cells i _ blank (omega arith) in
      let rest : cells_from marked (i + 1) n ≡ cells_from cells (i + 1) n =
        ap (λ t. cells_from t (i + 1) n) same ∙ cells_from-set cells i _ n (i + 1) (omega arith) in
      ground arith
  | inr e ↦
      let later : mark_first r cells (i + 1) n ≡ some marked = ground arith in
      let (k, low, high, same) = mark_first-place r cells marked n (i + 1) later in
      let head : cell marked i ≡ cell cells i =
        ap (λ t. cell t i) same ∙ get_or-set_ne cells k i _ blank (λ e. omega arith) in
      ground (arith, mark_first-some r cells marked n (i + 1) (omega arith) later)
]

module _ (r : Record) (xs ys : List Wrapped) where
  pub tag-left :
      (xs' : List Wrapped)
      → (shows r xs ≡ true) × (xs' ≡ tag_first r xs)
      → (true ≡ shows r (xs ++ ys)) × (xs' ++ ys ≡ tag_first r (xs ++ ys))
  tag-left xs' h = rw (shows-append r xs ys, tag_first-append r xs ys, h.0, h.1) (refl, refl)

  pub tag-right :
      (ys' : List Wrapped)
      → shows r xs ≡ false
      → (shows r ys ≡ true) × (ys' ≡ tag_first r ys)
      → (true ≡ shows r (xs ++ ys)) × (xs ++ ys' ≡ tag_first r (xs ++ ys))
  tag-right ys' m h = rw (shows-append r xs ys, tag_first-append r xs ys, m, h.0, h.1) (refl, refl)

  pub tag-neither :
      shows r xs ≡ false
      → shows r ys ≡ false
      → (false ≡ shows r (xs ++ ys)) × (xs ++ ys ≡ tag_first r (xs ++ ys))
  tag-neither m n =
      rw (shows-append r xs ys, tag_first-append r xs ys, m, n, tag_first-none r ys n) (refl, refl)
