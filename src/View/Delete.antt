-- ===== src/View/Delete.antt =====
-- `delete_record` of a view (BufferView.h) against the records that the view shows.
use dynamic_extension.Base.{
  ℕ, ◌-◌, ◌%◌, ◌<◌, ◌≡◌, sym, ap, ◌∙◌, Bool, true, none, some, List, [], arith, ltb, ltb→lt, length,
  length-set, Bool-cases, Option-cases, inl, inr,
}
use dynamic_extension.Record.{Record, Wrapped, rec_eq}
use dynamic_extension.View.{BufferView, cell, mark_first, finish, delete_record}
use dynamic_extension.View.Contents.{
  cells_from, IsWindow, contents, contents-flat, contents-wrapped, window_start, window_stop,
}
use dynamic_extension.View.Marks.{
  shows, tag_first, tag_first-none, mark_first-none, mark_first-place, mark_first-found, le_or_lt,
  mark_first-outside, mark_first-some, tag-left, tag-right, tag-neither,
}

module _ {F : Type 0} (v : BufferView F) (cells : List Wrapped) (r : Record) where
  marked-IsWindow :
      (marked : List Wrapped) (n i : ℕ)
      → mark_first r cells i n ≡ some marked
      → IsWindow v cells
      → IsWindow v marked
  marked-IsWindow marked n i h w =
      let (k, low, high, same) = mark_first-place r cells marked n i h in
      record {
        start_lem = w.start_lem;
        stop_lem = w.stop_lem;
        size = ap length same ∙ length-set cells k _ ∙ w.size;
        ordered = w.ordered;
        fits = w.fits;
        small = w.small;
      }

  -- What `delete_record` should do: report whether the view shows the record, and mark the first
  -- match among what it shows.
  abbrev pub Deletes : Bool × List Wrapped → Type 0
  Deletes result =
      (result.0 ≡ shows r (contents v cells))
      × (contents v result.1 ≡ tag_first r (contents v cells))

  delete-flat :
      IsWindow v cells
      → v.start < v.stop
      → Deletes (finish cells (mark_first r cells v.start (v.stop - v.start)))
  delete-flat w h = elim (Option-cases (mark_first r cells v.start (v.stop - v.start))) [
    | inl e ↦
        let miss = mark_first-none r cells (v.stop - v.start) v.start e in
        let flat = (contents-flat w (omega arith)).0 in
        rw (e, flat) (sym miss, sym (tag_first-none r _ miss))
    | inr (marked, e) ↦
        let hit =
          mark_first-some r cells marked (v.stop - v.start) v.start
            (ground (arith, w.size, window_stop w, window_start w, w.fits, w.ordered)) e in
        let flat = (contents-flat w (omega arith)).0 in
        let flat' = (contents-flat (marked-IsWindow marked _ _ e w) (omega arith)).0 in
        rw (e, flat, flat') (sym hit.0, hit.1)
  ]

  delete-wrapped :
      IsWindow v cells
      → v.stop < v.start
      → Deletes (elim (mark_first r cells v.start (v.cap - v.start)) [
        | some marked ↦ (true, marked)
        | none ↦ finish cells (mark_first r cells 0 v.stop)
      ])
  delete-wrapped w h = elim (Option-cases (mark_first r cells v.start (v.cap - v.start))) [
    | inr (marked, e) ↦
        let hit =
          mark_first-some r cells marked (v.cap - v.start) v.start
            (omega (arith, w.size, window_start w)) e in
        let other = mark_first-outside r cells marked _ v.start v.stop 0 e (inl (omega arith)) in
        rw (e, contents-wrapped w h, contents-wrapped (marked-IsWindow marked _ _ e w) h, other)
          (tag-left r (cells_from cells v.start (v.cap - v.start)) (cells_from cells 0 v.stop) _
            hit)
    | inl e ↦ elim (Option-cases (mark_first r cells 0 v.stop)) [
      | inl e' ↦
          rw (e, e', contents-wrapped w h)
            (tag-neither r (cells_from cells v.start (v.cap - v.start)) (cells_from cells 0 v.stop)
              (mark_first-none r cells _ v.start e) (mark_first-none r cells _ 0 e'))
      | inr (marked, e') ↦
          let hit =
            mark_first-some r cells marked v.stop 0 (omega (arith, w.size, window_start w)) e' in
          let other =
            mark_first-outside r cells marked v.stop 0 (v.cap - v.start) v.start e'
              (inr (omega arith)) in
          rw
            (
              e,
              e',
              contents-wrapped w h,
              contents-wrapped (marked-IsWindow marked _ _ e' w) h,
              other,
            )
            (tag-right r (cells_from cells v.start (v.cap - v.start)) (cells_from cells 0 v.stop) _
              (mark_first-none r cells _ v.start e) hit)
    ]
  ]

  -- On a view that shows at least one record, `delete_record` reports whether the view shows the
  -- record, and marks the first match in the order of the view and nothing else that it shows.
  pub delete_record-contents :
      IsWindow v cells → v.head < v.tail → Deletes (delete_record v cells r)
  unfolding delete_record
  delete_record-contents w h = elim (Bool-cases (ltb v.start v.stop)) [
    | inl e ↦ rw e (delete-flat w (ltb→lt _ _ e))
    | inr e ↦ rw e (delete-wrapped w (ground (arith, window_stop w, window_start w, w.fits)))
  ]

  -- On a view that shows no record, `delete_record` still searches the whole ring: it reports a
  -- match, and marks it, in any cell that holds an equal record.
  pub delete_record-stale :
      (i : ℕ)
      → IsWindow v cells
      → v.head ≡ v.tail
      → i < v.cap
      → rec_eq (cell cells i).rec r ≡ true
      → (contents v cells ≡ []) × ((delete_record v cells r).0 ≡ true)
  unfolding delete_record cells_from
  delete_record-stale i w empty inside same =
      let level : v.start ≡ v.stop = w.start_lem ∙ ap (λ t. t % v.cap) empty ∙ sym w.stop_lem in
      (
        (contents-flat w (omega arith)).0 ∙ none_left (omega arith),
        elim (le_or_lt v.start i) [
          | inl later ↦
              let (marked, e) =
                mark_first-found r cells i same (v.cap - v.start) v.start later (omega arith) in
              ground arith
          | inr sooner ↦
              let (marked, e) =
                mark_first-found r cells i same v.stop 0 (omega arith) (omega arith) in
              ground arith
        ],
      )
    where
      none_left : v.stop - v.start ≡ 0 → cells_from cells v.start (v.stop - v.start) ≡ []
      none_left e = ap (cells_from cells v.start) e
