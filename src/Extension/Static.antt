-- ===== src/Extension/Static.antt =====
-- What the reads of the extension (DynamicExtension.h) return.
use mathlib.Core.Option
use dynamic_extension.Base.{
  ℕ, zero, suc, ◌+◌, ◌-◌, ◌≡◌, refl, ap, ◌∙◌, true, false, some, List, [], ◌∷◌, arith, ◌==◌, length,
  Bool-cases, inl, inr,
}
use dynamic_extension.Record.{Wrapped}
use dynamic_extension.Record.Net.{length-sum_by}
use dynamic_extension.Shard.{ShardInterface, ShardLaws}
use dynamic_extension.View
use dynamic_extension.View.{BufferView, make_view}
use dynamic_extension.View.Contents.{contents, gets}
use dynamic_extension.Buffer.{
  Head, Buffer, get_head, get_buffer_view_at, release_head_reference, view_at,
}
use dynamic_extension.Buffer.Append.{visible}
use dynamic_extension.Level
use dynamic_extension.Level.{Level, get_combined_shard}
use dynamic_extension.Level.Contents.{records, get_record_count-records}
use dynamic_extension.Structure.Net.{total, AllWell}
use dynamic_extension.Structure.Apply.{total_record_count, sum_levels}
use dynamic_extension.Extension.{DynamicExtension}
use dynamic_extension.Extension.Content.{held}
use dynamic_extension.Extension.Reads.{with_view, get_record_count}

module _ {F : Type 0} where
  -- A view of the buffer's head is taken and released, and the buffer is as before.
  view_released :
      (buf : Buffer F) (h : ℕ)
      → h ≡ buf.head.head_idx
      → (taken : Buffer F) × (get_buffer_view_at buf h ≡ some (view_at buf h, taken))
        × (taken.cells ≡ buf.cells)
        × (release_head_reference taken h ≡ some buf)
  unfolding get_buffer_view_at get_head release_head_reference view_at
  view_released buf h e = elim (Bool-cases (buf.old_head.head_idx == h)) [
    | inl t ↦
        let u : (h == h) ≡ true = ground arith in
        let v : (buf.old_head.refcnt + 1 == 0) ≡ false = ground arith in
        let o : ◌≡◌ {A = Head} (record { head_idx = h; refcnt = buf.old_head.refcnt + 1 - 1 })
            buf.old_head =
          ground arith in
        (
          record buf { old_head = record { head_idx = h; refcnt = buf.old_head.refcnt + 1 } },
          rw t refl,
          refl,
          rw (u, v) (ap (λ (k : Head). some (record buf { old_head = k })) o),
        )
    | inr t ↦
        let u : (buf.head.head_idx == h) ≡ true = ground arith in
        let v : (buf.head.refcnt + 1 == 0) ≡ false = ground arith in
        let o : ◌≡◌ {A = Head} (record { head_idx = h; refcnt = buf.head.refcnt + 1 - 1 })
            buf.head =
          ground arith in
        (
          record buf { head = record { head_idx = h; refcnt = buf.head.refcnt + 1 } },
          rw (t, u) refl,
          refl,
          rw (t, v) (ap (λ (k : Head). some (record buf { head = k })) o),
        )
  ]

length-gets :
    {F : Type 0} (v : BufferView F) (cells : List Wrapped) (i n : ℕ) → length (gets v cells i n) ≡ n
unfolding gets
length-gets v cells i zero = refl
length-gets v cells i (suc n) = ap suc (length-gets v cells (i + 1) n)

length-contents :
    {F : Type 0} (v : BufferView F) (cells : List Wrapped)
    → length (contents v cells) ≡ View.get_record_count v
unfolding contents
length-contents v cells = length-gets v cells 0 (View.get_record_count v)

no_records : (ws : List Wrapped) → length ws ≡ 0 → ws ≡ []
no_records [] h = refl
no_records (w ∷ ws) h = absurd (omega arith)

module _ {F S : Type 0} where
  -- A read of the view leaves the extension as it is.
  pub with_view-same :
      {A : Type 0} (e : DynamicExtension F S) (f : BufferView F → List Wrapped → A)
      → e.buffer_head ≡ e.buffer.head.head_idx
      → with_view e f ≡ some (f (view_at e.buffer e.buffer.head.head_idx) e.buffer.cells, e)
  unfolding with_view Option.bind view_at make_view
  with_view-same e f h =
      let (taken, got, cells, rel) = view_released e.buffer e.buffer_head h in
      rw (got, rel, cells) (ap (λ t. some (f (view_at e.buffer t) e.buffer.cells, e)) h)

module _ {S : Type 0} {I : ShardInterface S} (W : ShardLaws I) where
  levels-count :
      (ls : List (Level S))
      → AllWell W ls
      → sum_levels I (Level.get_record_count I) ls ≡ total W (λ _. 1) ls
  unfolding total
  levels-count [] w = refl
  levels-count (l ∷ ls) (w, ws) =
      omega (arith, get_record_count-records W l w, length-sum_by (records W l), levels-count ls ws)

module _ {F S : Type 0} {I : ShardInterface S} (W : ShardLaws I) where
  -- With well-formed levels, the extension reports the number of records and tombstones that it
  -- holds in the buffer and in the levels, and stays as it is.
  pub get_record_count-held :
      (e : DynamicExtension F S)
      → e.buffer_head ≡ e.buffer.head.head_idx
      → AllWell W e.structure.levels
      → get_record_count I e ≡ some (held W (λ _. 1) e, e)
  unfolding get_record_count total_record_count
  get_record_count-held e h w =
      let v = view_at e.buffer e.buffer.head.head_idx in
      with_view-same e _ h
      ∙ ap (λ (n : ℕ). some (n, e))
          (omega (
            arith,
            levels-count W e.structure.levels w,
            length-sum_by (visible e.buffer),
            length-contents v e.buffer.cells,
          ))
