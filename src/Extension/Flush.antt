-- ===== src/Extension/Flush.antt =====
-- A flush (DynamicExtension.h) moves the buffer's records to the structure and loses none.
use mathlib.Core.Option
use dynamic_extension.Base.{
  ℕ, zero, suc, ◌+◌, ◌-◌, ◌≤◌, ◌<◌, ◌≡◌, ◌≢◌, refl, sym, ap, ◌∙◌, true, false, ◌&&◌, Option, some,
  none, List, [], ◌∷◌, arith, ltb, leb, ◌==◌, if◌then◌else◌, length, get_or, Bool-cases, inl, inr,
}
use dynamic_extension.Record.{Record, Wrapped}
use dynamic_extension.Record.Net.{insert_of, erasure_of, inserts, erasures}
use dynamic_extension.Merge.Scan.{Untagged}
use dynamic_extension.Shard.{ShardInterface, ShardLaws}
use dynamic_extension.Level.{copy_slots}
use dynamic_extension.Level.Slots.{Filled}
use dynamic_extension.Tasks.{ReconstructionTask}
use dynamic_extension.View.Contents.{contents, gets}
use dynamic_extension.View.{make_view, get_record_count}
use dynamic_extension.Base.Words.{sub64}
use dynamic_extension.Wal.{flush_begin, flush_complete}
use dynamic_extension.Buffer.{
  Buffer, get_head, get_buffer_view_at, release_head_reference, advance_head, view_at,
}
use dynamic_extension.Buffer.Append.{visible}
use dynamic_extension.Structure.{LayoutPolicy, Structure, can_reconstruct_with, grow}
use dynamic_extension.Structure.Apply.{
  level_at, ensure_level, reconstruction, run_tasks, flush_buffer, flush_buffer_into_l0,
  count_flush,
}
use dynamic_extension.Structure.Net.{
  total, AllWell, SameLevels, CanCombine, CanFlush, with_level_0, reconstruction-SameLevels,
  flush_buffer_into_l0-adds,
}
use dynamic_extension.Extension.{DynamicExtension, flush_and_advance}

-- No view of the buffer is out, it holds a record, and the epoch's head is the buffer's.
pub record IsIdle {F S : Type 0} (e : DynamicExtension F S) : Type 0 where
  pub head_lem : e.buffer_head ≡ e.buffer.head.head_idx
  pub unreferenced : (e.buffer.head.refcnt ≡ 0) × (e.buffer.old_head.refcnt ≡ 0)
  pub nonempty : e.buffer.head.head_idx < e.buffer.tail

module _ {F : Type 0} where
  visible_none : (buf : Buffer F) → buf.head.head_idx ≡ buf.tail → visible buf ≡ []
  unfolding contents view_at get_record_count make_view gets
  visible_none buf h =
      let z : sub64 buf.tail buf.head.head_idx ≡ 0 = omega arith in
      ap (gets (view_at buf buf.head.head_idx) buf.cells 0) z

  advance_head-idle :
      (buf : Buffer F) (n : ℕ)
      → buf.tail ≡ n
      → buf.head.head_idx < n
      → buf.old_head.refcnt ≡ 0
      → (advanced : Buffer F) × (advance_head buf n ≡ some (true, advanced))
        × (visible advanced ≡ [])
  unfolding advance_head
  advance_head-idle buf n e l o =
      let t : (ltb buf.head.head_idx n && leb n buf.tail) ≡ true = ground arith in
      let u : ltb 0 buf.old_head.refcnt ≡ false = ground arith in
      let advanced = record buf {
        head = record { head_idx = n; refcnt = 0 };
        old_head = buf.head;
        wal = Option.map (λ w. flush_complete (flush_begin w)) buf.wal;
        active_head_advance = false;
      } in
      (advanced, rw (advance_head, t, u) refl, visible_none advanced (sym e))

  -- The view of the flush is the visible part of the buffer, and once it is released, nothing keeps
  -- the head from its advance.
  view_and_release :
      (buf : Buffer F) (h : ℕ)
      → h ≡ buf.head.head_idx
      → (buf.head.refcnt ≡ 0) × (buf.old_head.refcnt ≡ 0)
      → (taken : Buffer F) × (released : Buffer F) × (get_buffer_view_at buf h
          ≡ some (view_at buf h, taken))
        × (taken.cells ≡ buf.cells)
        × (release_head_reference taken h ≡ some released)
        × (released.tail ≡ buf.tail)
        × (released.head.head_idx ≡ h)
        × (released.old_head.refcnt ≡ 0)
  unfolding get_buffer_view_at get_head release_head_reference view_at
  view_and_release buf h e (r, o) = elim (Bool-cases (buf.old_head.head_idx == h)) [
    | inl t ↦
        let u : (h == h) ≡ true = ground arith in
        let v : (buf.old_head.refcnt + 1 == 0) ≡ false = ground arith in
        (
          record buf { old_head = record { head_idx = h; refcnt = buf.old_head.refcnt + 1 } },
          record buf { old_head = record { head_idx = h; refcnt = buf.old_head.refcnt + 1 - 1 } },
          rw t refl,
          refl,
          rw (u, v) refl,
          refl,
          sym e,
          omega arith,
        )
    | inr t ↦
        let u : (buf.head.head_idx == h) ≡ true = ground arith in
        let v : (buf.head.refcnt + 1 == 0) ≡ false = ground arith in
        (
          record buf { head = record { head_idx = h; refcnt = buf.head.refcnt + 1 } },
          record buf { head = record { head_idx = h; refcnt = buf.head.refcnt + 1 - 1 } },
          rw (t, u) refl,
          refl,
          rw (t, v) refl,
          refl,
          refl,
          o,
        )
  ]

module _ {S : Type 0} {I : ShardInterface S} (W : ShardLaws I) where
  pub copy_slots-Filled : (n : ℕ) (ss : List (Option S)) → Filled n ss → copy_slots ss n ≡ ss
  unfolding copy_slots
  copy_slots-Filled n [] h = refl
  copy_slots-Filled zero (none ∷ ss) h = ap (λ t. none ∷ t) (copy_slots-Filled zero ss h)
  copy_slots-Filled zero (some s ∷ ss) h = absurd h
  copy_slots-Filled (suc n) (none ∷ ss) h = absurd h
  copy_slots-Filled (suc n) (some s ∷ ss) h = ap (λ t. some s ∷ t) (copy_slots-Filled n ss h)

  -- What a task needs: two levels, of which one has room for the other.
  abbrev pub CanRun : LayoutPolicy → Structure S → ReconstructionTask → Type 0
  CanRun layout s t =
      (t.target ≢ get_or t.sources 0 0)
      × (t.target ≤ length s.levels)
      × (get_or t.sources 0 0 < length s.levels)
      × CanCombine W layout (level_at (ensure_level I layout s t.target).levels t.target)
          (level_at (ensure_level I layout s t.target).levels (get_or t.sources 0 0))

  -- Each task finds what it needs when the ones before it are done.
  abbrev pub CanRunAll : LayoutPolicy → Structure S → List ReconstructionTask → Type 0
  CanRunAll layout s [] = Unit
  CanRunAll layout s (t ∷ ts) =
      CanRun layout s t
      × ((s' : Structure S)
          → reconstruction I layout s t.target (get_or t.sources 0 0) ≡ some s'
          → CanRunAll layout s' ts)

  -- The tasks of a reconstruction succeed, and keep the net content and the levels well formed.
  pub run_tasks-SameLevels :
      (layout : LayoutPolicy) (s : Structure S) (ts : List ReconstructionTask)
      → AllWell W s.levels
      → CanRunAll layout s ts
      → (s' : Structure S) × (run_tasks I layout s ts ≡ some s')
        × SameLevels W s.levels s'.levels
        × AllWell W s'.levels
  unfolding run_tasks Option.bind
  run_tasks-SameLevels layout s [] w c = (s, refl, λ r. refl, w)
  run_tasks-SameLevels layout s (t ∷ ts) w ((apart, low, there, c), next) =
      let (s1, done, same, w1) =
        reconstruction-SameLevels W layout s t.target (get_or t.sources 0 0) apart low there w c in
      let (s2, rest, same', w2) = run_tasks-SameLevels layout s1 ts w1 (next s1 done) in
      (s2, rw done rest, λ r. omega (arith, same r, same' r), w2)

  -- What a flush needs: room in level 0, in the state of the planner and in the level.
  abbrev pub FlushFits : LayoutPolicy → Structure S → List Wrapped → Type 0
  FlushFits layout s ws =
      (can_reconstruct_with layout 0 (length ws) (
          if length s.current_state == 0
          then (grow layout s s.current_state).1
          else s.current_state)
        ≡ true)
      × CanFlush W layout (level_at (with_level_0 W layout s).levels 0) ws

  flush_buffer-fits :
      (layout : LayoutPolicy) (vers flushed : Structure S) (ws : List Wrapped)
      → FlushFits layout vers ws
      → flush_buffer_into_l0 I layout vers ws ≡ some flushed
      → flush_buffer I layout vers ws ≡ some (count_flush I flushed)
  unfolding flush_buffer
  flush_buffer-fits layout vers flushed ws (fits, _) done = rw (fits, done) refl

module _ {F S : Type 0} {I : ShardInterface S} (W : ShardLaws I) where
  flush_and_advance-some :
      (layout : LayoutPolicy) (e : DynamicExtension F S) (vers flushed : Structure S)
      (taken released advanced : Buffer F)
      → get_buffer_view_at e.buffer e.buffer_head ≡ some (view_at e.buffer e.buffer_head, taken)
      → flush_buffer I layout vers (contents (view_at e.buffer e.buffer_head) taken.cells)
        ≡ some flushed
      → release_head_reference taken e.buffer_head ≡ some released
      → advance_head released e.buffer.tail ≡ some (true, advanced)
      → flush_and_advance I layout e vers
        ≡ some (record {
          buffer = advanced;
          structure = flushed;
          buffer_head = e.buffer.tail;
          reconstruction_scheduled = false;
        })
  unfolding flush_and_advance Option.bind view_at make_view
  flush_and_advance-some layout e vers flushed taken released advanced got fl rel adv =
      rw (got, fl, rel, adv) refl

  pub flush_and_advance-adds :
      (layout : LayoutPolicy) (e : DynamicExtension F S) (vers : Structure S)
      → IsIdle e
      → Untagged (visible e.buffer)
      → AllWell W vers.levels
      → FlushFits W layout vers (visible e.buffer)
      → (e' : DynamicExtension F S) × (flush_and_advance I layout e vers ≡ some e')
        × (visible e'.buffer ≡ [])
        × (e'.reconstruction_scheduled ≡ false)
        × ((r : Record)
            → total W (insert_of r) vers.levels
                + inserts r (visible e.buffer)
                + total W (erasure_of r) e'.structure.levels
              ≡ total W (insert_of r) e'.structure.levels
                + (total W (erasure_of r) vers.levels + erasures r (visible e.buffer)))
        × AllWell W e'.structure.levels
  flush_and_advance-adds layout e vers idle clean w (fits, room) =
      let (taken, released, got, same, rel, t, h, o) =
        view_and_release e.buffer e.buffer_head idle.head_lem idle.unreferenced in
      let (advanced, adv, none_left) =
        advance_head-idle released e.buffer.tail t (omega (arith, idle.nonempty, idle.head_lem, h))
          o in
      let (flushed, done, net, well) =
        flush_buffer_into_l0-adds W layout vers (visible e.buffer) w clean room in
      let p : contents (view_at e.buffer e.buffer_head) taken.cells ≡ visible e.buffer =
        rw (same, idle.head_lem) refl in
      (
        _,
        flush_and_advance-some layout e vers (count_flush I flushed) taken released advanced got
            (ap (flush_buffer I layout vers) p
              ∙ flush_buffer-fits W layout vers flushed (visible e.buffer) (fits, room) done)
            rel adv,
        none_left,
        refl,
        net,
        well,
      )
