-- ===== src/Buffer/Safety.antt =====
-- The ring of the buffer (MutableBuffer.h) does not overwrite what a view shows.
use native.Mathlib.Decide.{ℕ_discrete}
use dynamic_extension.Base.{
  ℕ, ◌+◌, ◌*◌, ◌≤◌, ◌<◌, ◌≡◌, ap, subst, ◌∙◌, Bool, Option, some, arith, inl, inr,
}
use dynamic_extension.Base.Words.{size_mod}
use dynamic_extension.Wal.{Wal}
use dynamic_extension.Bloom.{Bloom}
use dynamic_extension.Record.{Record}
use dynamic_extension.View.{make_view}
use dynamic_extension.View.Contents.{contents}
use dynamic_extension.Buffer.{
  Buffer, append, place, try_advance_tail, get_head, release_head_reference, advance_head,
  make_buffer,
}
use dynamic_extension.Buffer.Append.{stored, contents-set, append-cells}
use dynamic_extension.Buffer.Clients.{Shared, Step, appends, takes, releases, advances, count}
use dynamic_extension.Buffer.Heads.{IsCounted, held_by}

-- The tail is at most one high watermark above the head, and the head at most one above an old head
-- below it; an old head that is referenced is below it; and the ring has room for two.
pub record IsRoomy {F : Type 0} (buf : Buffer F) : Type 0 where
  pub ordered : buf.head.head_idx ≤ buf.tail
  pub bounded : buf.tail ≤ buf.head.head_idx + buf.hwm
  pub double : 2 * buf.hwm ≤ buf.cap
  pub trailing :
      buf.old_head.head_idx ≤ buf.head.head_idx
      → buf.head.head_idx ≤ buf.old_head.head_idx + buf.hwm
  pub referenced : 0 < buf.old_head.refcnt → buf.old_head.head_idx ≤ buf.head.head_idx

-- Views are asked for at heads that have been reached, as the epochs do.
abbrev pub IsPolite : {F : Type 0} {b : Bloom F} {s t : Shared F} → Step b s t → Type 0
IsPolite (appends rec tombstone logging done e k) = Unit
IsPolite {s = s} (takes target h e k) = target ≤ s.buf.head.head_idx
IsPolite (releases h p e k) = Unit
IsPolite (advances new_head done e k) = Unit

module _ {F : Type 0} (b : Bloom F) where
  -- A new buffer of the default capacity is roomy.
  pub make_buffer-IsRoomy :
      (lwm hwm : ℕ) (wal : Option Wal) (buf : Buffer F)
      → make_buffer b lwm hwm 0 wal ≡ some buf
      → IsRoomy buf
  unfolding make_buffer
  make_buffer-IsRoomy lwm hwm wal buf e = ground arith

  append-IsRoomy :
      (buf : Buffer F) (rec : Record) (tombstone logging : Bool)
      → buf.tail + 1 < size_mod
      → IsRoomy buf
      → IsRoomy (append b buf rec tombstone logging).1
  unfolding append place try_advance_tail
  append-IsRoomy buf rec tombstone logging small r = ground arith

  get_head-IsRoomy :
      (buf buf' : Buffer F) (target h : ℕ)
      → get_head buf target ≡ some (h, buf')
      → target ≤ buf.head.head_idx
      → IsRoomy buf
      → IsRoomy buf'
  unfolding get_head
  get_head-IsRoomy buf buf' target h e low r = ground arith

  release-IsRoomy :
      (buf buf' : Buffer F) (h : ℕ)
      → release_head_reference buf h ≡ some buf'
      → IsRoomy buf
      → IsRoomy buf'
  unfolding release_head_reference
  release-IsRoomy buf buf' h e r = ground arith

  advance_head-IsRoomy :
      (buf buf' : Buffer F) (new_head : ℕ) (done : Bool)
      → advance_head buf new_head ≡ some (done, buf')
      → IsRoomy buf
      → IsRoomy buf'
  unfolding advance_head
  advance_head-IsRoomy buf buf' new_head done e r = ground arith

  -- Every step keeps the buffer roomy, as long as the tail stays below 2^64 and views are asked for
  -- at heads that have been reached.
  pub Step-IsRoomy :
      (s t : Shared F) (st : Step b s t)
      → IsPolite st
      → s.buf.tail + 1 < size_mod
      → IsRoomy s.buf
      → IsRoomy t.buf
  Step-IsRoomy s t (appends rec tombstone logging done e k) p small r =
      subst IsRoomy (ap (λ x. x.1) e) (append-IsRoomy s.buf rec tombstone logging small r)
  Step-IsRoomy s t (takes target h e k) p small r = get_head-IsRoomy s.buf t.buf target h e p r
  Step-IsRoomy s t (releases h q e k) p small r = release-IsRoomy s.buf t.buf h e r
  Step-IsRoomy s t (advances new_head done e k) p small r =
      advance_head-IsRoomy s.buf t.buf new_head done e r

  -- A slot that is filled lies less than one ring above the head of any view that is out.
  held_in_ring :
      (s : Shared F) (h : ℕ)
      → IsRoomy s.buf
      → IsCounted s
      → 0 < count h s.held
      → s.buf.tail < s.buf.head.head_idx + s.buf.hwm
      → s.buf.tail < h + s.buf.cap
  held_in_ring s h r c out room = elim (ℕ_discrete h s.buf.old_head.head_idx) [
    | yes e ↦
        let referenced : 0 < s.buf.old_head.refcnt =
          omega (arith, c.old, ap (λ k. count k s.held) e) in
        omega (arith, r.referenced referenced, r.trailing, r.double)
    | no e ↦ omega (arith, held_by s.buf.head s.buf.old_head s.held c h out e, r.double)
  ]

  -- In a roomy buffer with exact reference counts and a tail below 2^31 - 1, an append leaves alone what
  -- every view that is out shows: one of head `h` that was taken when the tail stood at `t`.
  pub append-keeps_views :
      (s : Shared F) (rec : Record) (tombstone logging : Bool) (h t ts : ℕ) (f : Option F)
      → IsRoomy s.buf
      → IsCounted s
      → s.buf.tail + 1 < 0x8000_0000
      → 0 < count h s.held
      → h ≤ t
      → t ≤ s.buf.tail
      → contents (make_view s.buf.cap h t ts f) (append b s.buf rec tombstone logging).1.cells
        ≡ contents (make_view s.buf.cap h t ts f) s.buf.cells
  append-keeps_views s rec tombstone logging h t ts f r c small out p q =
      elim (append-cells b s.buf rec tombstone logging r.ordered small) [
        | inl refused ↦ ap (λ x. contents (make_view s.buf.cap h t ts f) x.1.cells) refused
        | inr (room, filled) ↦
            ap (contents (make_view s.buf.cap h t ts f)) filled
            ∙ contents-set s.buf.cap h t ts f s.buf.cells (stored s.buf rec tombstone) s.buf.tail p
                q (held_in_ring s h r c out room) (omega arith)
      ]
