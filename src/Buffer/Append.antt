-- ===== src/Buffer/Append.antt =====
-- What an append to the buffer (MutableBuffer.h) does to the views of it.
use native.Mathlib.Nat.{mod-lt}
use native.Mathlib.Decide.{dec_lt}
use mathlib.Core.Path.{ap₂}
use dynamic_extension.Base.{
  ℕ, zero, suc, ◌+◌, ◌-◌, ◌%◌, ◌≤◌, ◌<◌, ◌≡◌, ◌≢◌, ◌↔◌, ◌⊎◌, refl, sym, ap, ◌∙◌, Bool, true, false,
  Option, some, List, [], ◌∷◌, ◌++◌, arith, set, length, get_or-set_self, get_or-set_ne, inl, inr,
}
use dynamic_extension.Base.Words.{size_mod, word_mod, sub64, widen64-narrow32}
use dynamic_extension.Bloom.{Bloom}
use dynamic_extension.Record.{Record, Wrapped, set_timestamp, set_visible}
use dynamic_extension.View.{BufferView, blank, cell, make_view, get, to_idx}
use dynamic_extension.View
use dynamic_extension.View.Contents.{gets, contents, mod_window, gets-append}
use dynamic_extension.Buffer.{
  Buffer, append, place, try_advance_tail, received, wrap_record, view_at, truncate,
  get_record_count,
}

-- `append` fills the slot at the tail.
abbrev pub slot : {F : Type 0} → Buffer F → ℕ
slot buf = buf.tail % buf.cap

abbrev pub stored : {F : Type 0} → Buffer F → Record → Bool → Wrapped
stored buf rec tombstone = set_visible (set_timestamp (slot buf) (wrap_record rec tombstone))

module _ {F : Type 0} (cap h t ts : ℕ) (f : Option F) where
  pub to_idx-window : (i : ℕ) → i < cap → to_idx (make_view cap h t ts f) i ≡ (h + i) % cap
  unfolding to_idx make_view
  to_idx-window i p = ground (arith, mod_window h i cap p, mod-lt h {m = cap})

  -- Fewer than `cap` steps along the ring do not come back.
  ring_apart : (i j : ℕ) → i < j → j < cap → (h + i) % cap ≢ (h + j) % cap
  ring_apart i j p q e =
      ground (arith, mod_window h i cap (omega arith), mod_window h j cap q, mod-lt h {m = cap})

  gets-set :
      (cells : List Wrapped) (x : Wrapped) (j n i : ℕ)
      → i + n ≤ j
      → j < cap
      → gets (make_view cap h t ts f) (set cells ((h + j) % cap) x) i n
        ≡ gets (make_view cap h t ts f) cells i n
  unfolding gets get
  gets-set cells x j zero i p q = refl
  gets-set cells x j (suc n) i p q =
      ap₂ ◌∷◌
        (rw (to_idx-window i (omega arith)) (
          get_or-set_ne cells ((h + j) % cap) ((h + i) % cap) x blank
            (λ e. ring_apart i j (omega arith) q (sym e))))
        (gets-set cells x j n (i + 1) (omega arith) q)

  -- A write at index `tail` of the ring is not seen through a window that ends at or before it.
  pub contents-set :
      (cells : List Wrapped) (x : Wrapped) (tail : ℕ)
      → h ≤ t
      → t ≤ tail
      → tail < h + cap
      → tail < size_mod
      → contents (make_view cap h t ts f) (set cells (tail % cap) x)
        ≡ contents (make_view cap h t ts f) cells
  unfolding contents View.get_record_count make_view
  contents-set cells x tail p q r small =
      let place : tail % cap ≡ (h + (tail - h)) % cap = ap (λ k. k % cap) (omega arith) in
      ap (λ k. contents (make_view cap h t ts f) (set cells k x)) place
      ∙ gets-set cells x (tail - h) (sub64 t h) 0 (omega arith) (omega arith)

-- The cells that a window shows depend on where it starts.
gets-window :
    {F : Type 0} (cap h t t' ts ts' : ℕ) (f f' : Option F) (cells : List Wrapped) (n i : ℕ)
    → gets (make_view cap h t ts f) cells i n ≡ gets (make_view cap h t' ts' f') cells i n
unfolding gets get to_idx make_view
gets-window cap h t t' ts ts' f f' cells zero i = refl
gets-window cap h t t' ts ts' f f' cells (suc n) i =
    ap₂ ◌∷◌ refl (gets-window cap h t t' ts ts' f f' cells n (i + 1))

module _ {F : Type 0} (cap h t ts : ℕ) (f : Option F) where
  -- The window that is one longer shows one record more.
  pub contents-longer :
      (cells : List Wrapped)
      → h ≤ t
      → t < h + cap
      → t + 1 < size_mod
      → (ts' : ℕ) (f' : Option F)
      → contents (make_view cap h (t + 1) ts' f') cells
        ≡ contents (make_view cap h t ts f) cells ++ cell cells (t % cap) ∷ []
  unfolding contents View.get_record_count make_view gets get
  contents-longer cells p q small ts' f' =
      ap (gets (make_view cap h (t + 1) ts' f') cells 0) longer
      ∙ gets-append (make_view cap h (t + 1) ts' f') cells (sub64 t h) 1 0
      ∙ ap₂ ◌++◌ (gets-window cap h (t + 1) t ts' ts f' f cells (sub64 t h) 0) (
          ap (λ k. cell cells k ∷ [])
            (to_idx-window cap h (t + 1) ts' f' (0 + sub64 t h) (omega arith)
              ∙ ap (λ k. k % cap) (omega arith)))
    where
      longer : sub64 (t + 1) h ≡ sub64 t h + 1
      longer = omega arith

-- The buffer is in the range where the arithmetic of its indices does not wrap, and its window
-- does not fill the ring.
pub record IsValid {F : Type 0} (buf : Buffer F) : Type 0 where
  pub ordered : buf.head.head_idx ≤ buf.tail
  pub bounded : buf.tail ≤ buf.head.head_idx + buf.hwm
  pub room : buf.hwm < buf.cap
  pub size : length buf.cells ≡ buf.cap
  pub small : buf.tail + 1 < 0x8000_0000

-- What a new view of the buffer shows.
abbrev pub visible : {F : Type 0} → Buffer F → List Wrapped
visible buf = contents (view_at buf buf.head.head_idx) buf.cells

module _ {F : Type 0} (b : Bloom F) (buf : Buffer F) (rec : Record) (tombstone logging : Bool)
    (ordered : buf.head.head_idx ≤ buf.tail) (small : buf.tail + 1 < 0x8000_0000) where
  claims :
      buf.tail < buf.head.head_idx + buf.hwm
      → try_advance_tail buf ≡ (some buf.tail, record buf { tail = buf.tail + 1 })
  unfolding try_advance_tail
  claims room = ground (arith, ordered, small)

  -- With room in the buffer, an append fills the slot at the tail.
  pub append-place :
      buf.tail < buf.head.head_idx + buf.hwm
      → append b buf rec tombstone logging
        ≡ (true, place b (record buf { tail = buf.tail + 1 }) (slot buf) rec tombstone logging)
  unfolding append received
  append-place room =
      rw (claims room, append, widen64-narrow32 buf.tail (omega (arith, small)))
        (ground (arith, small))

  -- A buffer that holds its high watermark of records, or more, refuses, and is left as it was.
  pub append-refuses :
      buf.head.head_idx + buf.hwm ≤ buf.tail → append b buf rec tombstone logging ≡ (false, buf)
  unfolding append try_advance_tail received
  append-refuses full = ground arith

  -- So the array stays, or its slot at the tail is filled.
  pub append-cells :
      (append b buf rec tombstone logging ≡ (false, buf))
      ⊎ ((buf.tail < buf.head.head_idx + buf.hwm)
          × ((append b buf rec tombstone logging).1.cells
              ≡ set buf.cells (slot buf) (stored buf rec tombstone)))
  unfolding place
  append-cells = elim (dec_lt buf.tail (buf.head.head_idx + buf.hwm)) [
    | yes room ↦ inr (room, rw (append-place room) refl)
    | no full ↦ inl (append-refuses (omega arith))
  ]

module _ {F : Type 0} (b : Bloom F) (buf : Buffer F) (rec : Record) (tombstone logging : Bool)
    (v : IsValid buf) where
  -- With room in a valid buffer, whose tail is below 2^31 - 1, an append succeeds, and a view that is
  -- taken afterwards shows what one taken before shows, and the record behind it.
  pub append-visible :
      buf.tail < buf.head.head_idx + buf.hwm
      → ((append b buf rec tombstone logging).0 ≡ true)
        × (visible (append b buf rec tombstone logging).1
            ≡ visible buf ++ stored buf rec tombstone ∷ [])
  unfolding view_at place
  append-visible room = rw (append-place b buf rec tombstone logging v.ordered v.small room) (
    refl,
    contents-longer buf.cap buf.head.head_idx buf.tail buf.tscnt (some buf.tombstone_filter) _
          v.ordered (omega (arith, v.room)) (omega (arith, v.small)) _ _
        ∙ ap₂ (λ xs x. xs ++ x ∷ [])
            (contents-set buf.cap buf.head.head_idx buf.tail buf.tscnt (some buf.tombstone_filter)
              buf.cells (stored buf rec tombstone) buf.tail v.ordered (omega arith)
              (omega (arith, v.room)) (omega (arith, v.small)))
            (get_or-set_self buf.cells (slot buf) (stored buf rec tombstone) blank
              (rw v.size (mod-lt buf.tail {m = buf.cap} (omega (arith, v.room))))),
  )

module _ {F : Type 0} (b : Bloom F) (buf : Buffer F) where
  -- `truncate` leaves an empty buffer if and only if the head still stands at index 0 (the head is
  -- not reset, and the count wraps below zero).
  pub truncate-empty :
      buf.head.head_idx < size_mod
      → (get_record_count (truncate b buf).1 ≡ 0) ↔ (buf.head.head_idx ≡ 0)
  unfolding truncate get_record_count
  truncate-empty h = (λ e. omega arith, λ e. omega arith)

  -- When the tail stands at 2^32 - 1 and there is room, `append` reports a failure although it has
  -- taken a slot: the tail has moved on.
  pub append-lost_slot :
      (rec : Record) (tombstone logging : Bool)
      → buf.tail ≡ word_mod - 1
      → buf.head.head_idx ≤ buf.tail
      → buf.tail < buf.head.head_idx + buf.hwm
      → append b buf rec tombstone logging ≡ (false, record buf { tail = buf.tail + 1 })
  unfolding append received try_advance_tail
  append-lost_slot rec tombstone logging at_end ordered room = ground arith

  -- From tail 2^31 on (below 2^32 - 1), with room, the record goes to the slot of the
  -- sign-extended tail: its index is that of `tail + (2^64 - 2^32)` and not that of `tail`.
  pub append-sign_extends :
      (rec : Record) (tombstone logging : Bool)
      → 0x8000_0000 ≤ buf.tail
      → buf.tail < word_mod - 1
      → buf.head.head_idx ≤ buf.tail
      → buf.tail < buf.head.head_idx + buf.hwm
      → append b buf rec tombstone logging ≡ (
        true,
        place b
            (record buf { tail = buf.tail + 1 })
            ((buf.tail + (size_mod - word_mod)) % buf.cap)
            rec
            tombstone
            logging,
      )
  unfolding append received try_advance_tail
  append-sign_extends rec tombstone logging low high ordered room = ground arith
