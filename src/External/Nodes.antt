-- ===== src/External/Nodes.antt =====
-- include/shard/ExternalISAMTree.h: the internal pages, and the searches through them. A child number
-- stands for the page that it names, of which `leaf` are the data pages, from 1; the slots of a page
-- behind its last child are zero. Nodes and the descent are those of include/shard/ISAMTree.h.
use mathlib.Core.Option
use dynamic_extension.Base.{
  ℕ, zero, suc, ◌+◌, ◌-◌, ◌*◌, min, Option, none, some, List, [], ◌∷◌, leb, ◌==◌, ◌&&◌, length,
  get_elem?, Bool, true, false, if◌then◌else◌,
}
use dynamic_extension.Record.{Record, Wrapped, rec_eq}
use dynamic_extension.KeySearch.Split.{key_at}
use dynamic_extension.Isam.Nodes.{Child, leaf, internal, Entries, nil, entry, descend}
use dynamic_extension.External.{Stored}
use dynamic_extension.External.Reads.{PageIterator, page_at}

-- `keys[n - 1]`, where `n` is the number of children.
unfoldable pub last_child_key : Entries → ℕ
last_child_key nil = 0
last_child_key (entry k c nil) = k
last_child_key (entry k c (entry k' c' rest)) = last_child_key (entry k' c' rest)

module _ (leaf_fanout : ℕ) (t : Stored) where
  -- The last record of a data page.
  unfoldable pub page_key : ℕ → ℕ
  page_key p =
      let records_on_page = min leaf_fanout (t.reccnt - (p - 1) * leaf_fanout) in
      key_at (page_at t.pages p) (records_on_page - 1)

  unfoldable pub child_key : Child → ℕ
  child_key (leaf p) = page_key p
  child_key (internal node) = last_child_key node

  -- The loop over the slots of a node, and the children that it leaves.
  unfoldable pub gather : ℕ → List Child → Entries × List Child
  gather zero children = (nil, children)
  gather (suc i) [] = (nil, [])
  gather (suc i) (c ∷ children) =
      let (slots, rest) = gather i children in (entry (child_key c) c slots, rest)

-- The data pages from `p`, `n` of them.
unfoldable pub data_pages : ℕ → ℕ → List Child
data_pages p zero = []
data_pages p (suc n) = leaf p ∷ data_pages (p + 1) n

module _ (internal_fanout leaf_fanout : ℕ) (t : Stored) where
  -- `while (child_page <= last_page)`, on fuel: `none` if it runs out.
  unfoldable pub next_level : ℕ → List Child → Option (List Child)
  next_level zero [] = some []
  next_level zero (c ∷ children) = none
  next_level (suc n) [] = some []
  next_level (suc n) (c ∷ children) =
      let (slots, rest) = gather leaf_fanout t internal_fanout (c ∷ children) in
      Option.map (λ level. internal slots ∷ level) (next_level n rest)

  -- The recursion, up to a level of one page.
  unfoldable pub climb : ℕ → List Child → Option Child
  climb n [] = none
  climb n (c ∷ []) = some c
  climb zero (c ∷ c' ∷ children) = none
  climb (suc n) (c ∷ c' ∷ children) =
      let level = c ∷ c' ∷ children in
      Option.bind (next_level (length level) level) (λ above. climb n above)

  unfoldable pub build_internal_levels : Option Child
  build_internal_levels = climb t.last_data_page (data_pages 1 t.last_data_page)

-- The loop over the slots of a data page, from slot `i` with `n` left; `end` is LEAF_FANOUT. The key
-- of an unused slot is zero.
unfoldable pub slot_from : ℕ → ℕ → List Wrapped → ℕ → ℕ → ℕ
slot_from key end ws i zero = end
slot_from key end [] i (suc n) =
    let rest = slot_from key end [] (i + 1) n in if leb key 0 then i else rest
slot_from key end (w ∷ ws) i (suc n) =
    let rest = slot_from key end ws (i + 1) n in if leb key w.rec.key then i else rest

-- `Iterator(m_isam_fd, start, end)`
abbrev pub started : Stored → ℕ → ℕ → PageIterator
started t start end = record { pages = t.pages; idx = start; end = end; page_num = 0; page = [] }

-- The page and the slot of an offset: behind the last slot is the next page, if the records take the
-- `whole` page.
unfoldable pub address : Bool → ℕ → ℕ × ℕ → ℕ × ℕ
address whole leaf_fanout (page, slot) =
    if whole && slot == leaf_fanout then (page + 1, 0) else (page, slot)

module _ (leaf_fanout : ℕ) (t : Stored) (root : Child) where
  -- The page and the slot of the offset that is returned.
  unfoldable pub get_lower_bound : ℕ → Option (ℕ × ℕ)
  get_lower_bound key =
      Option.map (λ p. (p, slot_from key leaf_fanout (page_at t.pages p) 0 leaf_fanout))
        (descend (λ k. leb key k) root)

  -- For a shard with no record, the root is not asked. An offset behind the last slot gives the same
  -- index if it is on the next page.
  unfoldable pub get_iterator : ℕ → Option PageIterator
  get_iterator lower =
      let found =
        Option.map (λ bound. started t ((bound.0 - 1) * leaf_fanout + bound.1) t.reccnt)
          (get_lower_bound lower) in
      if t.reccnt == 0 then some (started t 0 0) else found

  -- `none` is a read of a slot that was not written, or through the filter, a null pointer; the inner
  -- `none` is a null pointer that is returned. The buffer is the one that the caller hands in.
  unfoldable pub point_lookup : Bool → Record → Bool → Option (Option Wrapped)
  point_lookup whole rec true = none
  point_lookup whole rec false = Option.bind (get_lower_bound rec.key) (λ bound.
      let (page, slot) = address whole leaf_fanout bound in
      let read =
        Option.map (λ w. if rec_eq w.rec rec then some w else none)
          (get_elem? (page_at t.pages page) slot) in
      if leb (t.last_data_page + 1) page then some none else read)
