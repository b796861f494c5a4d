-- ===== src/Isam/Nodes.antt =====
-- include/shard/ISAMTree.h: the internal levels above the sorted array, and the searches through
-- them. A child pointer is a position of the array or another node. The slots of a node behind its
-- last child are zero, as calloc left them, and are not in its list.
use mathlib.Core.Option
use dynamic_extension.Base.{
  ℕ, zero, suc, ◌+◌, ◌-◌, ◌*◌, min, Option, none, some, List, [], ◌∷◌, Bool, true, false, ltb, leb,
  length, get_elem?, if◌then◌else◌,
}
use dynamic_extension.Record.{Record, Wrapped}
use dynamic_extension.KeySearch.{walk}
use dynamic_extension.KeySearch.Split.{key_at}

mutual
  pub data Child : Type 0 where
    leaf : ℕ → Child
    internal : Entries → Child

  -- The slots of a node: `keys[i]` and `child[i]`.
  pub data Entries : Type 0 where
    nil : Entries
    entry : ℕ → Child → Entries → Entries

unfoldable pub child_count : Entries → ℕ
child_count nil = 0
child_count (entry k c rest) = suc (child_count rest)

-- `keys[i]`, which is zero in a slot that was not filled.
unfoldable pub key_of : ℕ → Entries → ℕ
key_of i nil = 0
key_of zero (entry k c rest) = k
key_of (suc i) (entry k c rest) = key_of i rest

module _ (ws : List Wrapped) (internal_fanout leaf_fanout : ℕ) where
  -- The loop over the slots of a node above the array, from `rec_ptr`.
  unfoldable pub fill : ℕ → ℕ → Entries
  fill zero rec_ptr = nil
  fill (suc i) rec_ptr =
      let sep_key = key_at ws (min (rec_ptr + leaf_fanout - 1) (length ws - 1)) in
      let more = entry sep_key (leaf rec_ptr) (fill i (rec_ptr + leaf_fanout)) in
      if leb (length ws) rec_ptr then nil else more

  -- `while (leaf_base < leaf_stop)`, on fuel: `none` if it runs out.
  unfoldable pub leaf_level : ℕ → ℕ → Option (List Entries)
  leaf_level zero leaf_base = if ltb leaf_base (length ws) then none else some []
  leaf_level (suc n) leaf_base =
      let node = fill internal_fanout leaf_base in
      let more =
        Option.map (λ nodes. node ∷ nodes)
          (leaf_level n (leaf_base + child_count node * leaf_fanout)) in
      if ltb leaf_base (length ws) then more else some []

  -- The loop over the slots of a node above other nodes, and the nodes that it leaves.
  unfoldable pub gather : ℕ → List Entries → Entries × List Entries
  gather zero nodes = (nil, nodes)
  gather (suc i) [] = (nil, [])
  gather (suc i) (node ∷ nodes) =
      let (slots, rest) = gather i nodes in
      (entry (key_of (internal_fanout - 1) node) (internal node) slots, rest)

  -- `while (now < level_stop)`
  unfoldable pub next_level : ℕ → List Entries → Option (List Entries)
  next_level zero [] = some []
  next_level zero (node ∷ nodes) = none
  next_level (suc n) [] = some []
  next_level (suc n) (node ∷ nodes) =
      let (slots, rest) = gather internal_fanout (node ∷ nodes) in
      Option.map (λ level. slots ∷ level) (next_level n rest)

  -- `while (current_level_node_cnt > 1)`, up to the root.
  unfoldable pub climb : ℕ → List Entries → Option Entries
  climb n [] = none
  climb n (node ∷ []) = some node
  climb zero (node ∷ other ∷ nodes) = none
  climb (suc n) (node ∷ other ∷ nodes) =
      let level = node ∷ other ∷ nodes in
      Option.bind (next_level (length level) level) (λ above. climb n above)

  unfoldable pub build_internal_levels : Option Entries
  build_internal_levels =
      Option.bind (leaf_level (length ws) 0) (λ level. climb (length level) level)

-- The descent: the first child whose key passes `stop`, or the last one.
unfoldable mutual
  pub descend : (ℕ → Bool) → Child → Option ℕ
  descend stop (leaf p) = some p
  descend stop (internal node) = choose_child stop node

  pub choose_child : (ℕ → Bool) → Entries → Option ℕ
  choose_child stop nil = none
  choose_child stop (entry k c nil) = descend stop c
  choose_child stop (entry k c (entry k' c' rest)) =
      let here = descend stop c in
      let further = choose_child stop (entry k' c' rest) in if stop k then here else further

-- The scan of the array from a position, by the records that are left.
unfoldable pub scan_from : (ℕ → Bool) → List Wrapped → ℕ → ℕ → Option ℕ
scan_from stop ws zero pos = some pos
scan_from stop ws (suc n) pos = Option.bind (get_elem? ws pos) (λ w.
    let further = scan_from stop ws n (pos + 1) in if stop w.rec.key then some pos else further)

module _ (ws : List Wrapped) (root : Entries) where
  abbrev search : (ℕ → Bool) → Option ℕ
  search stop =
      Option.bind (choose_child stop root) (λ pos. scan_from stop ws (length ws - pos) pos)

  -- `key <= keys[i]` on the way down, and `while (key(pos) < key)` in the array.
  unfoldable pub get_lower_bound : ℕ → Option ℕ
  get_lower_bound key = search (λ k. leb key k)

  -- `key < keys[i]` on the way down, and `while (key(pos) <= key)` in the array.
  unfoldable pub get_upper_bound : ℕ → Option ℕ
  get_upper_bound key = search (λ k. ltb key k)

  -- `some none` is a null pointer. The filter is a null pointer, which `filter` asks through.
  unfoldable pub point_lookup : Record → Bool → Option (Option ℕ)
  point_lookup rec true = none
  point_lookup rec false = Option.bind (get_lower_bound rec.key) (λ idx.
      let walked = walk ws rec (length ws - idx) idx in
      if leb (length ws) idx then some none else walked)
