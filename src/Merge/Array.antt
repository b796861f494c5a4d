-- ===== src/Merge/Array.antt =====
-- What `sorted_array_from_bufferview` (SortedMerge.h) leaves in the array.
use mathlib.Core.List.{Perm}
use dynamic_extension.Base.{
  ℕ, ◌≡◌, refl, sym, ◌∙◌, ap, subst, not, ◌&&◌, true, false, List, [], ◌∷◌, ◌++◌, arith, Bool-cases,
  inl, inr, Option, append_assoc, append-nil, if◌then◌else◌,
}
use dynamic_extension.Bloom.{Bloom}
use dynamic_extension.Record.{Record, Wrapped, rec_eq, rec_lt, wrapped_lt, is_deleted}
use dynamic_extension.Record.Net.{
  SameNet, SameNet-trans, SameNet-Perm, tombstones, tagged, tagged_of, sum_by, sum_by-Perm, bit,
  inserts, tombstone_of,
}
use dynamic_extension.Merge.{MergeInfo, cancels, emit, keep, scan, sorted_array_from_bufferview}
use dynamic_extension.Merge.Scan.{Untagged, masked, is_tombstone-mask, scan-SameNet, scan-counts}

pub Untagged→tagged : (ws : List Wrapped) → Untagged ws → tagged ws ≡ 0
unfolding sum_by
Untagged→tagged [] u = refl
Untagged→tagged (w ∷ ws) u = ground (arith, Untagged→tagged ws u.1)

pub tagged→Untagged : (ws : List Wrapped) → tagged ws ≡ 0 → Untagged ws
unfolding sum_by
tagged→Untagged [] h = tt
tagged→Untagged (w ∷ ws) h = (ground arith, tagged→Untagged ws (omega arith))

Untagged-Perm : (xs ys : List Wrapped) → Perm xs ys → Untagged xs → Untagged ys
Untagged-Perm xs ys p u =
    tagged→Untagged ys (sym (sum_by-Perm tagged_of xs ys p) ∙ Untagged→tagged xs u)

-- The records that the scan keeps, as a list of its own.
unfoldable pub kept : Wrapped → List Wrapped
kept w = if is_deleted w then [] else masked w ∷ []

unfoldable pub survivors : List Wrapped → List Wrapped
survivors [] = []
survivors (x ∷ []) = kept x
survivors (x ∷ y ∷ rest) = elim (cancels x y) [
  | true ↦ survivors rest
  | false ↦ kept x ++ survivors (y ∷ rest)
]

-- Every element satisfies `P`.
abbrev pub All : (Wrapped → Type 0) → List Wrapped → Type 0
All P [] = Unit
All P (w ∷ ws) = P w × All P ws

-- No record is below one before it.
abbrev pub IsSorted : List Wrapped → Type 0
IsSorted [] = Unit
IsSorted (w ∷ ws) = All (λ v. rec_lt v.rec w.rec ≡ false) ws × IsSorted ws

-- The order that std::sort establishes.
abbrev pub IsOrdered : List Wrapped → Type 0
IsOrdered [] = Unit
IsOrdered (w ∷ ws) = All (λ v. wrapped_lt v w ≡ false) ws × IsOrdered ws

All-rec_lt :
    (w : Wrapped) (ws : List Wrapped)
    → All (λ v. wrapped_lt v w ≡ false) ws
    → All (λ v. rec_lt v.rec w.rec ≡ false) ws
unfolding wrapped_lt
All-rec_lt w [] h = tt
All-rec_lt w (v ∷ ws) h = (ground arith, All-rec_lt w ws h.1)

pub IsOrdered→IsSorted : (ws : List Wrapped) → IsOrdered ws → IsSorted ws
IsOrdered→IsSorted [] h = tt
IsOrdered→IsSorted (w ∷ ws) h = (All-rec_lt w ws h.0, IsOrdered→IsSorted ws h.1)

module _ {F : Type 0} (b : Bloom F) where
  keep-kept : (info : MergeInfo F) (w : Wrapped) → (keep b info w).buffer ≡ info.buffer ++ kept w
  unfolding keep emit kept
  keep-kept info w = ground (arith, append-nil info.buffer)

  pub scan-survivors :
      (info : MergeInfo F) (xs : List Wrapped)
      → (scan b info xs).buffer ≡ info.buffer ++ survivors xs
  unfolding scan survivors
  scan-survivors info [] = sym (append-nil info.buffer)
  scan-survivors info (x ∷ []) = keep-kept info x
  scan-survivors info (x ∷ y ∷ rest) = elim (Bool-cases (cancels x y)) [
    | inl c ↦ rw (c, scan, survivors) (scan-survivors info rest)
    | inr c ↦
        rw (c, scan, survivors)
          (scan-survivors (keep b info x) (y ∷ rest)
            ∙ ap (λ t. t ++ survivors (y ∷ rest)) (keep-kept info x)
            ∙ append_assoc info.buffer (kept x) (survivors (y ∷ rest)))
  ]

-- What holds of every record of the input, whatever its header, holds of every survivor.
pub survivors-All :
    (P : Record → Type 0) (xs : List Wrapped)
    → All (λ w. P w.rec) xs
    → All (λ w. P w.rec) (survivors xs)
unfolding survivors kept
survivors-All P [] h = tt
survivors-All P (x ∷ []) h = ground arith
survivors-All P (x ∷ y ∷ rest) h =
    ground (arith, survivors-All P rest h.1.1, survivors-All P (y ∷ rest) h.1)

survivors-IsSorted : (xs : List Wrapped) → IsSorted xs → IsSorted (survivors xs)
unfolding survivors kept
survivors-IsSorted [] h = tt
survivors-IsSorted (x ∷ []) h = ground arith
survivors-IsSorted (x ∷ y ∷ rest) h = ground (
  arith,
  survivors-IsSorted rest h.1.1,
  survivors-IsSorted (y ∷ rest) h.1,
  survivors-All (λ v. rec_lt v x.rec ≡ false) (y ∷ rest) h.0,
)

abbrev pub live_of : Record → Wrapped → ℕ
live_of r w = bit (rec_eq w.rec r && not (is_deleted w))

survivors-live :
    (r : Record) (xs : List Wrapped)
    → tombstones xs ≡ 0
    → inserts r (survivors xs) ≡ sum_by (live_of r) xs
unfolding survivors kept cancels sum_by
survivors-live r [] h = refl
survivors-live r (x ∷ []) h = ground (arith, is_tombstone-mask x)
survivors-live r (x ∷ y ∷ rest) h =
    ground (arith, is_tombstone-mask x, survivors-live r rest, survivors-live r (y ∷ rest))

module _ {F : Type 0} (b : Bloom F) (sort : List Wrapped → List Wrapped) where
  -- The count that is returned is the number of tombstones in the array.
  pub array-counts :
      (records : List Wrapped) (bf : Option F)
      → (sorted_array_from_bufferview b sort records bf).tombstone_count
        ≡ tombstones (sorted_array_from_bufferview b sort records bf).buffer
  unfolding sorted_array_from_bufferview sum_by
  array-counts records bf = scan-counts b _ (sort records) refl

module _ {F : Type 0} (b : Bloom F) (sort : List Wrapped → List Wrapped)
    (permutes : (xs : List Wrapped) → Perm xs (sort xs)) where
  -- If std::sort permutes its input and no record is tagged as deleted, the array holds the same
  -- net content as the view.
  pub array-SameNet :
      (records : List Wrapped) (bf : Option F)
      → Untagged records
      → SameNet records (sorted_array_from_bufferview b sort records bf).buffer
  unfolding sorted_array_from_bufferview
  array-SameNet records bf u =
      SameNet-trans records (sort records) _
        (SameNet-Perm records (sort records) (permutes records))
        (scan-SameNet b _ (sort records) (Untagged-Perm records _ (permutes records) u))

  -- If std::sort permutes its input and there is no tombstone, the array holds each record as
  -- often as the view holds it with no delete tag.
  pub array-live :
      (records : List Wrapped) (bf : Option F) (r : Record)
      → tombstones records ≡ 0
      → inserts r (sorted_array_from_bufferview b sort records bf).buffer
        ≡ sum_by (live_of r) records
  unfolding sorted_array_from_bufferview
  array-live records bf r h =
      ap (inserts r) (scan-survivors b _ (sort records))
      ∙ survivors-live r (sort records)
          (sym (sum_by-Perm tombstone_of records _ (permutes records)) ∙ h)
      ∙ sym (sum_by-Perm (live_of r) records _ (permutes records))

module _ {F : Type 0} (b : Bloom F) (sort : List Wrapped → List Wrapped)
    (orders : (xs : List Wrapped) → IsOrdered (sort xs)) where
  -- If std::sort orders its input, the array is sorted by record.
  pub array-IsSorted :
      (records : List Wrapped) (bf : Option F)
      → IsSorted (sorted_array_from_bufferview b sort records bf).buffer
  unfolding sorted_array_from_bufferview
  array-IsSorted records bf =
      subst IsSorted (sym (scan-survivors b _ (sort records)))
        (survivors-IsSorted (sort records) (IsOrdered→IsSorted (sort records) (orders records)))
