-- ===== src/External/Reads.antt =====
-- Reads of the data pages (ExternalISAMTree.h): get_record_at, and the iterator with its page buffer,
-- which a range scan sees as one over the records in order.
use dynamic_extension.Base.{
  ℕ, zero, suc, ◌+◌, ◌-◌, ◌/◌, ◌%◌, ◌≤◌, ◌<◌, ◌≡◌, ◌≢◌, refl, ap, ◌∙◌, false, Option, none, some,
  List, [], ◌∷◌, arith, Bool-cases, inl, inr, ltb, leb, ◌==◌, if◌then◌else◌, length, get_elem?,
  get_or,
}
use mathlib.Core.Option
use dynamic_extension.Record.{Wrapped}
use dynamic_extension.RangeScan
use dynamic_extension.RangeScan.{Iterator}
use dynamic_extension.External.{Stored}
use dynamic_extension.External.Pages.{joined, IsPaged, get_elem?-joined}
use dynamic_extension.External.Loop.{IsStored}

-- Page `p` of the file; page 0 is the header.
abbrev pub page_at : List (List Wrapped) → ℕ → List Wrapped
page_at pages p = get_or pages (p - 1) []

-- `page` is the page `page_num`, which is 0 before the first read.
pub record PageIterator : Type 0 where
  pub pages : List (List Wrapped)
  pub idx : ℕ
  pub end : ℕ
  pub page_num : ℕ
  pub page : List Wrapped

module _ (leaf_fanout : ℕ) where
  unfoldable pub load : PageIterator → PageIterator
  load it =
      let p = it.idx / leaf_fanout + 1 in
      if p == it.page_num then it else record it { page_num = p; page = page_at it.pages p }

  -- The inner `none` is a null pointer, the outer one a slot that was not written.
  unfoldable pub get_current : PageIterator → Option (Option Wrapped × PageIterator)
  get_current it =
      let read =
        Option.map (λ w. (some w, load it)) (get_elem? (load it).page (it.idx % leaf_fanout)) in
      if leb it.end it.idx then some (none, it) else read

  -- With the buffer that the caller hands in. The pages behind the data pages are not modelled:
  -- `none`, like a slot that was not written.
  unfoldable pub get_record_at : Stored → ℕ → ℕ → Option (Option Wrapped)
  get_record_at t root_page idx =
      let p = idx / leaf_fanout + 1 in
      let read = Option.map (λ w. some w) (get_elem? (page_at t.pages p) (idx % leaf_fanout)) in
      if ltb root_page p then some none else read

-- The iterator over the records in order.
abbrev pub in_order : PageIterator → Iterator
in_order it = record { records = joined it.pages; idx = it.idx; end = it.end }

-- The pages are in order, the end is within them, and the page that was read is the page named.
pub record IsReading (n : ℕ) (it : PageIterator) : Type 0 where
  pub paged : IsPaged n it.pages
  pub within : it.end ≤ length (joined it.pages)
  pub loaded : it.page_num ≢ 0 → it.page ≡ page_at it.pages it.page_num

there : (ws : List Wrapped) (i : ℕ) → i < length ws → (w : Wrapped) × (get_elem? ws i ≡ some w)
there [] i h = absurd (omega arith)
there (w ∷ ws) zero h = (w, refl)
there (w ∷ ws) (suc i) h = there ws i (omega arith)

load-lem :
    (n : ℕ) (it : PageIterator)
    → IsReading n it
    → ((load n it).page ≡ get_or it.pages (it.idx / n) [])
      × IsReading n (load n it)
      × (in_order (load n it) ≡ in_order it)
unfolding load
load-lem n it h =
    let named : it.idx / n + 1 - 1 ≡ it.idx / n = omega arith in
    elim (Bool-cases (it.idx / n + 1 == it.page_num)) [
      | inl e ↦
          let same : it.page_num - 1 ≡ it.idx / n = ground arith in
          rw e (h.loaded (ground arith) ∙ ap (λ p. get_or it.pages p []) same, h, refl)
      | inr e ↦ rw e (
        ap (λ p. get_or it.pages p []) named,
        record { paged = h.paged; within = h.within; loaded = λ _. refl },
        refl,
      )
    ]

-- The iterator reads written slots only, and shows what the one over the records in order shows,
-- also after it has loaded a page.
pub get_current-in_order :
    (n : ℕ) (it : PageIterator)
    → 0 < n
    → IsReading n it
    → (it' : PageIterator) × (get_current n it ≡ some (RangeScan.get_current (in_order it), it'))
      × IsReading n it'
      × (in_order it' ≡ in_order it)
unfolding get_current RangeScan.get_current
get_current-in_order n it pos h = elim (Bool-cases (leb it.end it.idx)) [
  | inl e ↦ (it, rw e refl, h, refl)
  | inr e ↦
      let inside : it.idx < length (joined it.pages) = ground (arith, h.within) in
      let (w, shown) = there (joined it.pages) it.idx inside in
      let (page, h', same) = load-lem n it h in
      let slot = get_elem?-joined n it.pages it.idx pos h.paged inside in
      (load n it, rw (e, page, slot, shown) refl, h', same)
]

-- A stored shard returns its records by index, if the root page is not before the data pages.
pub get_record_at-joined :
    (n root_page : ℕ) (t : Stored) (idx : ℕ)
    → 0 < n
    → IsStored n t
    → idx < t.reccnt
    → idx / n < root_page
    → get_record_at n t root_page idx ≡ some (get_elem? (joined t.pages) idx)
unfolding get_record_at
get_record_at-joined n root_page t idx pos h l r =
    let inside : idx < length (joined t.pages) = omega (arith, h.counted) in
    let (w, shown) = there (joined t.pages) idx inside in
    let slot = get_elem?-joined n t.pages idx pos h.paged inside in
    let named : idx / n + 1 - 1 ≡ idx / n = omega arith in
    let fits : ltb root_page (idx / n + 1) ≡ false = ground arith in
    rw (fits, named, slot, shown) refl
