-- ===== src/External/Around.antt =====
-- The records around those of a page of ExternalISAMTree.h, and the key of a page.
use native.Mathlib.Nat.{zero-add, suc-add}
use dynamic_extension.Base.{
  ℕ, zero, suc, ◌+◌, ◌-◌, ◌*◌, ◌<◌, ◌≤◌, ◌≡◌, refl, ap, sym, ◌∙◌, min, List, [], ◌∷◌, ◌++◌, arith,
  length, ℕ-cases, inl, inr, ◌⊎◌, get_or, length-append, append_assoc,
}
use dynamic_extension.Record.{Wrapped}
use dynamic_extension.KeySearch.Split.{key_at}
use dynamic_extension.External.{Stored}
use dynamic_extension.External.Pages.{joined, IsPaged}
use dynamic_extension.External.Loop.{IsStored}
use dynamic_extension.External.Reads.{page_at}
use dynamic_extension.External.Nodes.{page_key}

key_at-front : (xs ys : List Wrapped) (i : ℕ) → i < length xs → key_at (xs ++ ys) i ≡ key_at xs i
key_at-front [] ys i h = absurd (omega arith)
key_at-front (x ∷ xs) ys zero h = refl
key_at-front (x ∷ xs) ys (suc i) h = key_at-front xs ys i (omega arith)

key_at-back : (xs ys : List Wrapped) (i : ℕ) → key_at (xs ++ ys) (length xs + i) ≡ key_at ys i
key_at-back [] ys i = ap (key_at ys) (zero-add i)
key_at-back (x ∷ xs) ys i = ap (key_at (x ∷ xs ++ ys)) (suc-add (length xs) i) ∙ key_at-back xs ys i

-- The records around those of page `q` of the data pages, from 0.
pub record PageParts (n : ℕ) (ps : List (List Wrapped)) (q : ℕ) : Type 0 where
  pub before : List Wrapped
  pub after : List Wrapped
  pub parts : joined ps ≡ before ++ (get_or ps q [] ++ after)
  pub start : length before ≡ q * n
  pub some_records : 0 < length (get_or ps q [])
  pub fits : length (get_or ps q []) ≤ n
  pub full : suc q < length ps → length (get_or ps q []) ≡ n
  pub final : suc q ≡ length ps → after ≡ []

pub page_lem :
    (n : ℕ) (ps : List (List Wrapped)) (q : ℕ)
    → 0 < n
    → IsPaged n ps
    → q < length ps
    → PageParts n ps q
unfolding joined
page_lem n [] q pos h l = absurd (omega arith)
page_lem n (p ∷ []) zero pos h l = record {
  before = [];
  after = [];
  parts = refl;
  start = omega arith;
  some_records = h.0;
  fits = h.1;
  full = λ k. absurd (omega arith);
  final = λ e. refl;
}
page_lem n (p ∷ []) (suc q) pos h l = absurd (omega arith)
page_lem n (p ∷ p' ∷ ps) zero pos h l = record {
  before = [];
  after = joined (p' ∷ ps);
  parts = refl;
  start = omega arith;
  some_records = omega (arith, h.0);
  fits = omega (arith, h.0);
  full = λ k. h.0;
  final = λ e. absurd (omega arith);
}
page_lem n (p ∷ p' ∷ ps) (suc q) pos h l =
    let g = page_lem n (p' ∷ ps) q pos h.1 (omega arith) in
    record {
      before = p ++ g.before;
      after = g.after;
      parts =
          ap (λ xs. p ++ xs) g.parts
          ∙ sym (append_assoc p g.before (get_or (p' ∷ ps) q [] ++ g.after));
      start = length-append p g.before ∙ grind (arith, h.0, g.start);
      some_records = g.some_records;
      fits = g.fits;
      full = λ k. g.full (omega arith);
      final = λ e. g.final (omega arith);
    }

min_left : (n r b l a : ℕ) → r ≡ b + (l + a) → l ≤ n → (a ≡ 0) ⊎ (l ≡ n) → min n (r - b) ≡ l
min_left n r b l a e h f = ground arith

mul-before : (q n : ℕ) → 0 < q → q * n ≡ (q - 1) * n + n
mul-before zero n h = absurd (omega arith)
mul-before (suc q) n h = grind arith

module _ (n : ℕ) (t : Stored) (pos : 0 < n) (h : IsStored n t) where
  pub size_of :
      (p : ℕ) (g : PageParts n t.pages (p - 1))
      → t.reccnt ≡ length g.before + (length (page_at t.pages p) + length g.after)
  size_of p g =
      h.counted
      ∙ ap length g.parts
      ∙ length-append g.before _
      ∙ ap (λ k. length g.before + k) (length-append (page_at t.pages p) g.after)

  records_on_page :
      (p : ℕ) (g : PageParts n t.pages (p - 1))
      → 0 < p
      → p ≤ length t.pages
      → min n (t.reccnt - (p - 1) * n) ≡ length (page_at t.pages p)
  records_on_page p g l m =
      let filled : (length g.after ≡ 0) ⊎ (length (page_at t.pages p) ≡ n) =
        elim (ℕ-cases p (length t.pages)) [
          | inl same ↦ inl (ap length (g.final (omega arith)))
          | inr other ↦ inr (g.full (omega arith))
        ] in
      rw (sym g.start) (
        min_left n t.reccnt (length g.before) (length (page_at t.pages p)) (length g.after)
          (size_of p g) g.fits filled)

  -- The key of a page is that of its last record.
  pub page_key-last :
      (p : ℕ) (g : PageParts n t.pages (p - 1))
      → 0 < p
      → p ≤ length t.pages
      → page_key n t p ≡ key_at (page_at t.pages p) (length (page_at t.pages p) - 1)
  unfolding page_key
  page_key-last p g l m = ap (λ k. key_at (page_at t.pages p) (k - 1)) (records_on_page p g l m)

  pub on_page :
      (p i : ℕ) (g : PageParts n t.pages (p - 1))
      → i < length (page_at t.pages p)
      → key_at (joined t.pages) (length g.before + i) ≡ key_at (page_at t.pages p) i
  on_page p i g l =
      ap (λ ws. key_at ws (length g.before + i)) g.parts
      ∙ key_at-back g.before (page_at t.pages p ++ g.after) i
      ∙ key_at-front (page_at t.pages p) g.after i l

  page_key-joined :
      (p : ℕ) (g : PageParts n t.pages (p - 1))
      → 0 < p
      → p ≤ length t.pages
      → page_key n t p
        ≡ key_at (joined t.pages) (length g.before + (length (page_at t.pages p) - 1))
  page_key-joined p g l m =
      let some_records = g.some_records in
      page_key-last p g l m ∙ sym (on_page p (length (page_at t.pages p) - 1) g (omega arith))

  -- The page before ends where a page starts.
  pub page_key-before :
      (p : ℕ) (g : PageParts n t.pages (p - 1))
      → 1 < p
      → p ≤ length t.pages
      → page_key n t (p - 1) ≡ key_at (joined t.pages) (length g.before - 1)
  page_key-before p g l m =
      let b = page_lem n t.pages (p - 1 - 1) pos h.paged (omega arith) in
      let full = b.full (omega arith) in
      let step : (p - 1) * n ≡ (p - 1 - 1) * n + n = mul-before (p - 1) n (omega arith) in
      page_key-joined (p - 1) b (omega arith) (omega arith)
      ∙ ap (key_at (joined t.pages)) (omega (arith, full, b.start, g.start, step))
