-- ===== src/External/Runs.antt =====
-- The runs that are merged (ExternalISAMTree.h): what a run gives next, and how it is found on its pages.
use mathlib.Core.Option.{some_inj}
use native.Mathlib.Nat.{mod-lt, mod-add-mod, mod_self, div-add-mod', div-eq_of_lt-le}
use dynamic_extension.Base.{
  ℕ, zero, suc, ◌+◌, ◌-◌, ◌/◌, ◌%◌, ◌<◌, ◌≡◌, ◌≢◌, refl, sym, ap, subst, ◌∙◌, true, some, List, [],
  ◌∷◌, arith, inl, inr, Bool-cases, leb, ◌==◌, if◌then◌else◌, length, get_elem?, get_or, set,
}
use dynamic_extension.Record.{Wrapped}
use dynamic_extension.Merge.Array.{All}
use dynamic_extension.External.{Run, next_record}
use dynamic_extension.External.Pages.{joined, IsPaged, get_elem?-joined}

-- A run whose pages are in order, whose records are counted, and whose current page is loaded.
pub record IsRun (n k : ℕ) (r : Run) : Type 0 where
  pub paged : IsPaged n r.pages
  pub counted : r.insert_cnt + r.remaining ≡ length (joined r.pages)
  pub loaded : r.insert_cnt % n ≢ 0 → r.buffer ≡ get_or r.pages (r.insert_cnt / n) []
  pub within : All (λ w. leb w.rec.key k ≡ true) (joined r.pages)

same_page : (n c : ℕ) → 0 < n → (c + 1) % n ≢ 0 → (c + 1) / n ≡ c / n
same_page n c pos h =
    let small = mod-lt c pos in
    let whole = div-add-mod' c n in
    let next = mod-add-mod c n 1 in
    let gap : c % n + 1 ≢ n = λ e. h (sym next ∙ ap (λ t. t % n) e ∙ mod_self n) in
    div-eq_of_lt-le n (omega (arith, whole)) (grind (arith, whole, small, gap))

at_index : (ws : List Wrapped) (i : ℕ) → i < length ws → (w : Wrapped) × (get_elem? ws i ≡ some w)
at_index [] i h = absurd (omega arith)
at_index (w ∷ ws) zero h = (w, refl)
at_index (w ∷ ws) (suc i) h = at_index ws i (omega arith)

All-get :
    (P : Wrapped → Type 0) (ws : List Wrapped) (i : ℕ) (w : Wrapped)
    → All P ws
    → get_elem? ws i ≡ some w
    → P w
All-get P [] i w h e = absurd (ground arith)
All-get P (v ∷ ws) zero w h e = subst P (ground arith) h.0
All-get P (v ∷ ws) (suc i) w h e = All-get P ws i w h.1 e

-- The page that a run reads from.
abbrev pub page_of : ℕ → Run → List Wrapped
page_of n r = get_or r.pages (r.insert_cnt / n) []

abbrev pub advanced : ℕ → Run → Run
advanced n r = record r {
  buffer = page_of n r;
  insert_cnt = r.insert_cnt + 1;
  remaining = r.remaining - 1;
}

current_page :
    (n k : ℕ) (r : Run)
    → IsRun n k r
    → (if r.insert_cnt % n == 0 then page_of n r else r.buffer) ≡ page_of n r
current_page n k r h = elim (Bool-cases (r.insert_cnt % n == 0)) [
  | inl e ↦ rw e refl
  | inr e ↦ rw e (h.loaded (ground arith))
]

-- A run with a record left gives it, and is a run again.
pub next_record_lem :
    (n k : ℕ) (r : Run)
    → 0 < n
    → IsRun n k r
    → 0 < r.remaining
    → (w : Wrapped) × (next_record n r ≡ some (w, advanced n r))
      × (get_elem? (joined r.pages) r.insert_cnt ≡ some w)
      × (leb w.rec.key k ≡ true)
      × IsRun n k (advanced n r)
unfolding next_record
next_record_lem n k r pos h some_left =
    let inside : r.insert_cnt < length (joined r.pages) = omega (arith, h.counted) in
    let (w, e) = at_index (joined r.pages) r.insert_cnt inside in
    let at = get_elem?-joined n r.pages r.insert_cnt pos h.paged inside in
    (
      w,
      rw (current_page n k r h, at, e) refl,
      e,
      All-get (λ v. leb v.rec.key k ≡ true) (joined r.pages) r.insert_cnt w h.within e,
      record {
        paged = h.paged;
        counted = omega (arith, h.counted);
        loaded = λ m. rw (same_page n r.insert_cnt pos m) refl;
        within = h.within;
      },
    )

abbrev pub AllRuns : ℕ → ℕ → List Run → Type 0
AllRuns n k [] = Unit
AllRuns n k (r ∷ rs) = IsRun n k r × AllRuns n k rs

pub AllRuns-get :
    (n k : ℕ) (rs : List Run) (i : ℕ) (r : Run)
    → AllRuns n k rs
    → get_elem? rs i ≡ some r
    → IsRun n k r
AllRuns-get n k [] i r h e = absurd (ground arith)
AllRuns-get n k (x ∷ rs) zero r h e = subst (IsRun n k) (some_inj.0 e) h.0
AllRuns-get n k (x ∷ rs) (suc i) r h e = AllRuns-get n k rs i r h.1 e

pub AllRuns-set :
    (n k : ℕ) (rs : List Run) (i : ℕ) (r : Run)
    → AllRuns n k rs
    → IsRun n k r
    → AllRuns n k (set rs i r)
AllRuns-set n k [] i r h g = tt
AllRuns-set n k (x ∷ rs) zero r h g = (g, h.1)
AllRuns-set n k (x ∷ rs) (suc i) r h g = (h.0, AllRuns-set n k rs i r h.1 g)

pub at_run : (rs : List Run) (i : ℕ) → i < length rs → (r : Run) × (get_elem? rs i ≡ some r)
at_run [] i h = absurd (omega arith)
at_run (r ∷ rs) zero h = (r, refl)
at_run (r ∷ rs) (suc i) h = at_run rs i (omega arith)

-- The runs from `i` on have a record left.
abbrev pub Fresh : ℕ → List Run → Type 0
Fresh i [] = Unit
Fresh zero (r ∷ rs) = (0 < r.remaining) × Fresh zero rs
Fresh (suc i) (r ∷ rs) = Fresh i rs

pub Fresh-get :
    (i : ℕ) (rs : List Run) (r : Run) → Fresh i rs → get_elem? rs i ≡ some r → 0 < r.remaining
Fresh-get i [] r h e = absurd (ground arith)
Fresh-get zero (x ∷ rs) r h e = subst (λ t. 0 < t.remaining) (some_inj.0 e) h.0
Fresh-get (suc i) (x ∷ rs) r h e = Fresh-get i rs r h e

pub Fresh-set : (i : ℕ) (rs : List Run) (r : Run) → Fresh i rs → Fresh (suc i) (set rs i r)
Fresh-set i [] r h = tt
Fresh-set zero (x ∷ rs) r h = h.1
Fresh-set (suc i) (x ∷ rs) r h = Fresh-set i rs r h

pub Fresh-suc : (i : ℕ) (rs : List Run) → Fresh i rs → Fresh (suc i) rs
Fresh-suc i [] h = tt
Fresh-suc zero (x ∷ rs) h = h.1
Fresh-suc (suc i) (x ∷ rs) h = Fresh-suc i rs h
