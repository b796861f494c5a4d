-- ===== src/External/Pages.antt =====
-- The pages of a shard's file (ExternalISAMTree.h) and the records on them.
use native.Mathlib.Nat.{zero-add, suc-add, div-eq_of_lt, mod-eq_of_lt, add-div_left, add-mod_left}
use native.Mathlib.Numerals.{add-one}
use dynamic_extension.Base.{
  ℕ, zero, suc, ◌+◌, ◌-◌, ◌/◌, ◌%◌, ◌≤◌, ◌<◌, ◌≡◌, refl, sym, ap, subst, ◌∙◌, List, [], ◌∷◌, ◌++◌,
  arith, ◌⊎◌, inl, inr, length, get_elem?, get_or, length-append, append_assoc, append-nil,
}
use dynamic_extension.Record.{Wrapped}

-- The records of the pages, in order.
unfoldable pub joined : List (List Wrapped) → List Wrapped
joined [] = []
joined (p ∷ ps) = p ++ joined ps

-- Every page but the last is full, and the last has some records.
abbrev pub IsPaged : ℕ → List (List Wrapped) → Type 0
IsPaged n [] = Unit
IsPaged n (p ∷ []) = (0 < length p) × (length p ≤ n)
IsPaged n (p ∷ q ∷ ps) = (length p ≡ n) × IsPaged n (q ∷ ps)

-- Every page is full.
abbrev pub AllFull : ℕ → List (List Wrapped) → Type 0
AllFull n [] = Unit
AllFull n (p ∷ ps) = (length p ≡ n) × AllFull n ps

pub get_elem?-front :
    (xs ys : List Wrapped) (i : ℕ) → i < length xs → get_elem? (xs ++ ys) i ≡ get_elem? xs i
get_elem?-front [] ys i h = absurd (omega arith)
get_elem?-front (x ∷ xs) ys zero h = refl
get_elem?-front (x ∷ xs) ys (suc i) h = get_elem?-front xs ys i (omega arith)

pub get_elem?-back :
    (xs ys : List Wrapped) (i : ℕ) → get_elem? (xs ++ ys) (length xs + i) ≡ get_elem? ys i
get_elem?-back [] ys i = ap (get_elem? ys) (zero-add i)
get_elem?-back (x ∷ xs) ys i =
    ap (get_elem? (x ∷ xs ++ ys)) (suc-add (length xs) i) ∙ get_elem?-back xs ys i

pub joined-append : (ps qs : List (List Wrapped)) → joined (ps ++ qs) ≡ joined ps ++ joined qs
unfolding joined
joined-append [] qs = refl
joined-append (p ∷ ps) qs = rw (joined-append ps qs) (sym (append_assoc p (joined ps) (joined qs)))

lt-cases : (a b : ℕ) → (a < b) ⊎ (b ≤ a)
lt-cases a b = ground arith

next_page :
    (n : ℕ) (p : List Wrapped) (ps : List (List Wrapped)) (j : ℕ)
    → 0 < n
    → get_elem? (get_or (p ∷ ps) ((n + j) / n) []) ((n + j) % n)
      ≡ get_elem? (get_or ps (j / n) []) (j % n)
next_page n p ps j pos = rw (add-div_left j pos, add-mod_left n j, add-one (j / n)) refl

-- The record at index `i` is on page `i / n`, at slot `i % n`.
pub get_elem?-joined :
    (n : ℕ) (ps : List (List Wrapped)) (i : ℕ)
    → 0 < n
    → IsPaged n ps
    → i < length (joined ps)
    → get_elem? (get_or ps (i / n) []) (i % n) ≡ get_elem? (joined ps) i
unfolding joined
get_elem?-joined n [] i pos h l = absurd (omega arith)
get_elem?-joined n (p ∷ []) i pos h l =
    let h' : i < length p = subst (λ t. i < length t) (append-nil p) l in
    let s : i < n = omega arith in
    rw (div-eq_of_lt s, mod-eq_of_lt s) (sym (get_elem?-front p [] i h'))
get_elem?-joined n (p ∷ q ∷ ps) i pos h l = elim (lt-cases i n) [
  | inl s ↦ rw (div-eq_of_lt s, mod-eq_of_lt s) (sym (get_elem?-front p _ i (omega arith)))
  | inr s ↦
      let j : ℕ = i - n in
      let e : n + j ≡ i = omega arith in
      let e' : length p + j ≡ i = omega arith in
      subst
        (λ t.
          get_elem? (get_or (p ∷ q ∷ ps) (t / n) []) (t % n) ≡ get_elem? (p ++ (q ++ joined ps)) i)
        e
        (next_page n p (q ∷ ps) j pos
          ∙ get_elem?-joined n (q ∷ ps) j pos h.1 (omega (arith, length-append p (q ++ joined ps)))
          ∙ sym (get_elem?-back p (q ++ joined ps) j)
          ∙ ap (get_elem? (p ++ (q ++ joined ps))) e')
]

-- Full pages and a last one with some records.
pub IsPaged-snoc :
    (n : ℕ) (ps : List (List Wrapped)) (p : List Wrapped)
    → AllFull n ps
    → 0 < length p
    → length p ≤ n
    → IsPaged n (ps ++ p ∷ [])
IsPaged-snoc n [] p h k l = (k, l)
IsPaged-snoc n (q ∷ []) p h k l = (h.0, (k, l))
IsPaged-snoc n (q ∷ q' ∷ ps) p h k l = (h.0, IsPaged-snoc n (q' ∷ ps) p h.1 k l)

pub AllFull-snoc :
    (n : ℕ) (ps : List (List Wrapped)) (p : List Wrapped)
    → AllFull n ps
    → length p ≡ n
    → AllFull n (ps ++ p ∷ [])
AllFull-snoc n [] p h k = (k, tt)
AllFull-snoc n (q ∷ ps) p h k = (h.0, AllFull-snoc n ps p h.1 k)
