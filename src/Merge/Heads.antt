-- ===== src/Merge/Heads.antt =====
-- While the arrays of shards are merged (SortedMerge.h), the queue holds the first record in front of
-- each cursor.
use mathlib.Core.Logic.{∥∥₁_elim}
use mathlib.Core.List.{Perm, Permᴰ}
use native.Mathlib.Nat.{ℕ_set}
use dynamic_extension.Base.{
  ℕ, zero, suc, ◌+◌, ◌<◌, ◌≡◌, ◌≢◌, refl, sym, ap, ◌∙◌, ◌&&◌, ◌==◌, List, [], ◌∷◌, length, set,
  get_or, arith,
}
use dynamic_extension.Record.{Wrapped}
use dynamic_extension.Record.Net.{bit}
use dynamic_extension.Cursor.{Cursor, advance_cursor, cursor_at, in_array}
use dynamic_extension.Merge.Queue.{QueueRecord}
use dynamic_extension.Merge.Cursors.{sum_rests}

unfoldable pub sum_of : (QueueRecord → ℕ) → List QueueRecord → ℕ
sum_of f [] = 0
sum_of f (e ∷ es) = f e + sum_of f es

sum_of-Permᴰ :
    {xs ys : List QueueRecord} (f : QueueRecord → ℕ) → Permᴰ xs ys → sum_of f xs ≡ sum_of f ys
unfolding sum_of
sum_of-Permᴰ f Permᴰ.nil = refl
sum_of-Permᴰ f (Permᴰ.cons e p) = omega (arith, ap f e, sum_of-Permᴰ f p)
sum_of-Permᴰ f (Permᴰ.swap e e') = omega (arith, ap f e, ap f e')
sum_of-Permᴰ f (Permᴰ.trans p q) = sum_of-Permᴰ f p ∙ sum_of-Permᴰ f q

pub sum_of-Perm :
    (f : QueueRecord → ℕ) (xs ys : List QueueRecord) → Perm xs ys → sum_of f xs ≡ sum_of f ys
sum_of-Perm f xs ys p = ∥∥₁_elim p (ℕ_set _ _) (sum_of-Permᴰ f)

-- A function summed over the first records in front of the cursors.
abbrev pub head_sum : (QueueRecord → ℕ) → ℕ → List Wrapped → ℕ
head_sum f k [] = 0
head_sum f k (w ∷ ws) = f (record { data_at = w; version = k })

unfoldable pub heads_sum : (QueueRecord → ℕ) → ℕ → List Cursor → ℕ
heads_sum f k [] = 0
heads_sum f k (c ∷ cs) = head_sum f k c.rest + heads_sum f (k + 1) cs

-- Replacing one cursor.
pub heads_sum-set :
    (f : QueueRecord → ℕ) (k i j : ℕ) (cs : List Cursor) (c d : Cursor)
    → i < length cs
    → j ≡ k + i
    → heads_sum f k (set cs i c) + head_sum f j (get_or cs i d).rest
      ≡ heads_sum f k cs + head_sum f j c.rest
unfolding heads_sum
heads_sum-set f k i j [] c d h e = absurd (omega arith)
heads_sum-set f k zero j (x ∷ cs) c d h e = let y : j ≡ k = omega arith in rw y (omega arith)
heads_sum-set f k (suc i) j (x ∷ cs) c d h e =
    omega (arith, heads_sum-set f (k + 1) i j cs c d (omega arith) (omega arith))

pub sum_rests-set :
    (g : List Wrapped → ℕ) (i : ℕ) (cs : List Cursor) (c d : Cursor)
    → i < length cs
    → sum_rests g (set cs i c) + g (get_or cs i d).rest ≡ sum_rests g cs + g c.rest
unfolding sum_rests
sum_rests-set g i [] c d h = absurd (omega arith)
sum_rests-set g zero (x ∷ cs) c d h = omega arith
sum_rests-set g (suc i) (x ∷ cs) c d h = omega (arith, sum_rests-set g i cs c d (omega arith))

-- The record `e` of the queue, as a test.
abbrev pub same : QueueRecord → QueueRecord → ℕ
same e x = bit (
    x.version == e.version
    && (x.data_at.header == e.data_at.header
        && (x.data_at.rec.key == e.data_at.rec.key && x.data_at.rec.value == e.data_at.rec.value)))

pub same_self : (e : QueueRecord) → same e e ≡ 1
same_self e = ground arith

same→≡ : (e x : QueueRecord) → 0 < same e x → x ≡ e
same→≡ e x h = ground arith

head_sum-same :
    (e : QueueRecord) (k : ℕ) (ws : List Wrapped)
    → 0 < head_sum (same e) k ws
    → (e.version ≡ k) × (us : List Wrapped) × (ws ≡ e.data_at ∷ us)
head_sum-same e k [] h = absurd (omega arith)
head_sum-same e k (w ∷ ws) h =
    let x : record { data_at = w; version = k } ≡ e = same→≡ e _ h in
    (sym (ap (λ t. t.version) x), ws, ap (λ t. t.data_at ∷ ws) x)

head_sum-other :
    (e : QueueRecord) (k : ℕ) (ws : List Wrapped) → e.version ≢ k → head_sum (same e) k ws ≡ 0
head_sum-other e k [] h = refl
head_sum-other e k (w ∷ ws) h = ground arith

heads_sum-above :
    (e : QueueRecord) (k : ℕ) (cs : List Cursor) → e.version < k → heads_sum (same e) k cs ≡ 0
unfolding heads_sum
heads_sum-above e k [] h = refl
heads_sum-above e k (c ∷ cs) h = omega (
  arith,
  head_sum-other e k c.rest (λ x. omega arith),
  heads_sum-above e (k + 1) cs (omega arith),
)

-- A counted record stands in front of the cursor that its version names.
pub heads_sum-present :
    (e : QueueRecord) (k i : ℕ) (cs : List Cursor) (d : Cursor)
    → 0 < heads_sum (same e) k cs
    → e.version ≡ k + i
    → (i < length cs) × (ws : List Wrapped) × ((get_or cs i d).rest ≡ e.data_at ∷ ws)
unfolding heads_sum
heads_sum-present e k i [] d h v = absurd (omega arith)
heads_sum-present e k zero (c ∷ cs) d h v =
    let r = head_sum-same e k c.rest (omega (arith, heads_sum-above e (k + 1) cs (omega arith))) in
    (omega arith, r.1, r.2)
heads_sum-present e k (suc i) (c ∷ cs) d h v =
    let r =
      heads_sum-present e (k + 1) i cs d
        (omega (arith, head_sum-other e k c.rest (λ x. omega arith))) (omega arith) in
    (omega (arith, r.0), r.1, r.2)

-- What the cursors keep: the index counts the records behind `ptr`.
abbrev pub Counted : List Cursor → Type 0
Counted [] = Unit
Counted (c ∷ cs) = (c.rec_cnt ≡ c.cur_rec_idx + length c.rest) × Counted cs

pub Counted-at :
    (cs : List Cursor) (i : ℕ)
    → Counted cs
    → i < length cs
    → (cursor_at cs i).rec_cnt ≡ (cursor_at cs i).cur_rec_idx + length (cursor_at cs i).rest
Counted-at [] i h l = absurd (omega arith)
Counted-at (c ∷ cs) zero h l = h.0
Counted-at (c ∷ cs) (suc i) h l = Counted-at cs i h.1 (omega arith)

pub Counted-set :
    (cs : List Cursor) (i : ℕ) (c : Cursor)
    → Counted cs
    → c.rec_cnt ≡ c.cur_rec_idx + length c.rest
    → Counted (set cs i c)
Counted-set [] i c h l = tt
Counted-set (x ∷ cs) zero c h l = (l, h.1)
Counted-set (x ∷ cs) (suc i) c h l = (h.0, Counted-set cs i c h.1 l)

pub advance_cursor-lem :
    (c : Cursor) (w : Wrapped) (ws : List Wrapped)
    → c.rest ≡ w ∷ ws
    → c.rec_cnt ≡ c.cur_rec_idx + length c.rest
    → ((advance_cursor c).0 ≡ in_array ws)
      × ((advance_cursor c).1.rest ≡ ws)
      × ((advance_cursor c).1.rec_cnt ≡ (advance_cursor c).1.cur_rec_idx + length ws)
unfolding advance_cursor
advance_cursor-lem c w [] e h =
    let l : c.rec_cnt ≡ c.cur_rec_idx + 1 = h ∙ ap (λ t. c.cur_rec_idx + length t) e in
    rw e (ground arith, refl, omega arith)
advance_cursor-lem c w (v ∷ ws) e h =
    let l : c.rec_cnt ≡ c.cur_rec_idx + suc (suc (length ws)) =
      h ∙ ap (λ t. c.cur_rec_idx + length t) e in
    rw e (ground arith, refl, omega arith)
