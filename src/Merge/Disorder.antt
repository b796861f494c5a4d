-- ===== src/Merge/Disorder.antt =====
-- The pairs of records that are out of order, while arrays are merged (SortedMerge.h).
use dynamic_extension.Base.{
  ℕ, ◌+◌, ◌≡◌, refl, false, Option, none, some, List, [], ◌∷◌, ◌++◌, arith,
}
use dynamic_extension.Record.{Wrapped, rec_lt}
use dynamic_extension.Record.Net.{sum_by, sum_by-append, bit}
use dynamic_extension.Record.Order.{rec_lt_descends, wrapped_lt-rec_lt}
use dynamic_extension.Cursor.{Cursor, make_cursor}
use dynamic_extension.Merge.Array.{All, IsSorted}
use dynamic_extension.Merge.Queue.{QueueRecord, NoneLess}
use dynamic_extension.Merge.Cursors.{sum_rests, build_cursor_vec}
use dynamic_extension.Merge.Heads.{sum_of, heads_sum, head_sum}
use dynamic_extension.Merge.Rounds.{Taken}

-- `w` is less than `v`.
abbrev pub below : Wrapped → Wrapped → ℕ
below v w = bit (rec_lt w.rec v.rec)

-- The number of records that are less than one before them.
unfoldable pub disorder : List Wrapped → ℕ
disorder [] = 0
disorder (w ∷ ws) = sum_by (below w) ws + disorder ws

All→sum_by :
    (w : Wrapped) (ws : List Wrapped)
    → All (λ v. rec_lt v.rec w.rec ≡ false) ws
    → sum_by (below w) ws ≡ 0
unfolding sum_by
All→sum_by w [] h = refl
All→sum_by w (v ∷ ws) h = ground (arith, All→sum_by w ws h.1)

sum_by→All :
    (w : Wrapped) (ws : List Wrapped)
    → sum_by (below w) ws ≡ 0
    → All (λ v. rec_lt v.rec w.rec ≡ false) ws
unfolding sum_by
sum_by→All w [] h = tt
sum_by→All w (v ∷ ws) h = (ground arith, sum_by→All w ws (omega arith))

IsSorted→disorder : (ws : List Wrapped) → IsSorted ws → disorder ws ≡ 0
unfolding disorder
IsSorted→disorder [] h = refl
IsSorted→disorder (w ∷ ws) h = omega (arith, All→sum_by w ws h.0, IsSorted→disorder ws h.1)

pub disorder→IsSorted : (ws : List Wrapped) → disorder ws ≡ 0 → IsSorted ws
unfolding disorder
disorder→IsSorted [] h = tt
disorder→IsSorted (w ∷ ws) h = (sum_by→All w ws (omega arith), disorder→IsSorted ws (omega arith))

pub disorder-snoc :
    (ws : List Wrapped) (w : Wrapped)
    → disorder (ws ++ w ∷ []) ≡ disorder ws + sum_by (λ v. below v w) ws
unfolding disorder sum_by
disorder-snoc [] w = refl
disorder-snoc (v ∷ ws) w = omega (arith, disorder-snoc ws w, sum_by-append (below v) ws (w ∷ []))

-- If `v` is not less than `w`, no record of a sorted list that begins with `v` is.
below_trans : (w v u : Wrapped) → below w v ≡ 0 → below v u ≡ 0 → below w u ≡ 0
below_trans w v u h k =
    ground (arith, rec_lt_descends u.rec v.rec w.rec (ground arith) (ground arith))

none_below :
    (w v : Wrapped) (ws : List Wrapped)
    → below w v ≡ 0
    → sum_by (below v) ws ≡ 0
    → sum_by (below w) ws ≡ 0
unfolding sum_by
none_below w v [] h k = refl
none_below w v (u ∷ ws) h k =
    omega (arith, none_below w v ws h (omega arith), below_trans w v u h (omega arith))

head-none_below :
    (w : Wrapped) (k : ℕ) (ws : List Wrapped)
    → head_sum (λ e. below w e.data_at) k ws ≡ 0
    → disorder ws ≡ 0
    → sum_by (below w) ws ≡ 0
unfolding sum_by disorder
head-none_below w k [] h d = refl
head-none_below w k (v ∷ ws) h d = omega (arith, none_below w v ws h (omega arith))

pub heads-none_below :
    (w : Wrapped) (k : ℕ) (cs : List Cursor)
    → heads_sum (λ e. below w e.data_at) k cs ≡ 0
    → sum_rests disorder cs ≡ 0
    → sum_rests (sum_by (below w)) cs ≡ 0
unfolding heads_sum sum_rests
heads-none_below w k [] h d = refl
heads-none_below w k (c ∷ cs) h d = omega (
  arith,
  head-none_below w k c.rest (omega arith) (omega arith),
  heads-none_below w (k + 1) cs (omega arith) (omega arith),
)

pub NoneLess→sum_of :
    (w : Wrapped) (es : List QueueRecord) → NoneLess w es → sum_of (λ e. below w e.data_at) es ≡ 0
unfolding sum_of
NoneLess→sum_of w [] h = refl
NoneLess→sum_of w (e ∷ es) h =
    ground (arith, wrapped_lt-rec_lt e.data_at w h.0, NoneLess→sum_of w es h.1)

-- The records of each array are in order.
abbrev pub ArraysSorted : List (Option (List Wrapped)) → Type 0
ArraysSorted [] = Unit
ArraysSorted (none ∷ shards) = ArraysSorted shards
ArraysSorted (some ws ∷ shards) = IsSorted ws × ArraysSorted shards

pub disorder-build_cursor_vec :
    (ss : List (Option (List Wrapped)))
    → ArraysSorted ss
    → sum_rests disorder (build_cursor_vec ss) ≡ 0
unfolding build_cursor_vec make_cursor sum_rests disorder
disorder-build_cursor_vec [] h = refl
disorder-build_cursor_vec (none ∷ ss) h = omega (arith, disorder-build_cursor_vec ss h)
disorder-build_cursor_vec (some ws ∷ ss) h =
    omega (arith, IsSorted→disorder ws h.0, disorder-build_cursor_vec ss h.1)

sum_by-add :
    (f g h : Wrapped → ℕ)
    → ((v : Wrapped) → f v + g v ≡ h v)
    → (ws : List Wrapped) → sum_by f ws + sum_by g ws ≡ sum_by h ws
unfolding sum_by
sum_by-add f g h e [] = omega arith
sum_by-add f g h e (v ∷ ws) = omega (arith, e v, sum_by-add f g h e ws)

-- The pairs of a record written and a lesser one to come.
abbrev pub to_come_below : List Cursor → List Wrapped → ℕ
to_come_below cs ws = sum_by (λ v. sum_rests (sum_by (below v)) cs) ws

pub Taken-below :
    (w : Wrapped) (cs cs' : List Cursor) (ws : List Wrapped)
    → Taken w cs cs'
    → to_come_below cs' ws + sum_by (λ v. below v w) ws ≡ to_come_below cs ws
unfolding sum_by
Taken-below w cs cs' ws (us, g) =
    sum_by-add _ (λ v. below v w) _ (λ v. omega (arith, g (sum_by (below v)))) ws

pub Taken-disorder :
    (w : Wrapped) (cs cs' : List Cursor)
    → Taken w cs cs'
    → sum_rests disorder cs ≡ 0
    → sum_rests disorder cs' ≡ 0
unfolding disorder
Taken-disorder w cs cs' (us, g) h = omega (arith, g disorder)
