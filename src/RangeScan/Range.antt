-- ===== src/RangeScan/Range.antt =====
-- What a range scan (RangeScanIterator.h) over the view and the levels of an epoch returns.
use mathlib.Core.List.{Perm}
use dynamic_extension.Base.{
  ℕ, zero, suc, ◌+◌, ◌-◌, ◌≤◌, ◌<◌, ◌≡◌, refl, sym, ap, subst, ◌∙◌, true, false, ◌&&◌, Option, some,
  none, List, [], ◌∷◌, ◌++◌, arith, inl, inr, length, min, leb, Bool-cases, Option-cases, take,
  drop, get_or, append_assoc,
}
use dynamic_extension.Record.{Record, Wrapped}
use dynamic_extension.Record.Net.{sum_by, erasure_of}
use dynamic_extension.Merge.Array.{IsSorted}
use dynamic_extension.KeySearch.Split.{key_at, key_at_mono, Splits}
use dynamic_extension.Shard.{all_records}
use dynamic_extension.Level.{Level, get_shard, get_shard_count}
use dynamic_extension.Level.Slots.{Filled}
use dynamic_extension.RangeScan.{
  Iterator, RangeScanIterator, range_scan, level_iters, all_iters, results, buffer_range,
}
use dynamic_extension.RangeScan.Sources.{to_give, upto}
use dynamic_extension.RangeScan.Groups.{live_of}
use dynamic_extension.RangeScan.Results.{count, IsAscending}
use dynamic_extension.RangeScan.Input.{iter_records, scanned, AllSorted}
use dynamic_extension.RangeScan.Start.{scan-content}

-- The iterator of a shard starts where its records, in order, split at the key, and ends behind them.
pub record IteratorLaws {S : Type 0} (file : S → List Wrapped) (get_iterator : S → ℕ → Iterator)
    : Type 0 where
  pub sorted : (s : S) → IsSorted (file s)
  pub records : (s : S) (key : ℕ) → (get_iterator s key).records ≡ file s
  pub end : (s : S) (key : ℕ) → (get_iterator s key).end ≡ length (file s)
  pub start :
      (s : S) (key : ℕ) → Splits (file s) key (min (get_iterator s key).idx (length (file s)))

above_range :
    (lo hi : ℕ) (ws : List Wrapped)
    → ((i : ℕ) → i < length ws → hi < key_at ws i)
    → buffer_range lo hi ws ≡ []
unfolding buffer_range
above_range lo hi [] h = refl
above_range lo hi (w ∷ ws) h =
    let first = h 0 (omega arith) in
    let rest = above_range lo hi ws (λ i l. h (suc i) (omega arith)) in
    let out : (leb lo w.rec.key && leb w.rec.key hi) ≡ false = ground arith in rw out rest

-- From where a sorted array splits at `lo`, the records up to `hi` are those of the range.
upto-buffer_range :
    (lo hi : ℕ) (ws : List Wrapped)
    → IsSorted ws
    → Splits ws lo 0
    → upto hi ws ≡ buffer_range lo hi ws
unfolding upto buffer_range
upto-buffer_range lo hi [] s h = refl
upto-buffer_range lo hi (w ∷ ws) s h =
    let low : lo ≤ w.rec.key = h.2 0 (omega arith) (omega arith) in
    let ih = upto-buffer_range lo hi ws s.1 (
      omega arith,
      λ i l. absurd (omega arith),
      λ i l m. h.2 (suc i) (omega arith) (omega arith),
    ) in
    elim (Bool-cases (leb w.rec.key hi)) [
      | inl e ↦
          let inside : (leb lo w.rec.key && leb w.rec.key hi) ≡ true = ground arith in
          rw (inside, e) (ap (λ t. w ∷ t) ih)
      | inr e ↦
          let out : (leb lo w.rec.key && leb w.rec.key hi) ≡ false = ground arith in
          let none_left = above_range lo hi ws (λ i l.
            let mono = key_at_mono (w ∷ ws) 0 (suc i) s (omega arith) (omega arith) in
            ground arith) in
          rw (out, e) (sym none_left)
    ]

drop-buffer_range :
    (lo hi r : ℕ) (ws : List Wrapped)
    → IsSorted ws
    → Splits ws lo r
    → upto hi (drop r ws) ≡ buffer_range lo hi ws
unfolding buffer_range
drop-buffer_range lo hi zero ws s h = upto-buffer_range lo hi ws s h
drop-buffer_range lo hi (suc r) [] s h = absurd (omega (arith, h.0))
drop-buffer_range lo hi (suc r) (w ∷ ws) s h =
    let low : w.rec.key < lo = h.1 0 (omega arith) in
    let out : (leb lo w.rec.key && leb w.rec.key hi) ≡ false = ground arith in
    rw out (
      drop-buffer_range lo hi r ws s.1 (
        omega (arith, h.0),
        λ i l. h.1 (suc i) (omega arith),
        λ i l m. h.2 (suc i) (omega arith) (omega arith),
      ))

take-all : (ws : List Wrapped) → take (length ws) ws ≡ ws
take-all [] = refl
take-all (w ∷ ws) = ap (λ t. w ∷ t) (take-all ws)

drop-empty : (k : ℕ) → drop {A = Wrapped} k [] ≡ []
drop-empty zero = refl
drop-empty (suc k) = refl

drop-min : (i : ℕ) (ws : List Wrapped) → drop i ws ≡ drop (min i (length ws)) ws
drop-min zero ws = let same : 0 ≡ min 0 (length ws) = ground arith in ap (λ k. drop k ws) same
drop-min (suc i) [] = sym (drop-empty (min (suc i) 0))
drop-min (suc i) (w ∷ ws) =
    let same : min (suc i) (suc (length ws)) ≡ suc (min i (length ws)) = ground arith in
    drop-min i ws ∙ ap (λ k. drop k (w ∷ ws)) (sym same)

buffer_range-append :
    (lo hi : ℕ) (xs ys : List Wrapped)
    → buffer_range lo hi (xs ++ ys) ≡ buffer_range lo hi xs ++ buffer_range lo hi ys
unfolding buffer_range
buffer_range-append lo hi [] ys = refl
buffer_range-append lo hi (x ∷ xs) ys = ground (arith, buffer_range-append lo hi xs ys)

iter_records-append :
    (k : ℕ) (xs ys : List Iterator)
    → iter_records k (xs ++ ys) ≡ iter_records k xs ++ iter_records k ys
unfolding iter_records
iter_records-append k [] ys = refl
iter_records-append k (x ∷ xs) ys =
    ap (λ t. upto k (to_give x) ++ t) (iter_records-append k xs ys)
    ∙ sym (append_assoc (upto k (to_give x)) (iter_records k xs) (iter_records k ys))

slot_at :
    {S : Type 0} (n i : ℕ) (ss : List (Option S))
    → Filled n ss
    → i < n
    → (s : S) × (get_or ss i none ≡ some s) × (drop i ss ≡ some s ∷ drop (suc i) ss)
slot_at zero i ss f h = absurd (omega arith)
slot_at (suc n) i [] f h = absurd f
slot_at (suc n) i (none ∷ ss) f h = absurd f
slot_at (suc n) zero (some s ∷ ss) f h = (s, refl, refl)
slot_at (suc n) (suc i) (some s ∷ ss) f h =
    let (s', e, d) = slot_at n i ss f (omega arith) in (s', e, d)

slots_end :
    {S : Type 0} (file : S → List Wrapped) (n : ℕ) (ss : List (Option S))
    → Filled n ss
    → all_records file (drop n ss) ≡ []
unfolding all_records
slots_end file zero [] f = refl
slots_end file zero (none ∷ ss) f = slots_end file zero ss f
slots_end file zero (some s ∷ ss) f = absurd f
slots_end file (suc n) [] f = absurd f
slots_end file (suc n) (none ∷ ss) f = absurd f
slots_end file (suc n) (some s ∷ ss) f = slots_end file n ss f

module _ {S : Type 0} (file : S → List Wrapped) where
  -- The records of all the shards, and that the slots of the levels are filled from the front.
  unfoldable pub level_records : List (Level S) → List Wrapped
  level_records [] = []
  level_records (l ∷ ls) = all_records file l.shards ++ level_records ls

  abbrev pub AllFilled : List (Level S) → Type 0
  AllFilled [] = Unit
  AllFilled (l ∷ ls) = Filled l.shard_cnt l.shards × AllFilled ls

module _ {S : Type 0} {file : S → List Wrapped} {get_iterator : S → ℕ → Iterator}
    (laws : IteratorLaws file get_iterator) (lo hi : ℕ) where
  iterator-range : (s : S) → upto hi (to_give (get_iterator s lo)) ≡ buffer_range lo hi (file s)
  unfolding to_give
  iterator-range s =
      rw
        (
          laws.records s lo,
          laws.end s lo,
          take-all (file s),
          drop-min (get_iterator s lo).idx (file s),
        )
        (drop-buffer_range lo hi _ (file s) (laws.sorted s) (laws.start s lo))

  level_iters-range :
      (l : Level S) (n i : ℕ)
      → Filled l.shard_cnt l.shards
      → i + n ≡ l.shard_cnt
      → iter_records hi (level_iters get_iterator lo l i n)
        ≡ buffer_range lo hi (all_records file (drop i l.shards))
  unfolding level_iters iter_records get_shard all_records buffer_range
  level_iters-range l zero i f h =
      let e : i ≡ l.shard_cnt = omega arith in
      sym (
        ap (λ k. buffer_range lo hi (all_records file (drop k l.shards))) e
        ∙ ap (buffer_range lo hi) (slots_end file l.shard_cnt l.shards f))
  level_iters-range l (suc n) i f h =
      let (s, e, d) = slot_at l.shard_cnt i l.shards f (omega arith) in
      let used : leb l.shard_cnt i ≡ false = ground arith in
      let next : suc i ≡ i + 1 = omega arith in
      let rest = d ∙ ap (λ k. some s ∷ drop k l.shards) next in
      rw (level_iters, get_shard, used, e, rest)
        (ap (λ t. t ++ iter_records hi (level_iters get_iterator lo l (i + 1) n)) (iterator-range s)
          ∙ ap (λ t. buffer_range lo hi (file s) ++ t)
              (level_iters-range l n (i + 1) f (omega arith))
          ∙ sym (buffer_range-append lo hi (file s) (all_records file (drop (i + 1) l.shards))))

  all_iters-range :
      (ls : List (Level S))
      → AllFilled file ls
      → iter_records hi (all_iters get_iterator lo ls) ≡ buffer_range lo hi (level_records file ls)
  unfolding all_iters iter_records level_records buffer_range get_shard_count
  all_iters-range [] f = refl
  all_iters-range (l ∷ ls) f =
      iter_records-append hi (level_iters get_iterator lo l 0 l.shard_cnt)
        (all_iters get_iterator lo ls)
      ∙ ap (λ t. t ++ iter_records hi (all_iters get_iterator lo ls))
          (level_iters-range l l.shard_cnt 0 f.0 (omega arith))
      ∙ ap (λ t. buffer_range lo hi (all_records file l.shards) ++ t) (all_iters-range ls f.1)
      ∙ sym (buffer_range-append lo hi (all_records file l.shards) (level_records file ls))

drop-IsSorted : (r : ℕ) (ws : List Wrapped) → IsSorted ws → IsSorted (drop r ws)
drop-IsSorted zero ws h = h
drop-IsSorted (suc r) [] h = h
drop-IsSorted (suc r) (w ∷ ws) h = drop-IsSorted r ws h.1

AllSorted-append : (xs ys : List Iterator) → AllSorted xs → AllSorted ys → AllSorted (xs ++ ys)
AllSorted-append [] ys h k = k
AllSorted-append (x ∷ xs) ys h k = (h.0, AllSorted-append xs ys h.1 k)

module _ {S : Type 0} {file : S → List Wrapped} {get_iterator : S → ℕ → Iterator}
    (laws : IteratorLaws file get_iterator) (lo : ℕ) where
  iterator-sorted : (s : S) → IsSorted (to_give (get_iterator s lo))
  unfolding to_give
  iterator-sorted s =
      rw (laws.records s lo, laws.end s lo, take-all (file s))
        (drop-IsSorted (get_iterator s lo).idx (file s) (laws.sorted s))

  level_iters-AllSorted : (l : Level S) (n i : ℕ) → AllSorted (level_iters get_iterator lo l i n)
  unfolding level_iters
  level_iters-AllSorted l zero i = tt
  level_iters-AllSorted l (suc n) i = elim (Option-cases (get_shard l i)) [
    | inl e ↦ rw (level_iters, e) (level_iters-AllSorted l n (i + 1))
    | inr (s, e) ↦
        rw (AllSorted, level_iters, e) (iterator-sorted s, level_iters-AllSorted l n (i + 1))
  ]

  all_iters-AllSorted : (ls : List (Level S)) → AllSorted (all_iters get_iterator lo ls)
  unfolding all_iters
  all_iters-AllSorted [] = tt
  all_iters-AllSorted (l ∷ ls) =
      AllSorted-append (level_iters get_iterator lo l 0 (get_shard_count l)) _
        (level_iters-AllSorted l (get_shard_count l) 0) (all_iters-AllSorted ls)

-- The records of buffer and shards whose keys are in the range.
abbrev pub in_range :
    {S : Type 0}
    → (S → List Wrapped)
    → Record
    → Record
    → List Wrapped
    → List (Level S)
    → List Wrapped
in_range file start finish view levels =
    buffer_range start.key finish.key (view ++ level_records file levels)

module _ (sort : List Wrapped → List Wrapped) (permutes : (ws : List Wrapped) → Perm ws (sort ws))
    (orders : (ws : List Wrapped) → IsSorted (sort ws)) {S : Type 0} {file : S → List Wrapped}
    {get_iterator : S → ℕ → Iterator} (laws : IteratorLaws file get_iterator) where
  -- If std::sort permutes and orders its input, the iterator of each shard starts where its records,
  -- in order, split at the first key, the slots of the levels are filled from the front, and there is
  -- fuel for the records of the range, then the constructor ends, the calls of `next` end, and they
  -- return records in ascending order: each as often as the buffer and the shards insert it untagged
  -- with a key from the first to the last of the range, less how often they erase it.
  pub range_scan-content :
      (m : ℕ) (start finish : Record) (view : List Wrapped) (levels : List (Level S))
      → AllFilled file levels
      → sum_by (λ _. 1) (in_range file start finish view levels) < m
      → (s : RangeScanIterator) × (rs : List Record) × (range_scan m sort get_iterator start finish
            view levels
          ≡ some s)
        × (results m m s ≡ some rs)
        × IsAscending rs
        × ((r : Record)
            → count r rs
              ≡ sum_by (live_of r) (in_range file start finish view levels)
                - sum_by (erasure_of r) (in_range file start finish view levels))
  unfolding range_scan
  range_scan-content m start finish view levels f l =
      let iters = all_iters get_iterator start.key levels in
      let same : scanned start finish view iters ≡ in_range file start finish view levels =
        ap (λ t. buffer_range start.key finish.key view ++ t)
          (all_iters-range laws start.key finish.key levels f)
        ∙ sym (buffer_range-append start.key finish.key view (level_records file levels)) in
      let (s, rs, a, e, o, c) =
        scan-content sort permutes orders m start finish view iters
          (all_iters-AllSorted laws start.key levels)
          (subst (λ t. sum_by (λ _. 1) t < m) (sym same) l) in
      (
        s,
        rs,
        a,
        e,
        o,
        λ r. subst (λ t. count r rs ≡ sum_by (live_of r) t - sum_by (erasure_of r) t) same (c r),
      )
