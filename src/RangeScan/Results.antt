-- ===== src/RangeScan/Results.antt =====
-- What a range scan (RangeScanIterator.h) returns: the records in order, each as often as it is
-- inserted, less the erasures.
use mathlib.Core.Option
use dynamic_extension.Base.{
  ℕ, zero, suc, ◌+◌, ◌-◌, ◌≤◌, ◌<◌, ◌≡◌, refl, sym, ◌∙◌, false, some, List, [], ◌∷◌, arith,
  Bool-cases, inl, inr, ltb, ltb→lt, lt→ltb, ◌==◌,
}
use dynamic_extension.Record.{Record, Wrapped, rec_lt, rec_eq}
use dynamic_extension.Record.Net.{bit, erasure_of}
use dynamic_extension.Record.Order.{rec_lt_descends, rec_lt_irrefl, rec_lt_asym}
use dynamic_extension.RangeScan.{RangeScanIterator, next, has_next, results}
use dynamic_extension.RangeScan.Covers.{total, Good}
use dynamic_extension.RangeScan.Order.{total_mono, total-shown, Good-shown}
use dynamic_extension.RangeScan.Groups.{not_above, live_of}
use dynamic_extension.RangeScan.Outcome.{net, shown, Advanced}
use dynamic_extension.RangeScan.Advance.{advance-Advanced}

-- How often `r` is in the list.
unfoldable pub count : Record → List Record → ℕ
count r [] = 0
count r (x ∷ xs) = bit (rec_eq x r) + count r xs

-- No record of the list is less than `c`.
abbrev pub NotBelow : Record → List Record → Type 0
NotBelow c [] = Unit
NotBelow c (x ∷ xs) = (rec_lt x c ≡ false) × NotBelow c xs

-- No record is less than one before it.
abbrev pub IsAscending : List Record → Type 0
IsAscending [] = Unit
IsAscending (x ∷ xs) = NotBelow x xs × IsAscending xs

-- What holds of an iterator between two calls.
pub record Ready (s : RangeScanIterator) : Type 0 where
  pub good : Good s
  pub ended : s.pending ≡ 0 → total (λ _. 1) s ≡ 0
  pub above : 0 < s.pending → total (not_above s.current) s ≡ 0

pub Advanced-Ready : (s s' : RangeScanIterator) → Advanced s s' → Ready s'
Advanced-Ready s s' a = record { good = a.good; ended = a.ended; above = a.above }

-- A call of `next`.
pub record Next (s s' : RangeScanIterator) : Type 0 where
  pub ready : Ready s'
  pub content :
      (r : Record) → bit (rec_eq s.current r) + (shown r s' + net r s') ≡ shown r s + net r s
  pub fewer : s'.pending + total (λ _. 1) s' < s.pending + total (λ _. 1) s
  pub less : total (λ _. 1) s' ≤ total (λ _. 1) s
  pub order : 0 < s'.pending → rec_lt s'.current s.current ≡ false

abbrev pub left : RangeScanIterator → ℕ
left s = s.pending + total (λ _. 1) s

Next-Advanced :
    (s s' : RangeScanIterator)
    → Ready s
    → s.pending ≡ 1
    → Advanced (record s { pending = 0 }) s'
    → Next s s'
Next-Advanced s s' r p a =
    let same : (f : Wrapped → ℕ) → total f (record s { pending = 0 }) ≡ total f s =
      λ f. total-shown f s s.current 0 in
    record {
      ready = Advanced-Ready (record s { pending = 0 }) s' a;
      content = λ x. ground (arith, a.content x, same (live_of x), same (erasure_of x));
      fewer = omega (arith, a.within, same (λ _. 1));
      less = omega (arith, a.within, same (λ _. 1));
      order = λ l.
          let (w, e, k) = a.from l in
          let n : not_above s.current w ≡ 0 =
            omega
              (arith, k (not_above s.current), same (not_above s.current), r.above (omega arith)) in
          rw e (rec_lt_asym s.current w.rec (ground arith));
    }

Next-counted :
    (s : RangeScanIterator)
    → Ready s
    → 1 < s.pending
    → Next s (record s { pending = s.pending - 1 })
Next-counted s r p =
    let same : (f : Wrapped → ℕ) → total f (record s { pending = s.pending - 1 }) ≡ total f s =
      λ f. total-shown f s s.current (s.pending - 1) in
    record {
      ready = record {
        good = Good-shown s s.current (s.pending - 1) r.good;
        ended = λ z. absurd (omega arith);
        above = λ _. same (not_above s.current) ∙ r.above (omega arith);
      };
      content = λ x. ground (arith, same (live_of x), same (erasure_of x));
      fewer = omega (arith, same (λ _. 1));
      less = omega (arith, same (λ _. 1));
      order = λ _. rec_lt_irrefl s.current;
    }

-- A call of `next` ends, and returns the current record once.
pub next-Next :
    (m : ℕ) (s : RangeScanIterator)
    → Ready s
    → total (λ _. 1) s < m
    → 0 < s.pending
    → (s' : RangeScanIterator) × (next m s ≡ some (s.current, s')) × Next s s'
unfolding next
next-Next m s r l p = elim (Bool-cases (s.pending - 1 == 0)) [
  | inl t ↦
      let same = total-shown (λ _. 1) s s.current 0 in
      let (s', a, v) =
        advance-Advanced m m (record s { pending = 0 }) (Good-shown s s.current 0 r.good)
          (omega arith) (omega arith) in
      (s', rw (next, lt→ltb 0 s.pending p, t, a) refl, Next-Advanced s s' r (ground arith) v)
  | inr t ↦ (
    record s { pending = s.pending - 1 },
    rw (next, lt→ltb 0 s.pending p, t) refl,
    Next-counted s r (ground arith),
  )
]

results-next :
    (m k : ℕ) (s s' : RangeScanIterator) (rs : List Record)
    → 0 < s.pending
    → next m s ≡ some (s.current, s')
    → results m k s' ≡ some rs
    → results m (suc k) s ≡ some (s.current ∷ rs)
unfolding results has_next Option.bind
results-next m k s s' rs p e f = rw (results, lt→ltb 0 s.pending p, e, f) refl

net-ended : (s : RangeScanIterator) (r : Record) → Ready s → s.pending ≡ 0 → shown r s + net r s ≡ 0
net-ended s r g z = ground (arith, total_mono (live_of r) (λ _. 1) (λ w. ground arith) s, g.ended z)

-- Once it is constructed, an iterator returns records in order, each as often as the records that
-- are left insert it, less how often they erase it.
pub results-content :
    (m k : ℕ) (s : RangeScanIterator)
    → Ready s
    → total (λ _. 1) s < m
    → left s < k
    → (rs : List Record) × (results m k s ≡ some rs)
      × IsAscending rs
      × ((c : Record) → (0 < s.pending → rec_lt s.current c ≡ false) → NotBelow c rs)
      × ((r : Record) → count r rs ≡ shown r s + net r s)
unfolding results has_next count
results-content m zero s r l h = absurd (omega arith)
results-content m (suc k) s r l h = elim (Bool-cases (ltb 0 s.pending)) [
  | inl t ↦
      let p = ltb→lt 0 s.pending t in
      let (s', e, n) = next-Next m s r l p in
      let (rs, f, a, b, c) =
        results-content m k s' n.ready (omega (arith, n.less)) (omega (arith, n.fewer)) in
      (
        s.current ∷ rs,
        results-next m k s s' rs p e f,
        (b s.current n.order, a),
        λ x q. (q p, b x (λ u. rec_lt_descends s'.current s.current x (n.order u) (q p))),
        λ x. omega (arith, c x, n.content x),
      )
  | inr t ↦ ([], rw (results, t) refl, tt, λ _ _. tt, λ x. sym (net-ended s x r (ground arith)))
]
