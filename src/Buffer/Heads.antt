-- ===== src/Buffer/Heads.antt =====
-- The reference counts of the two heads (MutableBuffer.h) against the views that are held.
use native.Mathlib.Decide.{ℕ_discrete}
use dynamic_extension.Base.{
  ℕ, ◌+◌, ◌-◌, ◌<◌, ◌≡◌, ◌≢◌, refl, Bool, Option, some, List, [], ◌∷◌, arith, if◌then◌else◌, ◌==◌,
  ltb, Bool-cases, inl, inr, sym, ap, ◌∙◌,
}
use dynamic_extension.Wal.{Wal}
use dynamic_extension.Bloom.{Bloom}
use dynamic_extension.Record.{Record}
use dynamic_extension.Buffer.{
  Buffer, Head, append, place, try_advance_tail, get_head, release_head_reference, advance_head,
  make_buffer,
}
use dynamic_extension.Buffer.Clients.{
  count, erase, Shared, Step, appends, takes, releases, advances, Reach, here, next,
}

-- Both counts are those of the views that are out, and no other view is out.
pub record Counts (head old_head : Head) (held : List ℕ) : Type 0 where
  pub current : head.refcnt ≡ count head.head_idx held
  pub old : old_head.refcnt ≡ count old_head.head_idx held
  pub others : (h : ℕ) → h ≢ head.head_idx → h ≢ old_head.head_idx → count h held ≡ 0
  pub apart : head.head_idx ≢ old_head.head_idx

abbrev pub IsCounted : {F : Type 0} → Shared F → Type 0
IsCounted s = Counts s.buf.head s.buf.old_head s.held

pub count-erase :
    (h k : ℕ) (xs : List ℕ)
    → 0 < count h xs
    → count k (erase h xs) ≡ count k xs - (if h == k then 1 else 0)
unfolding count erase
count-erase h k [] p = absurd (omega arith)
count-erase h k (x ∷ xs) p = ground (arith, count-erase h k xs)

pub count-cons : (h x : ℕ) (xs : List ℕ) → count h (x ∷ xs) ≡ (if x == h then 1 else 0) + count h xs
unfolding count
count-cons h x xs = refl

module _ (hd old : Head) (held : List ℕ) (c : Counts hd old held) where
  take_old :
      Counts hd (record { head_idx = old.head_idx; refcnt = old.refcnt + 1 }) (old.head_idx ∷ held)
  take_old = record {
    current = ground (arith, count-cons hd.head_idx old.head_idx held, c.current, c.apart);
    old = ground (arith, count-cons old.head_idx old.head_idx held, c.old);
    others = λ h p q. ground (arith, count-cons h old.head_idx held, c.others h p q);
    apart = c.apart;
  }

  take_current :
      Counts (record { head_idx = hd.head_idx; refcnt = hd.refcnt + 1 }) old (hd.head_idx ∷ held)
  take_current = record {
    current = ground (arith, count-cons hd.head_idx hd.head_idx held, c.current);
    old = ground (arith, count-cons old.head_idx hd.head_idx held, c.old, c.apart);
    others = λ h p q. ground (arith, count-cons h hd.head_idx held, c.others h p q);
    apart = c.apart;
  }

  release_old :
      0 < count old.head_idx held
      → Counts hd
          (record { head_idx = old.head_idx; refcnt = old.refcnt - 1 })
          (erase old.head_idx held)
  release_old some_held = record {
    current =
        ground (arith, count-erase old.head_idx hd.head_idx held some_held, c.current, c.apart);
    old = ground (arith, count-erase old.head_idx old.head_idx held some_held, c.old);
    others = λ h p q. ground (arith, count-erase old.head_idx h held some_held, c.others h p q);
    apart = c.apart;
  }

  release_current :
      0 < count hd.head_idx held
      → Counts
          (record { head_idx = hd.head_idx; refcnt = hd.refcnt - 1 })
          old
          (erase hd.head_idx held)
  release_current some_held = record {
    current = ground (arith, count-erase hd.head_idx hd.head_idx held some_held, c.current);
    old = ground (arith, count-erase hd.head_idx old.head_idx held some_held, c.old, c.apart);
    others = λ h p q. ground (arith, count-erase hd.head_idx h held some_held, c.others h p q);
    apart = c.apart;
  }

  -- A view that is out is a view of one of the two heads.
  pub held_by : (h : ℕ) → 0 < count h held → h ≢ old.head_idx → h ≡ hd.head_idx
  held_by h p q = elim (ℕ_discrete h hd.head_idx) [
    | yes e ↦ e
    | no e ↦ absurd (omega (arith, c.others h e q))
  ]

  advance-Counts :
      (new_head : ℕ)
      → hd.head_idx < new_head
      → old.refcnt ≡ 0
      → Counts (record { head_idx = new_head; refcnt = 0 }) hd held
  advance-Counts new_head above free = record {
    current = elim (ℕ_discrete new_head old.head_idx) [
      | yes e ↦ rw e (omega (arith, c.old))
      | no e ↦ omega (arith, c.others new_head (λ t. omega arith) e)
    ];
    old = c.current;
    others = λ h p q. elim (ℕ_discrete h old.head_idx) [
      | yes e ↦ rw e (omega (arith, c.old))
      | no e ↦ c.others h q e
    ];
    apart = λ e. omega arith;
  }

same-Counts :
    (hd hd' old old' : Head) (held held' : List ℕ)
    → hd' ≡ hd
    → old' ≡ old
    → held' ≡ held
    → Counts hd old held
    → Counts hd' old' held'
same-Counts hd hd' old old' held held' p q r c = rw (p, q, r) c

release-returns :
    {F : Type 0} (buf : Buffer F) (held : List ℕ) (h : ℕ)
    → 0 < count h held
    → Counts buf.head buf.old_head held
    → (buf' : Buffer F) × (release_head_reference buf h ≡ some buf')
unfolding release_head_reference
release-returns buf held h out c = elim (Bool-cases (buf.old_head.head_idx == h)) [
  | inl t ↦
      let same : h ≡ buf.old_head.head_idx = ground arith in
      (
        record buf {
          old_head = record { head_idx = buf.old_head.head_idx; refcnt = buf.old_head.refcnt - 1 };
        },
        ground (arith, c.old, ap (λ k. count k held) same),
      )
  | inr t ↦
      let same = held_by buf.head buf.old_head held c h out (ground arith) in
      (
        record buf { head = record { head_idx = buf.head.head_idx; refcnt = buf.head.refcnt - 1 } },
        ground (arith, c.current, ap (λ k. count k held) same),
      )
]

module _ {F : Type 0} (b : Bloom F) where
  append-heads :
      (buf : Buffer F) (rec : Record) (tombstone logging : Bool)
      → let after = (append b buf rec tombstone logging).1 in
        (after.head ≡ buf.head) × (after.old_head ≡ buf.old_head)
  unfolding append place try_advance_tail
  append-heads buf rec tombstone logging = ground arith

  get_head-Counts :
      (buf buf' : Buffer F) (held : List ℕ) (target h : ℕ)
      → get_head buf target ≡ some (h, buf')
      → Counts buf.head buf.old_head held
      → Counts buf'.head buf'.old_head (h ∷ held)
  unfolding get_head
  get_head-Counts buf buf' held target h e c = elim (Bool-cases (buf.old_head.head_idx == target)) [
    | inl t ↦
        same-Counts _ buf'.head _ buf'.old_head _ (h ∷ held) (ground arith) (ground arith)
          (ground arith) (take_old buf.head buf.old_head held c)
    | inr t ↦
        same-Counts _ buf'.head _ buf'.old_head _ (h ∷ held) (ground arith) (ground arith)
          (ground arith) (take_current buf.head buf.old_head held c)
  ]

  release-Counts :
      (buf buf' : Buffer F) (held : List ℕ) (h : ℕ)
      → 0 < count h held
      → release_head_reference buf h ≡ some buf'
      → Counts buf.head buf.old_head held
      → Counts buf'.head buf'.old_head (erase h held)
  unfolding release_head_reference
  release-Counts buf buf' held h p e c = elim (Bool-cases (buf.old_head.head_idx == h)) [
    | inl t ↦
        let same : h ≡ buf.old_head.head_idx = ground arith in
        same-Counts _ buf'.head _ buf'.old_head _ (erase h held) (ground arith) (ground arith)
          (ap (λ k. erase k held) same) (release_old buf.head buf.old_head held c (rw same at p))
    | inr t ↦
        let same : h ≡ buf.head.head_idx =
          held_by buf.head buf.old_head held c h p (ground arith) in
        same-Counts _ buf'.head _ buf'.old_head _ (erase h held) (ground arith) (ground arith)
          (ap (λ k. erase k held) same)
          (release_current buf.head buf.old_head held c (rw same at p))
  ]

  advance_head-Counts :
      (buf buf' : Buffer F) (held : List ℕ) (new_head : ℕ) (done : Bool)
      → advance_head buf new_head ≡ some (done, buf')
      → Counts buf.head buf.old_head held
      → Counts buf'.head buf'.old_head held
  unfolding advance_head
  advance_head-Counts buf buf' held new_head done e c =
      elim (Bool-cases (ltb 0 buf.old_head.refcnt)) [
        | inl t ↦
            same-Counts _ buf'.head _ buf'.old_head _ held (ground arith) (ground arith) refl c
        | inr t ↦
            same-Counts _ buf'.head _ buf'.old_head _ held (ground arith) (ground arith) refl
              (advance-Counts buf.head buf.old_head held c new_head (ground arith) (ground arith))
      ]

  -- Every step keeps the two reference counts equal to the numbers of views that are out.
  pub Step-IsCounted : (s t : Shared F) → Step b s t → IsCounted s → IsCounted t
  Step-IsCounted s t (appends rec tombstone logging done e k) c =
      let kept = append-heads s.buf rec tombstone logging in
      same-Counts s.buf.head t.buf.head s.buf.old_head t.buf.old_head s.held t.held
        (sym (ap (λ r. r.1.head) e) ∙ kept.0) (sym (ap (λ r. r.1.old_head) e) ∙ kept.1) k c
  Step-IsCounted s t (takes target h e k) c =
      same-Counts t.buf.head t.buf.head t.buf.old_head t.buf.old_head (h ∷ s.held) t.held refl refl
        k (get_head-Counts s.buf t.buf s.held target h e c)
  Step-IsCounted s t (releases h p e k) c =
      same-Counts t.buf.head t.buf.head t.buf.old_head t.buf.old_head (erase h s.held) t.held refl
        refl k (release-Counts s.buf t.buf s.held h p e c)
  Step-IsCounted s t (advances new_head done e k) c =
      same-Counts t.buf.head t.buf.head t.buf.old_head t.buf.old_head s.held t.held refl refl k
        (advance_head-Counts s.buf t.buf s.held new_head done e c)

  make_buffer-Counts :
      (lwm hwm capacity : ℕ) (wal : Option Wal) (buf : Buffer F)
      → 0 < hwm
      → make_buffer b lwm hwm capacity wal ≡ some buf
      → Counts buf.head buf.old_head []
  unfolding make_buffer count
  make_buffer-Counts lwm hwm capacity wal buf h e = record {
    current = ground arith;
    old = ground arith;
    others = λ k p q. refl;
    apart = ground arith;
  }

  Reach-IsCounted : (s t : Shared F) → Reach b s t → IsCounted s → IsCounted t
  Reach-IsCounted s t here c = c
  Reach-IsCounted s t (next {t = m} r st) c = Step-IsCounted m t st (Reach-IsCounted s m r c)

  -- From a new buffer with a positive high watermark, any run of appends, of views taken and given
  -- back, and of advances keeps both reference counts exact, and a view that is out can be given
  -- back: its release does not spin.
  pub Reach-release :
      (lwm hwm capacity : ℕ) (wal : Option Wal) (buf : Buffer F) (s : Shared F) (h : ℕ)
      → 0 < hwm
      → make_buffer b lwm hwm capacity wal ≡ some buf
      → Reach b (record { buf = buf; held = [] }) s
      → 0 < count h s.held
      → IsCounted s × ((buf' : Buffer F) × (release_head_reference s.buf h ≡ some buf'))
  Reach-release lwm hwm capacity wal buf s h pos e r out =
      let c = Reach-IsCounted _ s r (make_buffer-Counts lwm hwm capacity wal buf pos e) in
      (c, release-returns s.buf s.held h out c)
