-- ===== src/External/Built.antt =====
-- The constructors of a shard in a file (ExternalISAMTree.h), up to the internal levels.
use mathlib.Core.List.{Perm}
use native.Mathlib.Nat.{mod-lt, div-add-mod', suc-mul, zero-mul}
use dynamic_extension.Base.{
  ℕ, zero, suc, ◌+◌, ◌-◌, ◌*◌, ◌%◌, ◌≤◌, ◌<◌, ◌≡◌, refl, sym, ap, subst, ◌∙◌, some, List, [], ◌∷◌,
  ◌++◌, map, arith, length, length-append, append-nil, take, drop,
}
use dynamic_extension.Base.Words.{sub64, size_mod}
use dynamic_extension.Record.{Wrapped}
use dynamic_extension.Record.Net.{
  SameNet, sum_by, sum_by-append, sum_by-Perm, length-sum_by, tombstones, tombstone_of, insert_of,
  erasure_of,
}
use dynamic_extension.Merge.Array.{IsSorted}
use dynamic_extension.External.{
  Run, Stored, opened, external_merge_sort, create_sorted_runs, chunk_count, of_view, sum_shards,
  of_shards,
}
use dynamic_extension.External.Pages.{joined}
use dynamic_extension.External.Loop.{IsStored}
use dynamic_extension.External.Start.{AllNew, run_records}
use dynamic_extension.External.Merged.{external_merge_sort-IsStored, external_merge_sort-any_count}

-- The records of shards.
unfoldable pub shard_records : List Stored → List Wrapped
shard_records [] = []
shard_records (t ∷ ts) = joined t.pages ++ shard_records ts

-- Each shard is as a constructor leaves it, and has a record.
abbrev pub AllStored : ℕ → List Stored → Type 0
AllStored n [] = Unit
AllStored n (t ∷ ts) = IsStored n t × (0 < t.reccnt) × AllStored n ts

abbrev runs_of : List Stored → List Run
runs_of ts = map (λ t. opened t.pages t.reccnt) ts

runs_of-AllNew : (n : ℕ) (ts : List Stored) → AllStored n ts → AllNew n (runs_of ts)
runs_of-AllNew n [] h = tt
runs_of-AllNew n (t ∷ ts) (h, some_record, hs) = (
  record {
    paged = h.paged;
    sorted = h.sorted;
    unread = refl;
    counted = h.counted;
    nonempty = some_record;
  },
  runs_of-AllNew n ts hs,
)

run_records-runs_of : (ts : List Stored) → run_records (runs_of ts) ≡ shard_records ts
unfolding run_records shard_records
run_records-runs_of [] = refl
run_records-runs_of (t ∷ ts) = ap (λ ws. joined t.pages ++ ws) (run_records-runs_of ts)

sum_shards-lem :
    (n : ℕ) (ts : List Stored)
    → AllStored n ts
    → (sum_shards (λ t. t.reccnt) ts ≡ length (shard_records ts))
      × (sum_shards (λ t. t.tombstone_cnt) ts ≡ tombstones (shard_records ts))
unfolding sum_shards shard_records sum_by
sum_shards-lem n [] h = (refl, refl)
sum_shards-lem n (t ∷ ts) (h, _, hs) =
    let (counts, marks) = sum_shards-lem n ts hs in
    (
      omega (arith, h.counted, counts, length-append (joined t.pages) (shard_records ts)),
      omega (arith, h.tombs, marks, sum_by-append tombstone_of (joined t.pages) (shard_records ts)),
    )

-- The merge of shards that constructors left, none of them empty, ends if there is fuel for their
-- records and the number of these is a size_t. The new shard is sorted, with exact figures, and has
-- the net content of them all.
pub of_shards-IsStored :
    (n fuel : ℕ) (shards : List Stored)
    → 0 < n
    → AllStored n shards
    → length (shard_records shards) < fuel
    → length (shard_records shards) < size_mod
    → (t : Stored) × (of_shards n fuel shards ≡ some t)
      × IsStored n t
      × SameNet (shard_records shards) (joined t.pages)
unfolding of_shards
of_shards-IsStored n fuel shards pos h enough small =
    let same = run_records-runs_of shards in
    let (counts, marks) = sum_shards-lem n shards h in
    let (t, ends, stored, net) =
      external_merge_sort-IsStored n fuel (runs_of shards) pos (runs_of-AllNew n shards h)
        (rw same enough) (rw same small) in
    (t, rw (counts, marks, ← same) ends, stored, subst (λ ws. SameNet ws (joined t.pages)) same net)

sum_by-take-drop :
    (f : Wrapped → ℕ) (n : ℕ) (ws : List Wrapped)
    → sum_by f (take n ws) + sum_by f (drop n ws) ≡ sum_by f ws
unfolding sum_by
sum_by-take-drop f zero ws = omega arith
sum_by-take-drop f (suc n) [] = refl
sum_by-take-drop f (suc n) (w ∷ ws) = omega (arith, sum_by-take-drop f n ws)

length-take-drop :
    (n : ℕ) (ws : List Wrapped)
    → (length (take n ws) ≤ n)
      × (length (take n ws) + length (drop n ws) ≡ length ws)
      × (0 < n → 0 < length ws → 0 < length (take n ws))
      × (length (drop n ws) ≡ length ws - n)
length-take-drop zero ws = (omega arith, omega arith, λ h k. absurd (omega arith), omega arith)
length-take-drop (suc n) [] = (omega arith, refl, λ h k. absurd (omega arith), omega arith)
length-take-drop (suc n) (w ∷ ws) =
    let (a, b, c, d) = length-take-drop n ws in
    (omega arith, omega arith, λ h k. omega arith, omega arith)

-- `m` chunks of `n` records, the last of which is not empty.
abbrev Chunks : ℕ → ℕ → ℕ → Type 0
Chunks n zero l = l ≡ 0
Chunks n (suc m) l = (m * n < l) × (l ≤ n + m * n)

Chunks-next : (n m l : ℕ) → Chunks n (suc m) l → Chunks n m (l - n)
Chunks-next n zero l h = omega (arith, h.1, zero-mul n)
Chunks-next n (suc m) l h = (omega (arith, h.0, suc-mul m n), omega (arith, h.1, suc-mul m n))

chunk_count-Chunks : (n l : ℕ) → 0 < n → Chunks n (chunk_count n l) l
unfolding chunk_count
chunk_count-Chunks n l pos =
    counted (chunk_count n l) (div-add-mod' (l + (n - 1)) n) (mod-lt (l + (n - 1)) pos)
  where
    counted :
        (m : ℕ) → m * n + (l + (n - 1)) % n ≡ l + (n - 1) → (l + (n - 1)) % n < n → Chunks n m l
    counted zero e s = omega (arith, e, s, zero-mul n)
    counted (suc m) e s = (omega (arith, e, s, suc-mul m n), omega (arith, e, s, suc-mul m n))

module _ (sort : List Wrapped → List Wrapped) (permutes : (ws : List Wrapped) → Perm ws (sort ws))
    (orders : (ws : List Wrapped) → IsSorted (sort ws)) where
  length-sort : (ws : List Wrapped) → length (sort ws) ≡ length ws
  length-sort ws =
      sym (length-sum_by (sort ws))
      ∙ sym (sum_by-Perm (λ _. 1) ws (sort ws) (permutes ws))
      ∙ length-sum_by ws

  create_sorted_runs-sum :
      (f : Wrapped → ℕ) (n m : ℕ) (view : List Wrapped)
      → 0 < n
      → Chunks n m (length view)
      → AllNew n (create_sorted_runs n sort view m)
        × (sum_by f (run_records (create_sorted_runs n sort view m)) ≡ sum_by f view)
  unfolding create_sorted_runs run_records sum_by joined
  create_sorted_runs-sum f n zero [] pos h = (tt, refl)
  create_sorted_runs-sum f n zero (w ∷ view) pos h = absurd (omega arith)
  create_sorted_runs-sum f n (suc m) view pos h =
      let chunk = take n view in
      let (fits, parts, some_record, rest) = length-take-drop n view in
      let (news, sums) =
        create_sorted_runs-sum f n m (drop n view) pos
          (subst (Chunks n m) (sym rest) (Chunks-next n m (length view) h)) in
      let whole : joined (sort chunk ∷ []) ≡ sort chunk = append-nil (sort chunk) in
      (
        (
          record {
            paged = (
              omega (arith, length-sort chunk, some_record pos (omega arith)),
              omega (arith, length-sort chunk),
            );
            sorted = subst IsSorted (sym whole) (orders chunk);
            unread = refl;
            counted = sym (ap length whole ∙ length-sort chunk);
            nonempty = some_record pos (omega arith);
          },
          news,
        ),
        omega (
          arith,
          sums,
          sum_by-append f (sort chunk ++ [])
              (run_records (create_sorted_runs n sort (drop n view) m)),
          ap (sum_by f) whole,
          sum_by-Perm f chunk (sort chunk) (permutes chunk),
          sum_by-take-drop f n view,
        ),
      )

  -- If std::sort permutes and orders its input, and there is fuel for the records of the view, whose
  -- number is a size_t, then the constructor from a view ends with a sorted shard that has full
  -- pages, an exact number of records and the net content of the view. Whatever count of tombstones
  -- the view reports, that of the shard is less by those that the merge cancels; so it is exact if
  -- the view's is.
  pub of_view-IsStored :
      (n fuel : ℕ) (view : List Wrapped) (tombstone_count : ℕ)
      → 0 < n
      → length view < fuel
      → length view < size_mod
      → (t : Stored) × (cancelled : ℕ) × (of_view n fuel sort view tombstone_count
          ≡ some (record t { tombstone_cnt = sub64 tombstone_count cancelled }))
        × IsStored n t
        × (t.tombstone_cnt ≡ sub64 (tombstones view) cancelled)
        × SameNet view (joined t.pages)
  unfolding of_view
  of_view-IsStored n fuel view tombstone_count pos enough small =
      let m = chunk_count n (length view) in
      let chunks = chunk_count-Chunks n (length view) pos in
      let runs = create_sorted_runs n sort view m in
      let same : (f : Wrapped → ℕ) → sum_by f (run_records runs) ≡ sum_by f view =
        λ f. (create_sorted_runs-sum f n m view pos chunks).1 in
      let size : length (run_records runs) ≡ length view =
        omega (arith, same (λ _. 1), length-sum_by (run_records runs), length-sum_by view) in
      let (t, ends, stored, net) =
        external_merge_sort-IsStored n fuel runs pos
          (create_sorted_runs-sum (λ _. 1) n m view pos chunks).0 (omega (arith, size))
          (omega (arith, size)) in
      let (cancelled, less, any) =
        external_merge_sort-any_count n fuel runs (length (run_records runs))
          (tombstones (run_records runs)) t ends in
      (
        t,
        cancelled,
        ap (λ c. external_merge_sort n fuel runs c tombstone_count) (sym size)
            ∙ any tombstone_count,
        stored,
        less ∙ ap (λ c. sub64 c cancelled) (same tombstone_of),
        λ r. omega (arith, net r, same (insert_of r), same (erasure_of r)),
      )
