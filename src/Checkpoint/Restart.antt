-- ===== src/Checkpoint/Restart.antt =====
-- What load_checkpoint (Checkpoint.h) restores of what save_checkpoint wrote.
use mathlib.Core.Option
use dynamic_extension.Base.{
  ℕ, zero, suc, ◌+◌, ◌-◌, ◌<◌, ◌≡◌, ◌≢◌, refl, sym, ap, subst, ◌∙◌, true, false, Option, none, some,
  List, [], ◌∷◌, ◌++◌, arith, ◌==◌, if◌then◌else◌, length, map, get_or, get_elem?, replicate,
  length-append, length-replicate, get_or-set_self, get_or-set_ne, ℕ-cases, inl, inr,
}
use dynamic_extension.Level.{Level, present}
use dynamic_extension.Level.Slots.{Filled}
use dynamic_extension.Checkpoint.{
  LevelEntry, Disk, write_tmp, rename_tmp, level_entries, save_checkpoint, pad, load_entry,
  load_entries, load_checkpoint,
}
use dynamic_extension.Checkpoint.Names.{files, opened, slots, level_files, loaded_level}

-- The files of a level, if there is an entry for it.
unfoldable pub find : ℕ → List LevelEntry → Option (List ℕ)
find i [] = none
find i ((j, names) ∷ entries) = if i == j then some names else find i entries

-- No two entries have the same key, as in a JSON object.
abbrev pub AreDistinct : List LevelEntry → Type 0
AreDistinct [] = Unit
AreDistinct ((i, names) ∷ entries) = (find i entries ≡ none) × AreDistinct entries

-- Each key of an object is visited once, with its value.
pub record ItemsLaws (items : List LevelEntry → List LevelEntry) : Type 0 where
  pub items-find :
      (entries : List LevelEntry) (i : ℕ)
      → AreDistinct entries
      → find i (items entries) ≡ find i entries
  pub items-AreDistinct :
      (entries : List LevelEntry) → AreDistinct entries → AreDistinct (items entries)

module _ {S : Type 0} (open_shard : ℕ → S) where
  get_or-pad :
      (ls : List (Option (Level S))) (n j : ℕ)
      → get_or (ls ++ replicate n none) j none ≡ get_or ls j none
  get_or-pad [] zero j = refl
  get_or-pad [] (suc n) zero = refl
  get_or-pad [] (suc n) (suc j) = get_or-pad [] n j
  get_or-pad (l ∷ ls) n zero = refl
  get_or-pad (l ∷ ls) n (suc j) = get_or-pad ls n j

  -- The level of an entry.
  abbrev pub level_of : ℕ → List ℕ → Level S
  level_of i names = slots open_shard i (length names) (opened open_shard names)

  load_entry_self :
      (ls : List (Option (Level S))) (i : ℕ) (names : List ℕ)
      → get_or (load_entry open_shard ls (i, names)) i none ≡ some (level_of i names)
  unfolding load_entry pad
  load_entry_self ls i names =
      let n = i + 1 - length ls in
      get_or-set_self (ls ++ replicate n none) i _ none (
        omega (
          arith,
          length-append ls (replicate n none),
          length-replicate {A = Option (Level S)} n none,
        ))
      ∙ ap some (loaded_level open_shard i names)

  load_entry_other :
      (ls : List (Option (Level S))) (i j : ℕ) (names : List ℕ)
      → i ≢ j
      → get_or (load_entry open_shard ls (i, names)) j none ≡ get_or ls j none
  unfolding load_entry pad
  load_entry_other ls i j names h =
      get_or-set_ne (ls ++ replicate (i + 1 - length ls) none) i j _ none h
      ∙ get_or-pad ls (i + 1 - length ls) j

  abbrev pub loaded_or : ℕ → Option (List ℕ) → Option (Level S) → Option (Level S)
  loaded_or j none other = other
  loaded_or j (some names) other = some (level_of j names)

  -- In whatever order the entries come, each level has the files of its entry.
  load_entries-find :
      (entries : List LevelEntry) (ls : List (Option (Level S))) (j : ℕ)
      → AreDistinct entries
      → get_or (load_entries open_shard ls entries) j none
        ≡ loaded_or j (find j entries) (get_or ls j none)
  unfolding load_entries find
  load_entries-find [] ls j d = refl
  load_entries-find ((i, names) ∷ entries) ls j d =
      let step = load_entry open_shard ls (i, names) in
      let ih = load_entries-find entries step j d.1 in
      elim (ℕ-cases i j) [
        | inl same ↦
            let t : (j == i) ≡ true = ground arith in
            let unique = ap (λ x. find x entries) (sym same) ∙ d.0 in
            rw t (
              ih
              ∙ ap (λ o. loaded_or j o (get_or step j none)) unique
              ∙ subst (λ x. get_or step x none ≡ some (level_of x names)) same
                  (load_entry_self ls i names))
        | inr other ↦
            let t : (j == i) ≡ false = ground arith in
            rw t (ih ∙ ap (loaded_or j (find j entries)) (load_entry_other ls i j names other))
      ]

module _ {S : Type 0} (get_filename : S → ℕ) where
  -- The slots of every level are filled from the front.
  abbrev pub AllFilled : List (Level S) → Type 0
  AllFilled [] = Unit
  AllFilled (l ∷ ls) = Filled l.shard_cnt l.shards × AllFilled ls

  abbrev entries_of : ℕ → List (Level S) → List LevelEntry
  entries_of i [] = []
  entries_of i (l ∷ ls) = (i, files get_filename l.shards) ∷ entries_of (i + 1) ls

  level_entries-entries_of :
      (i : ℕ) (ls : List (Level S))
      → AllFilled ls
      → level_entries get_filename i ls ≡ some (entries_of i ls)
  unfolding level_entries Option.bind
  level_entries-entries_of i [] f = refl
  level_entries-entries_of i (l ∷ ls) f =
      rw (level_files get_filename l f.0, level_entries-entries_of (i + 1) ls f.1) refl

  find-before : (i j : ℕ) (ls : List (Level S)) → j < i → find j (entries_of i ls) ≡ none
  unfolding find
  find-before i j [] h = refl
  find-before i j (l ∷ ls) h = ground (arith, find-before (i + 1) j ls)

  entries_of-AreDistinct : (i : ℕ) (ls : List (Level S)) → AreDistinct (entries_of i ls)
  entries_of-AreDistinct i [] = tt
  entries_of-AreDistinct i (l ∷ ls) =
      (find-before (i + 1) i ls (omega arith), entries_of-AreDistinct (i + 1) ls)

  find-entries_of :
      (i j m : ℕ) (ls : List (Level S))
      → j ≡ i + m
      → find j (entries_of i ls) ≡ Option.map (λ l. files get_filename l.shards) (get_elem? ls m)
  unfolding find
  find-entries_of i j m [] h = refl
  find-entries_of i j zero (l ∷ ls) h = ground arith
  find-entries_of i j (suc m) (l ∷ ls) h = ground (arith, find-entries_of (i + 1) j m ls)

-- The level as it is after a restart: a slot for each of its shards, which `reopen` takes from file.
abbrev pub reloaded : {S : Type 0} → (S → S) → ℕ → Level S → Level S
reloaded reopen i l = record {
  level_no = i;
  shard_cnt = l.shard_cnt;
  shards = map (Option.map reopen) (present l.shards);
  pending_shard = none;
}

module _ {S : Type 0} (get_filename : S → ℕ) (open_shard : ℕ → S) where
  -- A shard that is written to its file and opened again.
  abbrev pub reopened : S → S
  reopened s = open_shard (get_filename s)

  opened-files :
      (ss : List (Option S))
      → opened open_shard (files get_filename ss) ≡ map (Option.map reopened) (present ss)
  unfolding present
  opened-files [] = refl
  opened-files (none ∷ ss) = opened-files ss
  opened-files (some s ∷ ss) = ap (λ ts. some (reopened s) ∷ ts) (opened-files ss)

  length-files : (n : ℕ) (ss : List (Option S)) → Filled n ss → length (files get_filename ss) ≡ n
  length-files zero [] f = refl
  length-files zero (none ∷ ss) f = length-files zero ss f
  length-files zero (some s ∷ ss) f = absurd f
  length-files (suc n) [] f = absurd f
  length-files (suc n) (none ∷ ss) f = absurd f
  length-files (suc n) (some s ∷ ss) f = ap suc (length-files n ss f)

  level_of-reloaded :
      (i : ℕ) (l : Level S)
      → Filled l.shard_cnt l.shards
      → level_of open_shard i (files get_filename l.shards) ≡ reloaded reopened i l
  level_of-reloaded i l f =
      ap (λ (n : ℕ). slots open_shard i n (opened open_shard (files get_filename l.shards)))
        (length-files l.shard_cnt l.shards f)
      ∙ ap (λ (ss : List (Option S)). slots open_shard i l.shard_cnt ss) (opened-files l.shards)

  reloaded_at :
      (i m : ℕ) (ls : List (Level S))
      → AllFilled get_filename ls
      → loaded_or open_shard i (Option.map (λ l. files get_filename l.shards) (get_elem? ls m)) none
        ≡ Option.map (reloaded reopened i) (get_elem? ls m)
  reloaded_at i m [] f = refl
  reloaded_at i zero (l ∷ ls) f = ap some (level_of-reloaded i l f.0)
  reloaded_at i (suc m) (l ∷ ls) f = reloaded_at i m ls f.1

  -- If the slots of every level are filled from the front, and the library visits each key of an
  -- object once, then a checkpoint is written, and a load of it restores the sequence number and the
  -- levels, each with a slot for each of its shards, in order. Each shard is what opening its file
  -- gives, whatever that is. The temporary shard files are removed.
  pub load_checkpoint-save_checkpoint :
      (items : List LevelEntry → List LevelEntry)
      → ItemsLaws items
      → (ls : List (Level S)) (flush_seq before : ℕ) (disk : Disk) → AllFilled get_filename ls
      → (disk' : Disk) × (save_checkpoint get_filename ls flush_seq disk ≡ some disk')
        × ((i : ℕ)
            → get_or (load_checkpoint open_shard items disk' [] before).0 i none
              ≡ Option.map (reloaded reopened i) (get_elem? ls i))
        × ((load_checkpoint open_shard items disk' [] before).1 ≡ flush_seq)
        × ((load_checkpoint open_shard items disk' [] before).2.temp_shard_dir ≡ [])
  unfolding save_checkpoint load_checkpoint rename_tmp write_tmp
  load_checkpoint-save_checkpoint items laws ls flush_seq before disk f =
      let es = entries_of get_filename 0 ls in
      let distinct = entries_of-AreDistinct get_filename 0 ls in
      (
        record disk {
          checkpoint = some (record { flush_seq = flush_seq; entries = es });
          checkpoint_tmp = none;
        },
        rw (level_entries-entries_of get_filename 0 ls f) refl,
        λ i.
            load_entries-find open_shard (items es) [] i (laws.items-AreDistinct es distinct)
            ∙ ap (λ o. loaded_or open_shard i o none)
                (laws.items-find es i distinct
                  ∙ find-entries_of get_filename 0 i i ls (omega arith))
            ∙ reloaded_at i i ls f,
        refl,
        refl,
      )
