-- ===== src/Checkpoint/Names.antt =====
-- What save_checkpoint (Checkpoint.h) writes of a level, and what append_shard makes of it.
use mathlib.Core.Option
use dynamic_extension.Base.{
  ℕ, zero, suc, ◌+◌, ◌≤◌, ◌<◌, ◌≡◌, refl, sym, ap, ◌∙◌, false, Option, none, some, List, [], ◌∷◌,
  ◌++◌, map, arith, leb, length, set, get_or, replicate, length-append, append_assoc,
}
use dynamic_extension.Level.{Level, make_level, get_shard, get_shard_count}
use dynamic_extension.Level.Slots.{Filled}
use dynamic_extension.Checkpoint.{file_names, append_shard, append_shards}

slot_at :
    {S : Type 0} (before : List (Option S)) (s : S) (ss : List (Option S))
    → get_or (before ++ some s ∷ ss) (length before) none ≡ some s
slot_at [] s ss = refl
slot_at (b ∷ before) s ss = slot_at before s ss

module _ {S : Type 0} (get_filename : S → ℕ) where
  -- The files of the shards that are there.
  abbrev pub files : List (Option S) → List ℕ
  files [] = []
  files (none ∷ ss) = files ss
  files (some s ∷ ss) = get_filename s ∷ files ss

  files-none : (ss : List (Option S)) → Filled 0 ss → files ss ≡ []
  files-none [] h = refl
  files-none (none ∷ ss) h = files-none ss h
  files-none (some s ∷ ss) h = absurd h

  shard_behind :
      (l : Level S) (before : List (Option S)) (s : S) (ss : List (Option S)) (k : ℕ)
      → k ≡ length before
      → l.shards ≡ before ++ some s ∷ ss
      → k < l.shard_cnt
      → get_shard l k ≡ some s
  unfolding get_shard
  shard_behind l before s ss k i e h =
      let t : leb l.shard_cnt k ≡ false = ground arith in
      rw t (
        ap (λ t. get_or t k none) e
        ∙ ap (λ j. get_or (before ++ some s ∷ ss) j none) i
        ∙ slot_at before s ss)

  file_names-files :
      (l : Level S) (before ss : List (Option S)) (n k : ℕ)
      → k ≡ length before
      → l.shards ≡ before ++ ss
      → k + n ≤ l.shard_cnt
      → Filled n ss
      → file_names get_filename l n k ≡ some (files ss)
  unfolding file_names Option.bind
  file_names-files l before ss zero k i e h f = ap some (sym (files-none ss f))
  file_names-files l before [] (suc n) k i e h f = absurd f
  file_names-files l before (none ∷ ss) (suc n) k i e h f = absurd f
  file_names-files l before (some s ∷ ss) (suc n) k i e h f =
      let here = shard_behind l before s ss k i e (omega arith) in
      let rest =
        file_names-files l (before ++ some s ∷ []) ss n (k + 1)
          (omega (arith, length-append before (some s ∷ [])))
          (e ∙ sym (append_assoc before (some s ∷ []) ss)) (omega arith) f in
      rw (here, rest) refl

  -- The files of a level whose slots are filled from the front.
  pub level_files :
      (l : Level S)
      → Filled l.shard_cnt l.shards
      → file_names get_filename l (get_shard_count l) 0 ≡ some (files l.shards)
  unfolding get_shard_count
  level_files l f = file_names-files l [] l.shards l.shard_cnt 0 refl refl (omega arith) f

module _ {S : Type 0} (open_shard : ℕ → S) where
  abbrev pub opened : List ℕ → List (Option S)
  opened = map (λ name. some (open_shard name))

  set_behind :
      (before : List (Option S)) (s : Option S) (rest : List (Option S))
      → set (before ++ none ∷ rest) (length before) s ≡ before ++ s ∷ rest
  set_behind [] s rest = refl
  set_behind (b ∷ before) s rest = ap (λ t. b ∷ t) (set_behind before s rest)

  abbrev pub slots : (level_no cnt : ℕ) → List (Option S) → Level S
  slots level_no cnt ss = record {
    level_no = level_no;
    shard_cnt = cnt;
    shards = ss;
    pending_shard = none;
  }

  append_shards-opened :
      (level_no cnt : ℕ) (before : List (Option S)) (names : List ℕ)
      → cnt ≡ length before
      → append_shards open_shard
          (slots level_no cnt (before ++ replicate (length names) none))
          names
        ≡ slots level_no (cnt + length names) (before ++ opened names)
  unfolding append_shards append_shard
  append_shards-opened level_no cnt before [] e =
      ap (λ (n : ℕ). slots level_no n (before ++ [])) (omega arith)
  append_shards-opened level_no cnt before (name ∷ names) e =
      let s = some (open_shard name) in
      let rest = replicate (length names) none in
      let placed : set (before ++ none ∷ rest) cnt s ≡ (before ++ s ∷ []) ++ rest =
        ap (λ (n : ℕ). set (before ++ none ∷ rest) n s) e
        ∙ set_behind before s rest
        ∙ sym (append_assoc before (s ∷ []) rest) in
      ap (λ (ss : List (Option S)). append_shards open_shard (slots level_no (cnt + 1) ss) names)
        placed
      ∙ append_shards-opened level_no (cnt + 1) (before ++ s ∷ []) names
          (omega (arith, length-append before (s ∷ [])))
      ∙ ap (λ (n : ℕ). slots level_no n ((before ++ s ∷ []) ++ opened names)) (omega arith)
      ∙ ap (λ (ss : List (Option S)). slots level_no (cnt + length (name ∷ names)) ss)
          (append_assoc before (s ∷ []) (opened names))

  -- A level that is made for the files and takes them all has a slot for each, and no other.
  pub loaded_level :
      (level_no : ℕ) (names : List ℕ)
      → append_shards open_shard (make_level level_no (length names)) names
        ≡ slots level_no (length names) (opened names)
  unfolding make_level
  loaded_level level_no names =
      append_shards-opened level_no 0 [] names refl
      ∙ ap (λ (n : ℕ). slots level_no n (opened names)) (omega arith)
