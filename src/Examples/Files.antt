-- ===== src/Examples/Files.antt =====
-- Shards in files at concrete inputs, with two records to a page.
use dynamic_extension.Base.{
  ℕ, ◌≡◌, refl, List, [], ◌∷◌, some, none, true, false, Bool, get_elem?, min, arith,
}
use dynamic_extension.Base.Words.{sub64}
use dynamic_extension.Record.{Record, Wrapped, rec_lt, is_tombstone}
use dynamic_extension.Record.Net.{SameNet, sum_by, tombstones}
use dynamic_extension.Merge.Array.{IsOrdered→IsSorted}
use dynamic_extension.External.{Stored, of_view, of_shards}
use dynamic_extension.External.Pages.{joined}
use dynamic_extension.External.Loop.{IsStored}
use dynamic_extension.External.Built.{
  AllStored, shard_records, of_shards-IsStored, of_view-IsStored,
}
use dynamic_extension.KeySearch.Split.{Splits}
use dynamic_extension.Isam.Nodes.{Child}
use dynamic_extension.RangeScan
use dynamic_extension.External.Reads.{PageIterator, get_current, in_order}
use dynamic_extension.External.Nodes.{get_iterator, build_internal_levels, point_lookup}
use dynamic_extension.External.Search.{get_iterator-Splits}
use dynamic_extension.External.Lookup.{verdict, point_lookup-first}
use dynamic_extension.Examples.Levels.{entry}
use dynamic_extension.Examples.Sort.{sort, sort-Perm, sort-IsOrdered}

-- A shard of three records on two pages, and one that erases a record of it.
abbrev three_records : Stored
three_records = record {
  pages = (entry 4 2 ∷ entry 4 3 ∷ []) ∷ (entry 4 9 ∷ []) ∷ [];
  last_data_page = 2;
  reccnt = 3;
  tombstone_cnt = 0;
}

abbrev one_tombstone : Stored
one_tombstone = record {
  pages = (entry 5 3 ∷ []) ∷ [];
  last_data_page = 1;
  reccnt = 1;
  tombstone_cnt = 1;
}

three_records-IsStored : IsStored 2 three_records
unfolding joined rec_lt is_tombstone sum_by
three_records-IsStored = record {
  paged = (refl, (omega arith, omega arith));
  sorted = ((refl, (refl, tt)), ((refl, tt), (tt, tt)));
  counted = refl;
  tombs = refl;
  last = refl;
}

one_tombstone-IsStored : IsStored 2 one_tombstone
unfolding joined rec_lt is_tombstone sum_by
one_tombstone-IsStored = record {
  paged = (omega arith, omega arith);
  sorted = (tt, tt);
  counted = refl;
  tombs = refl;
  last = refl;
}

both-AllStored : AllStored 2 (three_records ∷ one_tombstone ∷ [])
both-AllStored = (three_records-IsStored, omega arith, (one_tombstone-IsStored, omega arith, tt))

of_shards-IsStored_example :
    (t : Stored) × (of_shards 2 9 (three_records ∷ one_tombstone ∷ []) ≡ some t)
    × IsStored 2 t
    × SameNet (shard_records (three_records ∷ one_tombstone ∷ [])) (joined t.pages)
unfolding shard_records joined
of_shards-IsStored_example =
    of_shards-IsStored 2 9 (three_records ∷ one_tombstone ∷ []) (omega arith) both-AllStored
      (omega arith) (omega arith)

-- A buffer of three records out of order.
abbrev shown : List Wrapped
shown = entry 4 9 ∷ entry 5 3 ∷ entry 4 2 ∷ []

of_view-IsStored_example :
    (t : Stored) × (cancelled : ℕ) × (of_view 2 9 sort shown 5
      ≡ some (record t { tombstone_cnt = sub64 5 cancelled }))
    × IsStored 2 t
    × (t.tombstone_cnt ≡ sub64 (tombstones shown) cancelled)
    × SameNet shown (joined t.pages)
of_view-IsStored_example =
    of_view-IsStored sort sort-Perm (λ ws. IsOrdered→IsSorted (sort ws) (sort-IsOrdered ws)) 2 9
      shown 5 (omega arith) (omega arith) (omega arith)

get_iterator-Splits_example :
    (root : Child) × (build_internal_levels 2 2 three_records ≡ some root)
    × ((lower : ℕ)
        → (it : PageIterator) × (get_iterator 2 three_records root lower ≡ some it)
          × ((shown : PageIterator) × (get_current 2 it
                ≡ some (RangeScan.get_current (in_order it), shown)))
          × (it.pages ≡ three_records.pages)
          × (it.end ≡ 3)
          × Splits (joined three_records.pages) lower (min it.idx 3))
get_iterator-Splits_example =
    get_iterator-Splits 2 2 three_records (omega arith) (omega arith) three_records-IsStored
      (omega arith)

point_lookup-first_example :
    (root : Child) × (build_internal_levels 2 2 three_records ≡ some root)
    × ((whole : Bool) (rec : Record)
        → (i : ℕ) × Splits (joined three_records.pages) rec.key i
          × (point_lookup 2 three_records root whole rec false
              ≡ verdict whole rec (get_elem? (joined three_records.pages) i))
          × (point_lookup 2 three_records root whole rec true ≡ none))
point_lookup-first_example =
    point_lookup-first 2 2 three_records (omega arith) (omega arith) three_records-IsStored
      (omega arith)
