-- ===== src/SsTable/Compactor.antt =====
-- `Compactor`: the merge of several tables into one.
use veri_store.Common.{Option, none, some, List, [], ◌∷◌, Bytes, ltb, ◌==◌, if◌then◌else◌}
use veri_store.Lookup.{Version, Entries}
use veri_store.MemTable.{push_version}
use veri_store.Text.{lines}
use veri_store.SsTable.Rows.{Row, parse_row, row_value, put_char, del_char, write_table, ◌>>=◌}

-- `merged[key].push_back(…)`; an unknown type character is an error.
unfoldable pub merge_row : Row → Entries → Option Entries
unfolding push_version
merge_row row merged =
    if row.type == put_char
    then some (
        push_version row.key (record { timestamp = row.timestamp; value = some (row_value row) })
          merged)
    else if row.type == del_char
    then some (push_version row.key (record { timestamp = row.timestamp; value = none }) merged)
    else none

-- The loop of `load_sstable`: an empty line is passed over, one that does not parse is an error.
unfoldable pub load_lines : List Bytes → Entries → Option Entries
unfolding merge_row
load_lines [] merged = some merged
load_lines ([] ∷ ls) merged = load_lines ls merged
load_lines ((c ∷ l) ∷ ls) merged = elim (parse_row (c ∷ l)) [
  | none ↦ none
  | some row ↦ merge_row row merged >>= load_lines ls
]

unfoldable pub load_sstable : Option Bytes → Entries → Option Entries
unfolding load_lines
load_sstable none merged = none
load_sstable (some file) merged = load_lines (lines file) merged

unfoldable pub load_all : List (Option Bytes) → Entries → Option Entries
unfolding load_sstable
load_all [] merged = some merged
load_all (f ∷ fs) merged = load_sstable f merged >>= load_all fs

-- `std::sort` by timestamp. The order of equal timestamps is the sort's to choose; this one keeps it.
unfoldable pub insert_version : Version → List Version → List Version
insert_version v [] = v ∷ []
insert_version v (u ∷ us) =
    let rest = insert_version v us in if ltb u.timestamp v.timestamp then u ∷ rest else v ∷ u ∷ us

unfoldable pub sort_versions : List Version → List Version
unfolding insert_version
sort_versions [] = []
sort_versions (v ∷ vs) = insert_version v (sort_versions vs)

-- `std::unique` by timestamp: of equal neighbours the first stays.
unfoldable pub unique_from : Version → List Version → List Version
unique_from v [] = v ∷ []
unique_from v (u ∷ us) =
    let same = unique_from v us in
    let next = unique_from u us in if v.timestamp == u.timestamp then same else v ∷ next

unfoldable pub unique_versions : List Version → List Version
unfolding unique_from
unique_versions [] = []
unique_versions (v ∷ vs) = unique_from v vs

unfoldable pub clean_entries : Entries → Entries
unfolding sort_versions unique_versions
clean_entries [] = []
clean_entries ((key, versions) ∷ entries) =
    (key, unique_versions (sort_versions versions)) ∷ clean_entries entries

-- `compact`: the bytes of the output file, or failure before it is written.
unfoldable pub compact : List (Option Bytes) → Option Bytes
unfolding load_all clean_entries
compact [] = none
compact (f ∷ fs) = load_all (f ∷ fs) [] >>= λ merged. some (write_table (clean_entries merged))
