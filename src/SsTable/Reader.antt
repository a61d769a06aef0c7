-- ===== src/SsTable/Reader.antt =====
-- `SSTableReader`: the Bloom filter and the index of a file, and the lookup in it.
use veri_store.Common.{
  ℕ, Bool, true, false, not, ◌||◌, Option, none, some, List, [], ◌∷◌, Bytes, drop, bytes_lt, leb,
  ltb, ◌==◌, if◌then◌else◌, Dict,
}
use veri_store.Lookup.{LookupResult, not_found, found_value, tombstone}
use veri_store.BloomFilter.{BloomFilter, new_filter, add, possibly_contains}
use veri_store.Text.{lines, read_word}
use veri_store.SsTable.Rows.{Row, parse_row, row_value, put_char, del_char}
use veri_store.SsTable.Index.{build_index, find_start_offset}

abbrev add_word : Option (Bytes × Bytes) → BloomFilter → BloomFilter
add_word none f = f
add_word (some k) f = add k.0 f

-- The loop of `build_bloom_filter`; an empty line has no word either.
unfoldable pub build_bloom : List Bytes → BloomFilter → BloomFilter
build_bloom [] f = f
build_bloom (l ∷ ls) f = build_bloom ls (add_word (read_word l) f)

-- A reader of a file that opens; of another, `none`, and every lookup misses.
pub record SsTableReader : Type 0 where
  pub file : Bytes
  pub index : Dict ℕ
  pub bloom_filter : BloomFilter

unfoldable pub open_reader : ℕ → ℕ → ℕ → Option Bytes → Option SsTableReader
unfolding build_bloom
open_reader index_stride bloom_bits bloom_hashes none = none
open_reader index_stride bloom_bits bloom_hashes (some file) = some (record {
  file = file;
  index = build_index index_stride file;
  bloom_filter = build_bloom (lines file) (new_filter bloom_bits bloom_hashes);
})

-- `best`, `best_timestamp` and `found_visible_version`.
pub record Best : Type 0 where
  pub result : LookupResult
  pub timestamp : ℕ
  pub found : Bool

abbrev pub no_best : Best
no_best = record { result = not_found; timestamp = 0; found = false }

-- A visible version of the key. Another type character than P and D leaves the result.
unfoldable pub take_version : Row → Best → Best
take_version row best =
    if not best.found || leb best.timestamp row.timestamp
    then record {
      result =
          if row.type == put_char
          then found_value (row_value row)
          else if row.type == del_char
          then tombstone
          else best.result;
      timestamp = row.timestamp;
      found = true;
    }
    else best

unfoldable pub visit_row : ℕ → Row → Best → Best
unfolding take_version
visit_row read_timestamp row best =
    if ltb read_timestamp row.timestamp then best else take_version row best

-- The loop over the lines: a line that does not parse is passed over, a greater key ends it.
unfoldable pub scan : Bytes → ℕ → List Bytes → Best → Best
unfolding visit_row
scan key read_timestamp [] best = best
scan key read_timestamp (l ∷ ls) best = elim (parse_row l) [
  | none ↦ scan key read_timestamp ls best
  | some row ↦
      let skipped = scan key read_timestamp ls best in
      let visited = scan key read_timestamp ls (visit_row read_timestamp row best) in
      if bytes_lt key row.key then best else if bytes_lt row.key key then skipped else visited
]

abbrev start_of : Option ℕ → ℕ
start_of none = 0
start_of (some offset) = offset

unfoldable pub reader_get_at : SsTableReader → Bytes → ℕ → LookupResult
unfolding scan
reader_get_at r key read_timestamp =
    if not (possibly_contains key r.bloom_filter)
    then not_found
    else (scan key read_timestamp (lines (drop (start_of (find_start_offset r.index key)) r.file))
        no_best).result

abbrev get_or_miss : Bytes → ℕ → Option SsTableReader → LookupResult
get_or_miss key read_timestamp none = not_found
get_or_miss key read_timestamp (some r) = reader_get_at r key read_timestamp

-- `SSTableReader(path).get_at(key, timestamp)` with the constructor's default sizes.
unfoldable pub table_get_at : Option Bytes → Bytes → ℕ → LookupResult
unfolding open_reader reader_get_at
table_get_at file key read_timestamp = get_or_miss key read_timestamp (open_reader 4 8192 4 file)
