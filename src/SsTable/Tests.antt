-- ===== src/SsTable/Tests.antt =====
-- A small table, and the theorems about tables and their text applied to it.
use veri_store.Common.{
  ℕ, All, In, ◌≡◌, refl, none, some, [], ◌∷◌, codes, arith, bytes_lt, bytes_eq, find, insert,
}
use veri_store.Lookup.{Version, Entries, found_value, lookup_entries}
use veri_store.BloomFilter.{
  add, new_filter, set_bit, get_bit, bit_of, hash_with_seed, possibly_contains,
}
use veri_store.SsTable.Index.{find_start_offset, build_index}
use veri_store.Text.{read_word, read_char, print_uint, read_uint, lines, is_space, is_digit}
use veri_store.SsTable.Rows.{version_line, write_table, parse_row, row_value}
use veri_store.SsTable.Reader.{no_best, scan, table_get_at}
use veri_store.SsTable.RoundTrip.{Ascending, GoodVersion, GoodTable}
use veri_store.SsTable.Compactor.{sort_versions, unique_versions}
use veri_store.SsTable.Merge.{Has, cleaned-Ascending}
use veri_store.SsTable.Scan.{scan-write_table}
use veri_store.Text.Words.{IsWord}

abbrev old_a : Version
old_a = record { timestamp = 1; value = some (codes "x") }

abbrev new_a : Version
new_a = record { timestamp = 4; value = none }

abbrev old_b : Version
old_b = record { timestamp = 2; value = some (codes "y z") }

abbrev table : Entries
table = (codes "a", old_a ∷ new_a ∷ []) ∷ (codes "b", old_b ∷ []) ∷ []

a-IsWord : IsWord (codes "a")
unfolding is_space
a-IsWord = ((λ e. cc), (refl, tt))

b-IsWord : IsWord (codes "b")
unfolding is_space
b-IsWord = ((λ e. cc), (refl, tt))

old_a-GoodVersion : GoodVersion old_a
unfolding is_space
old_a-GoodVersion = record { fits = omega arith; text = (((λ e. omega arith), tt), refl) }

new_a-GoodVersion : GoodVersion new_a
new_a-GoodVersion = record { fits = omega arith; text = tt }

old_b-GoodVersion : GoodVersion old_b
unfolding is_space
old_b-GoodVersion = record {
  fits = omega arith;
  text = (((λ e. omega arith), ((λ e. omega arith), ((λ e. omega arith), tt))), refl);
}

table-GoodTable : GoodTable table
unfolding bytes_lt
table-GoodTable = record {
  entries = (
    record {
      word = a-IsWord;
      filled = λ e. cc;
      good = (old_a-GoodVersion, (new_a-GoodVersion, tt));
      ascending = ((omega arith, tt), (tt, tt));
    },
    (
      record {
        word = b-IsWord;
        filled = λ e. cc;
        good = (old_b-GoodVersion, tt);
        ascending = (tt, tt);
      },
      tt,
    ),
  );
  sorted = ((refl, tt), (tt, tt));
}

table_file : table_get_at (some (write_table table)) (codes "b") 3 ≡ found_value (codes "y z")
unfolding table_get_at possibly_contains lines write_table version_line print_uint read_word
    read_uint read_char parse_row row_value is_space is_digit add new_filter set_bit get_bit bit_of
    hash_with_seed find_start_offset build_index find insert bytes_lt bytes_eq
table_file = refl

scan-write_table_example :
    (scan (codes "a") 3 (lines (write_table table)) no_best).result
    ≡ lookup_entries table (codes "a") 3
scan-write_table_example = scan-write_table table (codes "a") 3 table-GoodTable

cleaned-Ascending_example :
    Ascending (unique_versions (sort_versions (new_a ∷ old_a ∷ new_a ∷ [])))
    × All
        (λ v. In v (new_a ∷ old_a ∷ new_a ∷ []))
        (unique_versions (sort_versions (new_a ∷ old_a ∷ new_a ∷ [])))
    × ((t : ℕ)
        → Has t (new_a ∷ old_a ∷ new_a ∷ [])
        → Has t (unique_versions (sort_versions (new_a ∷ old_a ∷ new_a ∷ []))))
cleaned-Ascending_example = cleaned-Ascending (new_a ∷ old_a ∷ new_a ∷ [])
