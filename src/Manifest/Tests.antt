-- ===== src/Manifest/Tests.antt =====
-- A manifest with two tables, and the theorems about it applied there.
use veri_store.Common.{◌≡◌, true, false, List, [], ◌∷◌, Bytes, codes, if◌then◌else◌, All, arith}
use veri_store.Text.Lines.{print_lines}
use veri_store.Files.{Files, all_written}
use veri_store.Manifest.{Manifest, load_sstables, Replacing, replace_sstables}
use veri_store.Manifest.Load.{IsPath, replace_sstables-atomic}

abbrev manifest : Manifest
manifest = record { path = codes "M" }

abbrev two : List Bytes
two = codes "a.sst" ∷ codes "b.sst" ∷ []

abbrev disk : Files
disk = (codes "M", print_lines two) ∷ []

two-All : All IsPath two
two-All = (
  (
    (λ e. cc),
    (
      (λ e. omega arith),
      ((λ e. omega arith), ((λ e. omega arith), ((λ e. omega arith), ((λ e. omega arith), tt)))),
    ),
  ),
  (
    (
      (λ e. cc),
      (
        (λ e. omega arith),
        ((λ e. omega arith), ((λ e. omega arith), ((λ e. omega arith), ((λ e. omega arith), tt)))),
      ),
    ),
    tt,
  ),
)

abbrev no_rename : Replacing
no_rename = record { output = all_written; renames = false; removes = true }

replace_sstables-atomic_example :
    load_sstables manifest (replace_sstables no_rename two manifest disk).0 ≡ (
      if (replace_sstables no_rename two manifest disk).1 then two else load_sstables manifest disk)
replace_sstables-atomic_example = replace_sstables-atomic no_rename two manifest disk two-All
