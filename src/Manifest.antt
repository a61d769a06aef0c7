-- ===== src/Manifest.antt =====
-- include/kv/manifest.h and src/manifest.cpp: the list of the tables, one path on a line, that is
-- extended by appending a line and replaced through a temporary file.
pub mod Load
mod Tests
use veri_store.Common.{
  ℕ, Bool, true, false, not, Option, none, some, List, [], ◌∷◌, ◌++◌, Bytes, codes, bytes_eq,
  if◌then◌else◌, find, erase,
}
use veri_store.Text.{lines, newline}
use veri_store.Text.Lines.{print_lines}
use veri_store.Files.{Files, Output, content, append_to, write_to, rename}

pub record Manifest : Type 0 where
  pub path : Bytes

abbrev pub is_nil {ℓ} : {A : Type ℓ} → List A → Bool
is_nil [] = true
is_nil (x ∷ xs) = false

-- `open`: the object, the files and the result.
unfoldable pub open_manifest : Output → Bytes → Files → Manifest × Files × Bool
unfolding append_to
open_manifest o path files =
    (record { path = path }, (append_to (record o { fails_after = none }) path [] files).0, o.opens)

-- The lines that are not empty.
unfoldable pub nonempty : List Bytes → List Bytes
nonempty [] = []
nonempty ([] ∷ ls) = nonempty ls
nonempty ((c ∷ l) ∷ ls) = (c ∷ l) ∷ nonempty ls

unfoldable pub load_sstables : Manifest → Files → List Bytes
unfolding nonempty
load_sstables m files = if is_nil m.path then [] else nonempty (lines (content (find m.path files)))

-- `std::find(…) != end`
unfoldable pub member : Bytes → List Bytes → Bool
member p [] = false
member p (q ∷ qs) = if bytes_eq q p then true else member p qs

unfoldable pub append_sstable : Output → Bytes → Manifest → Files → Files × Bool
unfolding load_sstables member append_to
append_sstable o sstable_path m files =
    if is_nil m.path
    then (files, false)
    else if member sstable_path (load_sstables m files)
    then (files, true)
    else append_to o m.path (sstable_path ++ newline ∷ []) files

-- What the system answers to the calls of `replace_sstables`.
pub record Replacing : Type 0 where
  pub output : Output
  pub renames : Bool
  pub removes : Bool

-- `path_ + ".tmp"`
unfoldable pub temp_path : Bytes → Bytes
temp_path path = path ++ codes ".tmp"

-- What follows the writing of the temporary file.
unfoldable pub finish_replace : Replacing → Manifest → Files × Bool → Files × Bool
unfolding rename temp_path
finish_replace a m (files, ok) =
    if not ok
    then (files, false)
    else if not a.renames
    then ((if a.removes then erase (temp_path m.path) files else files), false)
    else (rename (temp_path m.path) m.path files, true)

unfoldable pub replace_sstables : Replacing → List Bytes → Manifest → Files → Files × Bool
unfolding finish_replace write_to temp_path print_lines
replace_sstables a sstable_paths m files =
    if is_nil m.path
    then (files, false)
    else finish_replace a m (write_to a.output (temp_path m.path) (print_lines sstable_paths) files)
