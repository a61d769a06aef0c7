-- ===== src/Files.antt =====
-- The files that the storage code names, by path, and the streams and calls that change them. What
-- the system answers is an argument; a file that is there can be read.
use veri_store.Common.{
  ℕ, Bool, true, false, not, Option, none, some, [], ◌++◌, Bytes, take, if◌then◌else◌, Dict, find,
  insert, erase,
}

abbrev pub Files : Type 0
Files = Dict Bytes

-- How an output stream goes: whether it opens, and behind how many bytes it fails, if it does.
pub record Output : Type 0 where
  pub opens : Bool
  pub fails_after : Option ℕ

abbrev pub all_written : Output
all_written = record { opens = true; fails_after = none }

-- What of a text arrives in the file.
abbrev pub arrived : Option ℕ → Bytes → Bytes
arrived none text = text
arrived (some n) text = take n text

abbrev pub went_well : Option ℕ → Bool
went_well none = true
went_well (some n) = false

abbrev pub content : Option Bytes → Bytes
content none = []
content (some bytes) = bytes

-- A stream with `std::ios::app`: it makes the file if there is none, and writes at the end.
unfoldable pub append_to : Output → Bytes → Bytes → Files → Files × Bool
append_to o path text files = if not o.opens then (files, false) else (
  insert path (content (find path files) ++ arrived o.fails_after text) files,
  went_well o.fails_after,
)

-- A stream with `std::ios::trunc`, which is also that of `std::ios::out` alone.
unfoldable pub write_to : Output → Bytes → Bytes → Files → Files × Bool
write_to o path text files =
    if not o.opens
    then (files, false)
    else (insert path (arrived o.fails_after text) files, went_well o.fails_after)

-- `std::rename` of a file that is there.
unfoldable pub rename : Bytes → Bytes → Files → Files
rename from to files = insert to (content (find from files)) (erase from files)
