-- ===== src/KvStore/Snapshot.antt =====
-- `save_to_file`, `load_from_file`, `save_snapshot` and `load_snapshot`. A file is written through a
-- stream with a buffer, so a failure is seen only where a check of the stream comes after it.
pub mod RoundTrip
pub mod Words
use veri_store.Common.{
  ℕ, zero, suc, ◌+◌, max, Bool, true, false, not, ◌||◌, ◌&&◌, Option, none, some, List, [], ◌∷◌,
  ◌++◌, Bytes, codes, length, bytes_eq, ◌==◌, if◌then◌else◌, Dict, find, insert, erase,
}
use veri_store.Text.{tab, newline, lines, read_word}
use veri_store.Text.Lines.{print_lines}
use veri_store.Text.Numbers.{stoull}
use veri_store.Lookup.{Entries}
use veri_store.MemTable.{put, del, clear, snapshot_entries}
use veri_store.SsTable.Rows.{entry_lines}
use veri_store.Files.{Files, Output, arrived, went_well, write_to, rename}
use veri_store.KvStore.{KvStore}

infixl 5 ◌>>=◌
abbrev ◌>>=◌ {ℓ κ} : {A : Type ℓ} {B : Type κ} → Option A → (A → Option B) → Option B
none >>= f = none
some a >>= f = f a

-- How the writing of a file goes, and whether a check of the stream sees it if it fails.
pub record Saving : Type 0 where
  pub output : Output
  pub noticed : Bool

-- The lines of the file are those of a table: key, timestamp, `P` and value, or `D`.
unfoldable pub save_to_file : Saving → Bytes → KvStore → Files → Files × Bool
unfolding write_to print_lines entry_lines snapshot_entries
save_to_file a path s files =
    let written =
      write_to a.output path (print_lines (entry_lines (snapshot_entries s.memtable))) files in
    (written.0, a.output.opens && (went_well a.output.fails_after || not a.noticed))

abbrev cons_first : ℕ → Option (Bytes × Bytes) → Option (Bytes × Bytes)
cons_first c none = none
cons_first c (some (before, after)) = some (c ∷ before, after)

-- The texts before and behind the first tab, if there is one.
unfoldable pub split_tab : Bytes → Option (Bytes × Bytes)
split_tab [] = none
split_tab (c ∷ bytes) =
    let rest = split_tab bytes in if c == tab then some ([], bytes) else cons_first c rest

-- What stands behind the second tab: the type, and the text behind a third tab.
abbrev pub type_field : Bytes → Option (Bytes × Bytes) → Bytes × Option Bytes
type_field rest none = (rest, none)
type_field rest (some (type, value)) = (type, some value)

-- A put needs a value; a delete leaves what may stand behind its type.
abbrev pub change_of : Bytes × Option Bytes → Option (Option Bytes)
change_of (type, none) = if bytes_eq type (codes "D") then some none else none
change_of (type, some value) =
    if bytes_eq type (codes "P")
    then some (some value)
    else if bytes_eq type (codes "D")
    then some none
    else none

-- What a line says.
pub record Change : Type 0 where
  pub key : Bytes
  pub timestamp : ℕ
  pub value : Option Bytes

unfoldable pub parse_change : Bytes → Option Change
unfolding split_tab stoull
parse_change line = do
  k ← split_tab line
  t ← split_tab k.1
  timestamp ← stoull t.0
  value ← change_of (type_field t.1 (split_tab t.1))
  some (record { key = k.0; timestamp = timestamp; value = value })

module _ (version_bytes : ℕ) where
  -- A change goes into the MemTable and the map, and not into the log.
  unfoldable pub apply_change : Change → KvStore → KvStore
  unfolding put del
  apply_change c s = elim c.value [
    | some v ↦ record s {
      memtable = put version_bytes c.key c.timestamp v s.memtable;
      map = insert c.key v s.map;
    }
    | none ↦ record s {
      memtable = del version_bytes c.key c.timestamp s.memtable;
      map = erase c.key s.map;
    }
  ]

  abbrev pub load_change : Change → KvStore → KvStore
  load_change c s = let applied = apply_change c s in record applied { seq = max s.seq c.timestamp }

  -- The loop over the lines; a bad line ends it, and what it has loaded stays.
  unfoldable pub load_lines : List Bytes → KvStore → KvStore × Bool
  unfolding parse_change apply_change
  load_lines [] s = (s, true)
  load_lines ([] ∷ ls) s = load_lines ls s
  load_lines ((x ∷ l) ∷ ls) s = elim (parse_change (x ∷ l)) [
    | none ↦ (s, false)
    | some c ↦ load_lines ls (load_change c s)
  ]

  abbrev load_content : Option Bytes → KvStore → KvStore × Bool
  load_content none s = (s, false)
  load_content (some text) s =
      load_lines (lines text) (record s { map = []; memtable = clear s.memtable })

  unfoldable pub load_from_file : Bytes → Files → KvStore → KvStore × Bool
  unfolding load_lines clear
  load_from_file path files s = load_content (find path files) s

abbrev pub map_lines : Dict Bytes → List Bytes
map_lines [] = []
map_lines ((k, v) ∷ m) = (k ++ tab ∷ v) ∷ map_lines m

-- `path + ".tmp"`
abbrev pub snapshot_temp : Bytes → Bytes
snapshot_temp path = path ++ codes ".tmp"

-- Nothing checks the stream behind its opening. The order in which the source's hash map is walked is
-- not told.
unfoldable pub save_snapshot : Output → Bool → Bytes → KvStore → Files → Files × Bool
unfolding write_to rename print_lines
save_snapshot o renames path s files =
    let written = write_to o (snapshot_temp path) (print_lines (map_lines s.map)) files in
    if not o.opens
    then (files, false)
    else if not renames
    then (written.0, false)
    else (rename (snapshot_temp path) path written.0, true)

-- `while (in >> k >> v)`. Each round takes two bytes or more, so the length of the text is enough fuel.
unfoldable pub load_words : ℕ → Bytes → Dict Bytes → Dict Bytes
unfolding read_word
load_words zero text m = m
load_words (suc fuel) text m = elim (read_word text) [
  | none ↦ m
  | some (k, rest) ↦ elim (read_word rest) [
    | none ↦ m
    | some (v, rest) ↦ load_words fuel rest (insert k v m)
  ]
]

abbrev load_map : Option Bytes → KvStore → KvStore × Bool
load_map none s = (s, false)
load_map (some text) s = (record s { map = load_words (length text) text [] }, true)

unfoldable pub load_snapshot : Bytes → Files → KvStore → KvStore × Bool
unfolding load_words
load_snapshot path files s = load_map (find path files) s
