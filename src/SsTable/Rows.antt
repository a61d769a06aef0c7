-- ===== src/SsTable/Rows.antt =====
-- `SSTableWriter::write`, and the parsing of a line that the reader and the compactor share.
use veri_store.Common.{ℕ, Option, none, some, List, [], ◌∷◌, ◌++◌, Bytes}
use veri_store.Lookup.{Version, Entries}
use veri_store.Text.{tab, print_uint, read_word, read_uint, read_char, skip_space}
use veri_store.Text.Lines.{print_lines}

abbrev pub put_char : ℕ
put_char = b'P'

abbrev pub del_char : ℕ
del_char = b'D'

-- The type character, and for a value a tab and the value.
abbrev pub value_field : Option Bytes → Bytes
value_field (some v) = put_char ∷ tab ∷ v
value_field none = del_char ∷ []

-- The line of one version, without its newline.
unfoldable pub version_line : Bytes → Version → Bytes
version_line key v = key ++ tab ∷ (print_uint v.timestamp ++ tab ∷ value_field v.value)

unfoldable pub version_lines : Bytes → List Version → List Bytes
version_lines key [] = []
version_lines key (v ∷ vs) = version_line key v ∷ version_lines key vs

unfoldable pub entry_lines : Entries → List Bytes
unfolding version_lines
entry_lines [] = []
entry_lines ((key, versions) ∷ entries) = version_lines key versions ++ entry_lines entries

-- The file that `write` leaves when every output succeeds.
unfoldable pub write_table : Entries → Bytes
unfolding entry_lines print_lines
write_table entries = print_lines (entry_lines entries)

-- `row >> key >> timestamp >> type`, and the rest of the row.
pub record Row : Type 0 where
  pub key : Bytes
  pub timestamp : ℕ
  pub type : ℕ
  pub rest : Bytes

infixl 5 ◌>>=◌
abbrev pub ◌>>=◌ {ℓ κ} : {A : Type ℓ} {B : Type κ} → Option A → (A → Option B) → Option B
none >>= f = none
some a >>= f = f a

unfoldable pub parse_row : Bytes → Option Row
parse_row line = do
  k ← read_word line
  t ← read_uint k.1
  c ← read_char t.1
  some (record { key = k.0; timestamp = t.0; type = c.0; rest = c.1 })

-- `std::getline(row >> std::ws, value)`
unfoldable pub row_value : Row → Bytes
row_value row = skip_space row.rest
