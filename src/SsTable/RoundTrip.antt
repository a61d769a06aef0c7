-- ===== src/SsTable/RoundTrip.antt =====
-- The lines of a table are parsed back.
use veri_store.Common.{
  ℕ, ◌<◌, ◌≡◌, ◌≢◌, refl, Option, none, some, List, [], ◌∷◌, ◌++◌, Bytes, All, All-append, All-map,
  arith, IsSorted,
}
use veri_store.Lookup.{Version, Entries}
use veri_store.Text.{
  tab, print_uint, read_word, read_char, skip_space, is_space, is_digit, u64_mod, lines,
}
use veri_store.Text.Decimal.{read_uint-print, print_uint-AllDigits, AllDigits}
use veri_store.Text.Words.{
  IsWord, NoLeadingSpace, OneLine, skip_space-id, read_word-append, newline-space,
}
use veri_store.Text.Lines.{lines-print_lines}
use veri_store.SsTable.Rows.{
  put_char, del_char, value_field, version_line, version_lines, entry_lines, write_table, Row,
  parse_row, row_value,
}

-- A value that the text format keeps: one line, not beginning with a space.
abbrev pub GoodValue : Option Bytes → Type 0
GoodValue none = Unit
GoodValue (some v) = OneLine v × NoLeadingSpace v

pub record GoodVersion (v : Version) : Type 0 where
  pub fits : v.timestamp < u64_mod
  pub text : GoodValue v.value

-- Timestamps that grow from each version to the next.
abbrev pub Ascending : List Version → Type 0
Ascending [] = Unit
Ascending (v ∷ vs) = All (λ u. v.timestamp < u.timestamp) vs × Ascending vs

pub record GoodEntry (key : Bytes) (versions : List Version) : Type 0 where
  pub word : IsWord key
  pub filled : versions ≢ []
  pub good : All GoodVersion versions
  pub ascending : Ascending versions

-- A table that the text format keeps: keys are words in strictly ascending order.
abbrev pub AllGood : Entries → Type 0
AllGood [] = Unit
AllGood ((key, versions) ∷ es) = GoodEntry key versions × AllGood es

pub record GoodTable (es : Entries) : Type 0 where
  pub entries : AllGood es
  pub sorted : IsSorted es

abbrev pub row_type : Option Bytes → ℕ
row_type (some v) = put_char
row_type none = del_char

abbrev pub row_rest : Option Bytes → Bytes
row_rest (some v) = tab ∷ v
row_rest none = []

abbrev pub row_of : Bytes → Version → Row
row_of key v = record {
  key = key;
  timestamp = v.timestamp;
  type = row_type v.value;
  rest = row_rest v.value;
}

pub read_word-version_line :
    (key : Bytes) (v : Version)
    → IsWord key
    → read_word (version_line key v)
      ≡ some (key, tab ∷ (print_uint v.timestamp ++ tab ∷ value_field v.value))
unfolding version_line
read_word-version_line key v w = read_word-append key tab _ w (unfold is_space in refl)

read_char-value_field :
    (o : Option Bytes) → read_char (tab ∷ value_field o) ≡ some (row_type o, row_rest o)
unfolding read_char is_space
read_char-value_field none = refl
read_char-value_field (some v) = refl

-- A written line is parsed back to its key, timestamp and type, if the key is a word and the
-- timestamp fits in 64 bits.
pub parse_row-version_line :
    (key : Bytes) (v : Version)
    → IsWord key
    → v.timestamp < u64_mod
    → parse_row (version_line key v) ≡ some (row_of key v)
unfolding parse_row
parse_row-version_line key v w lt = rw (read_word-version_line key v w) (
    rw (read_uint-print v.timestamp tab (value_field v.value) lt (unfold is_digit in refl))
      (rw (read_char-value_field v.value) refl))

-- The value of a written line, if it does not begin with a space.
pub row_value-row_of :
    (key : Bytes) (t : ℕ) (v : Bytes)
    → NoLeadingSpace v
    → row_value (row_of key (record { timestamp = t; value = some v })) ≡ v
unfolding row_value skip_space is_space
row_value-row_of key t v h = skip_space-id v h

digits-OneLine : (ds : Bytes) → AllDigits ds → OneLine ds
unfolding is_digit
digits-OneLine ds a = All-map _ _ ds (λ c h. ground arith) a

value_field-OneLine : (o : Option Bytes) → GoodValue o → OneLine (value_field o)
value_field-OneLine none g = (omega arith, tt)
value_field-OneLine (some v) (one, _) = (omega arith, (omega arith, one))

version_line-OneLine :
    (key : Bytes) (v : Version) → IsWord key → GoodVersion v → OneLine (version_line key v)
unfolding version_line
version_line-OneLine key v w g = All-append _ key _ (All-map _ _ key newline-space w.1) (
  omega arith,
  All-append _ (print_uint v.timestamp) _
      (digits-OneLine (print_uint v.timestamp) (print_uint-AllDigits v.timestamp))
      (omega arith, value_field-OneLine v.value g.text),
)

version_lines-OneLine :
    (key : Bytes) (vs : List Version)
    → IsWord key
    → All GoodVersion vs
    → All OneLine (version_lines key vs)
unfolding version_lines
version_lines-OneLine key [] w g = tt
version_lines-OneLine key (v ∷ vs) w (gv, g) =
    (version_line-OneLine key v w gv, version_lines-OneLine key vs w g)

entry_lines-OneLine : (es : Entries) → AllGood es → All OneLine (entry_lines es)
unfolding entry_lines
entry_lines-OneLine [] g = tt
entry_lines-OneLine ((k, vs) ∷ es) (g, gs) =
    All-append _ (version_lines k vs) (entry_lines es) (version_lines-OneLine k vs g.word g.good)
      (entry_lines-OneLine es gs)

-- The lines of the written file of entries that the text format keeps are, read back, the lines
-- written.
pub lines-write_table : (es : Entries) → AllGood es → lines (write_table es) ≡ entry_lines es
unfolding write_table
lines-write_table es g = lines-print_lines (entry_lines es) (entry_lines-OneLine es g)
