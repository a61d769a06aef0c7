-- ===== src/SsTable/Index.antt =====
-- `SSTableIndex`: a map from some keys to the offset of the first line of the key.
use veri_store.Common.{
  ℕ, ◌+◌, ◌%◌, not, ◌||◌, Option, none, some, List, [], ◌∷◌, Bytes, length, bytes_eq, bytes_lt,
  ◌==◌, if◌then◌else◌, Dict, find, insert,
}
use veri_store.Text.{lines, read_word}

-- The lines of a file, each with the position of its first byte.
unfoldable pub lines_at : ℕ → List Bytes → List (ℕ × Bytes)
lines_at offset [] = []
lines_at offset (l ∷ ls) = (offset, l) ∷ lines_at (offset + length l + 1) ls

-- The variables of the loop of `build`.
pub record BuildState : Type 0 where
  pub index : Dict ℕ
  pub record_number : ℕ
  pub previous_key : Bytes
  pub key_group_offset : ℕ

-- `try_emplace`: a key that is there keeps its value.
unfoldable pub try_emplace : Bytes → ℕ → Dict ℕ → Dict ℕ
try_emplace key offset index = elim (find key index) [
  | none ↦ insert key offset index
  | some _ ↦ index
]

-- One round for a line with a key.
unfoldable pub build_step : ℕ → ℕ → Bytes → BuildState → BuildState
unfolding try_emplace
build_step stride offset key st =
    let is_new = st.record_number == 0 || not (bytes_eq key st.previous_key) in
    let group = (if is_new then offset else st.key_group_offset) in
    record {
      index = if st.record_number % stride == 0 then try_emplace key group st.index else st.index;
      record_number = st.record_number + 1;
      previous_key = if is_new then key else st.previous_key;
      key_group_offset = group;
    }

abbrev build_line : ℕ → ℕ → Option (Bytes × Bytes) → BuildState → BuildState
build_line stride offset none st = st
build_line stride offset (some k) st = build_step stride offset k.0 st

unfoldable pub build_loop : ℕ → List (ℕ × Bytes) → BuildState → BuildState
unfolding build_step
build_loop stride [] st = st
build_loop stride ((offset, line) ∷ ls) st =
    build_loop stride ls (build_line stride offset (read_word line) st)

abbrev pub initial_state : BuildState
initial_state = record { index = []; record_number = 0; previous_key = []; key_group_offset = 0 }

-- The constructor's stride: 0 counts as 1.
abbrev pub clamp_stride : ℕ → ℕ
clamp_stride stride = if stride == 0 then 1 else stride

unfoldable pub build_index : ℕ → Bytes → Dict ℕ
unfolding build_loop lines_at lines
build_index stride file =
    (build_loop (clamp_stride stride) (lines_at 0 (lines file)) initial_state).index

-- `upper_bound` and the step back: the last entry whose key is not above, or else the first one.
unfoldable pub floor_entry : Bytes → ℕ → Dict ℕ → ℕ
floor_entry key best [] = best
floor_entry key best ((k, offset) ∷ index) =
    let rest = floor_entry key offset index in if bytes_lt key k then best else rest

unfoldable pub find_start_offset : Dict ℕ → Bytes → Option ℕ
unfolding floor_entry
find_start_offset [] key = none
find_start_offset ((k, offset) ∷ index) key = some (floor_entry key offset ((k, offset) ∷ index))
