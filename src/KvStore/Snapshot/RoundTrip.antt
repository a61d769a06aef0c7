-- ===== src/KvStore/Snapshot/RoundTrip.antt =====
-- A MemTable that was saved is loaded again.
use mathlib.Core.Path.{subst}
use veri_store.Common.{
  ℕ, ◌<◌, ◌≡◌, ◌≢◌, refl, ap, ◌∙◌, Bool, true, Option, none, some, List, [], ◌∷◌, ◌++◌, Bytes,
  bytes_eq, bytes_eq_iff, bytes_eq_refl, if◌then◌else◌, find, find-insert, find-modify, default_to,
  IsSorted, AllAbove-find, All, All-append, arith, Bool-cases, inl, inr, append_assoc,
}
use veri_store.Lookup.{Version, Entries, lookup_entries, lookup_versions}
use veri_store.Text.{tab, newline, print_uint, u64_mod, is_digit}
use veri_store.Text.Words.{OneLine}
use veri_store.Text.Lines.{print_lines, lines-print_lines}
use veri_store.Text.Numbers.{Without, stoull-print, print_uint-Without}
use veri_store.SsTable.Rows.{value_field, version_line, version_lines, entry_lines}
use veri_store.Files.{Files, all_written, write_to}
use veri_store.MemTable.{get_at, empty_table, push_version, clear, snapshot_entries}
use veri_store.KvStore.{KvStore}
use veri_store.KvStore.Snapshot.{
  Saving, Change, save_to_file, split_tab, parse_change, change_of, type_field, apply_change,
  load_change, load_lines, load_from_file,
}
use veri_store.KvStore.Changes.{apply_change-entries, apply_change-IsSorted}

-- Entries that the file keeps: keys and values on one line, no tab in a key, and no key without
-- versions.
abbrev pub SavedValue : Option Bytes → Type 0
SavedValue none = Unit
SavedValue (some v) = OneLine v

abbrev pub SavedVersion : Version → Type 0
SavedVersion v = (v.timestamp < u64_mod) × SavedValue v.value

pub record SavedEntry (key : Bytes) (versions : List Version) : Type 0 where
  pub tabless : Without tab key
  pub line : OneLine key
  pub filled : versions ≢ []
  pub good : All SavedVersion versions

abbrev pub SavedEntries : Entries → Type 0
SavedEntries [] = Unit
SavedEntries ((key, versions) ∷ es) = SavedEntry key versions × SavedEntries es

abbrev pub change : Bytes → Version → Change
change key v = record { key = key; timestamp = v.timestamp; value = v.value }

split_tab-append : (a b : Bytes) → Without tab a → split_tab (a ++ tab ∷ b) ≡ some (a, b)
unfolding split_tab
split_tab-append [] b w = ground arith
split_tab-append (c ∷ a) b (h, w) = ground (arith, split_tab-append a b w)

change_of-value_field :
    (o : Option Bytes) → change_of (type_field (value_field o) (split_tab (value_field o))) ≡ some o
unfolding split_tab bytes_eq
change_of-value_field none = refl
change_of-value_field (some v) = refl

parse_change-version_line :
    (key : Bytes) (v : Version)
    → Without tab key
    → v.timestamp < u64_mod
    → parse_change (version_line key v) ≡ some (change key v)
unfolding parse_change version_line
parse_change-version_line key v w fits = rw (split_tab-append key _ w) (
    rw
      (split_tab-append (print_uint v.timestamp) _
        (print_uint-Without tab v.timestamp (unfold is_digit in refl)))
      (rw (stoull-print v.timestamp fits) (rw (change_of-value_field v.value) refl)))

find-push_version :
    (key j : Bytes) (v : Version) (m : Entries)
    → IsSorted m
    → find j (push_version key v m)
      ≡ (if bytes_eq key j then some (default_to [] (find key m) ++ v ∷ []) else find j m)
unfolding push_version
find-push_version key j v m h = find-modify key j [] (λ vs. vs ++ v ∷ []) m h

digits-OneLine : (n : ℕ) → OneLine (print_uint n)
digits-OneLine n = print_uint-Without newline n (unfold is_digit in refl)

value_field-OneLine : (o : Option Bytes) → SavedValue o → OneLine (value_field o)
value_field-OneLine none h = (ground arith, tt)
value_field-OneLine (some v) h = (ground arith, (ground arith, h))

version_lines-OneLine :
    (key : Bytes) (vs : List Version)
    → OneLine key
    → All SavedVersion vs
    → All OneLine (version_lines key vs)
unfolding version_lines version_line
version_lines-OneLine key [] k g = tt
version_lines-OneLine key (v ∷ vs) k ((fits, text), g) = (
  All-append _ key _ k (
    ground arith,
    All-append _ (print_uint v.timestamp) _ (digits-OneLine v.timestamp)
        (ground arith, value_field-OneLine v.value text),
  ),
  version_lines-OneLine key vs k g,
)

entry_lines-OneLine : (es : Entries) → SavedEntries es → All OneLine (entry_lines es)
unfolding entry_lines
entry_lines-OneLine [] g = tt
entry_lines-OneLine ((key, vs) ∷ es) (h, g) =
    All-append _ (version_lines key vs) _ (version_lines-OneLine key vs h.line h.good)
      (entry_lines-OneLine es g)

-- Versions behind those that are there, if any.
abbrev extend : Option (List Version) → Option (List Version) → Option (List Version)
extend o none = o
extend o (some vs) = some (default_to [] o ++ vs)

extend-none : (o : Option (List Version)) → extend none o ≡ o
extend-none none = refl
extend-none (some vs) = refl

module _ (version_bytes : ℕ) where
  abbrev pub load_versions : Bytes → List Version → KvStore → KvStore
  load_versions key [] s = s
  load_versions key (v ∷ vs) s = load_versions key vs (load_change version_bytes (change key v) s)

  abbrev pub load_entries : Entries → KvStore → KvStore
  load_entries [] s = s
  load_entries ((key, vs) ∷ es) s = load_entries es (load_versions key vs s)

  load_lines-line :
      (l : Bytes) (ls : List Bytes) (c : Change) (s : KvStore)
      → parse_change l ≡ some c
      → load_lines version_bytes (l ∷ ls) s
        ≡ load_lines version_bytes ls (load_change version_bytes c s)
  unfolding load_lines
  load_lines-line [] ls c s e = absurd (unfold parse_change split_tab in cc)
  load_lines-line (x ∷ l) ls c s e = rw (e, load_lines) refl

  load_lines-versions :
      (key : Bytes) (vs : List Version) (ls : List Bytes) (s : KvStore)
      → Without tab key
      → All SavedVersion vs
      → load_lines version_bytes (version_lines key vs ++ ls) s
        ≡ load_lines version_bytes ls (load_versions key vs s)
  unfolding version_lines
  load_lines-versions key [] ls s w g = refl
  load_lines-versions key (v ∷ vs) ls s w ((fits, _), g) =
      load_lines-line (version_line key v) (version_lines key vs ++ ls) (change key v) s
        (parse_change-version_line key v w fits)
      ∙ load_lines-versions key vs ls (load_change version_bytes (change key v) s) w g

  load_lines-entries :
      (es : Entries) (s : KvStore)
      → SavedEntries es
      → load_lines version_bytes (entry_lines es) s ≡ (load_entries es s, true)
  unfolding entry_lines
  load_lines-entries [] s g = unfold load_lines in refl
  load_lines-entries ((key, vs) ∷ es) s (h, g) =
      load_lines-versions key vs (entry_lines es) s h.tabless h.good
      ∙ load_lines-entries es (load_versions key vs s) g

  load_versions-IsSorted :
      (key : Bytes) (vs : List Version) (s : KvStore)
      → IsSorted s.memtable.entries
      → IsSorted (load_versions key vs s).memtable.entries
  load_versions-IsSorted key [] s h = h
  load_versions-IsSorted key (v ∷ vs) s h =
      load_versions-IsSorted key vs (load_change version_bytes (change key v) s)
        (apply_change-IsSorted version_bytes (change key v) s h)

  find-load_change :
      (key j : Bytes) (v : Version) (s : KvStore)
      → IsSorted s.memtable.entries
      → find j (apply_change version_bytes (change key v) s).memtable.entries ≡ (
          if bytes_eq key j
          then some (default_to [] (find key s.memtable.entries) ++ v ∷ [])
          else find j s.memtable.entries)
  find-load_change key j v s h =
      rw (apply_change-entries version_bytes (change key v) s)
        (find-push_version key j v s.memtable.entries h)

  find-load_versions :
      (key j : Bytes) (vs : List Version) (s : KvStore)
      → vs ≢ []
      → IsSorted s.memtable.entries
      → find j (load_versions key vs s).memtable.entries ≡ (
          if bytes_eq key j
          then some (default_to [] (find key s.memtable.entries) ++ vs)
          else find j s.memtable.entries)
  find-load_versions key j [] s ne h = absurd (ne refl)
  find-load_versions key j (v ∷ []) s ne h = find-load_change key j v s h
  find-load_versions key j (v ∷ w ∷ vs) s ne h =
      find-load_versions key j (w ∷ vs) (load_change version_bytes (change key v) s) (λ e. cc)
        (apply_change-IsSorted version_bytes (change key v) s h)
      ∙ rw (find-load_change key key v s h) (
          rw (bytes_eq_refl key) (
            rw (append_assoc (default_to [] (find key s.memtable.entries)) (v ∷ []) (w ∷ vs))
              (rw (find-load_change key j v s h) (ground arith))))

  find-load_entries :
      (es : Entries) (j : Bytes) (s : KvStore)
      → SavedEntries es
      → IsSorted es
      → IsSorted s.memtable.entries
      → find j (load_entries es s).memtable.entries ≡ extend (find j s.memtable.entries) (find j es)
  unfolding find
  find-load_entries [] j s g sorted h = refl
  find-load_entries ((key, vs) ∷ es) j s (g, gs) (above, sorted) h =
      let one = find-load_versions key j vs s g.filled h in
      find-load_entries es j (load_versions key vs s) gs sorted (load_versions-IsSorted key vs s h)
      ∙ elim (Bool-cases (bytes_eq key j)) [
        | inl e ↦
            let same : key ≡ j = (bytes_eq_iff key j).0 e in
            let gone : find j es ≡ none =
              subst (λ k. find k es ≡ none) same (AllAbove-find key es above) in
            rw one (
              rw e
                (rw gone (ap (λ k. some (default_to [] (find k s.memtable.entries) ++ vs)) same)))
        | inr e ↦ rw one (rw e refl)
      ]

  unfoldable pub emptied : KvStore → KvStore
  emptied u = record u { map = []; memtable = empty_table }

  -- What is loaded from the file of a save that was written whole.
  pub loaded_entries :
      (a : Saving) (path : Bytes) (s u : KvStore) (files : Files)
      → a.output ≡ all_written
      → SavedEntries s.memtable.entries
      → load_from_file version_bytes path (save_to_file a path s files).0 u
        ≡ (load_entries s.memtable.entries (emptied u), true)
  unfolding load_from_file save_to_file write_to snapshot_entries clear emptied
  loaded_entries a path s u files w g = rw w (
      rw (find-insert path path (print_lines (entry_lines s.memtable.entries)) files) (
        rw (bytes_eq_refl path) (
          rw
            (lines-print_lines (entry_lines s.memtable.entries)
              (entry_lines-OneLine s.memtable.entries g))
            (load_lines-entries s.memtable.entries (record u { map = []; memtable = empty_table })
              g))))

  -- A save that is written whole succeeds, and a load of its file, into any store, succeeds and gives a
  -- MemTable from which every read at any time returns what it returned before. Keys hold no tab, keys
  -- and values no newline, and timestamps fit in 64 bits.
  pub load_from_file-save_to_file :
      (a : Saving) (path : Bytes) (s u : KvStore) (files : Files)
      → a.output ≡ all_written
      → SavedEntries s.memtable.entries
      → IsSorted s.memtable.entries
      → ((save_to_file a path s files).1 ≡ true)
        × ((load_from_file version_bytes path (save_to_file a path s files).0 u).1 ≡ true)
        × ((k : Bytes) (t : ℕ)
            → get_at k t
                (load_from_file version_bytes path (save_to_file a path s files).0 u).0.memtable
              ≡ get_at k t s.memtable)
  unfolding get_at emptied find
  load_from_file-save_to_file a path s u files w g sorted =
      let es = s.memtable.entries in
      let loaded = loaded_entries a path s u files w g in
      (
        unfold save_to_file in rw w refl,
        ap (λ (x : KvStore × Bool). x.1) loaded,
        λ k t.
            let same : find k (load_entries es (emptied u)).memtable.entries ≡ find k es =
              find-load_entries es k (emptied u) g sorted tt ∙ extend-none (find k es) in
            ap (λ (x : KvStore × Bool). lookup_entries x.0.memtable.entries k t) loaded
            ∙ unfold lookup_entries in ap (lookup_versions t) same,
      )
