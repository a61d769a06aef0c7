-- ===== src/KvStore/TableIds.antt =====
-- The ids that `open` reads out of the paths of tables, and the id that it goes on with.
use veri_store.Common.{
  ℕ, suc, ◌+◌, ◌-◌, ◌<◌, ◌≡◌, ◌≢◌, refl, sym, ap, ◌∙◌, Bool, true, false, none, some, [], ◌∷◌, ◌++◌,
  Bytes, codes, length, length-append, take, drop, take-append_left, drop-append_left, leb, ltb,
  bytes_eq, bytes_eq_iff, if_intro, All-append, In, arith, append_assoc,
}
use veri_store.Text.{print_uint, u64_mod, is_digit}
use veri_store.Text.Decimal.{print_uint-ne-nil}
use veri_store.Text.Numbers.{Without, stoull, stoull-print, print_uint-Without}
use veri_store.Files.{Files}
use veri_store.Manifest.{load_sstables}
use veri_store.KvStore.{KvStore, flush_path}
use veri_store.KvStore.Compaction.{compaction_trigger, compact_first, maybe_compact, compacted_path}
use veri_store.KvStore.Opening.{
  last_place, zero_or, extract_sstable_id, Opening, next_id, list_tables,
}

abbrev dash : ℕ
dash = b'-'

last_place-append :
    (t p rest : Bytes) (i : ℕ)
    → last_place t rest ≡ some i
    → last_place t (p ++ rest) ≡ some (length p + i)
unfolding last_place
last_place-append t [] rest i e = e ∙ ap some (let same : i ≡ 0 + i = omega arith in same)
last_place-append t (c ∷ p) rest i e =
    rw (last_place-append t p rest i e, last_place)
      (let same : length p + i + 1 ≡ suc (length p) + i = omega arith in ap some same)

no_dash : (rest : Bytes) → Without dash rest → last_place (codes "-") rest ≡ none
unfolding last_place
no_dash [] w = refl
no_dash (c ∷ rest) (h, w) =
    rw (no_dash rest w, last_place) (ground (arith, bytes_eq_iff (c ∷ []) (codes "-")))

first_dash : (rest : Bytes) → Without dash rest → last_place (codes "-") (dash ∷ rest) ≡ some 0
unfolding last_place bytes_eq
first_dash rest w = rw (no_dash rest w, last_place) refl

ending : last_place (codes ".sst") (codes ".sst") ≡ some 0
unfolding last_place bytes_eq
ending = refl

behind : (p rest : Bytes) → drop (length p + 0 + 1) (p ++ dash ∷ rest) ≡ rest
behind p rest =
    let size : length p + 0 + 1 ≡ length (p ++ dash ∷ []) =
      omega (arith, length-append p (dash ∷ [])) in
    rw size (rw (sym (append_assoc p (dash ∷ []) rest)) (drop-append_left (p ++ dash ∷ []) rest))

digits_dash : (n : ℕ) → Without dash (print_uint n ++ codes ".sst")
digits_dash n =
    All-append _ (print_uint n) _ (print_uint-Without dash n (unfold is_digit in refl))
      (ground arith, (ground arith, (ground arith, (ground arith, tt))))

filled : (xs : Bytes) → xs ≢ [] → 0 < length xs
filled [] ne = absurd (ne refl)
filled (x ∷ xs) ne = omega arith

-- The id in a path with a dash before it and the ending behind it.
extract-path :
    (p : Bytes) (n : ℕ)
    → n < u64_mod
    → extract_sstable_id (p ++ dash ∷ (print_uint n ++ codes ".sst")) ≡ n
unfolding extract_sstable_id
extract-path p n lt =
    let digits = print_uint n in
    let rest = digits ++ codes ".sst" in
    let path = p ++ dash ∷ rest in
    let at_dash : last_place (codes "-") path ≡ some (length p + 0) =
      last_place-append (codes "-") p (dash ∷ rest) 0 (first_dash rest (digits_dash n)) in
    let at_dot : last_place (codes ".sst") path ≡ some (length p + (suc (length digits) + 0)) =
      last_place-append (codes ".sst") p (dash ∷ rest) (suc (length digits) + 0)
        (last_place-append (codes ".sst") (dash ∷ digits) (codes ".sst") 0 ending) in
    let far : leb (length p + (suc (length digits) + 0)) (length p + 0 + 1) ≡ false =
      ground (arith, filled digits (print_uint-ne-nil n)) in
    let size : length p + (suc (length digits) + 0) - (length p + 0) - 1 ≡ length digits =
      omega arith in
    rw at_dash (
      rw at_dot (
        rw far (
          rw size (
            ap (λ x. zero_or (stoull (take (length digits) x))) (behind p rest)
            ∙ rw (take-append_left digits (codes ".sst")) (rw (stoull-print n lt) refl)))))

-- `open` reads the id of a flushed table back from its path, if it fits in 64 bits.
pub extract-flush_path : (n : ℕ) → n < u64_mod → extract_sstable_id (flush_path n) ≡ n
unfolding flush_path
extract-flush_path n lt = extract-path (codes "/tmp/veristore") n lt

-- So it does with the path of a compacted table.
pub extract-compacted_path : (n : ℕ) → n < u64_mod → extract_sstable_id (compacted_path n) ≡ n
unfolding compacted_path
extract-compacted_path n lt = extract-path (codes "/tmp/veristore-compacted") n lt

-- The tables are too few for a compaction, and one of them has their number as its id: then the next
-- flush behind `open` writes to a table that is listed.
pub open_reuses_path :
    (a : Opening) (s : KvStore) (files : Files)
    → length (load_sstables s.manifest files) < 4
    → In (flush_path (length (load_sstables s.manifest files))) (load_sstables s.manifest files)
    → In
        (flush_path (list_tables a s files).0.next_sstable_id)
        (list_tables a s files).0.sstable_paths
unfolding list_tables maybe_compact
open_reuses_path a s files few at =
    let paths = load_sstables s.manifest files in
    let listed : KvStore = record s { sstable_paths = paths; next_sstable_id = next_id paths 0 } in
    let good : KvStore × Files × Bool → Type 0 =
      λ x. In (flush_path (length x.0.sstable_paths)) x.0.sstable_paths in
    if_intro good (ltb (length paths) compaction_trigger) {x = (listed, files, true)}
      {y = compact_first a.compacting paths listed files} (λ _. at) (λ e. absurd (ground arith))
