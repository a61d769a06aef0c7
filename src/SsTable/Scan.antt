-- ===== src/SsTable/Scan.antt =====
-- The loop of `SSTableReader::get_at` over the lines of a written table.
use mathlib.Core.List.{reverse}
use mathlib.Core.Path.{subst}
use veri_store.Common.{
  ℕ, ◌≤◌, ◌≡◌, refl, sym, ap, ◌∙◌, true, false, Option, none, some, List, [], ◌∷◌, ◌++◌, Bytes,
  bytes_eq, bytes_lt, bytes_eq_iff, bytes_lt_irrefl, bytes_lt_total, bytes_lt_trans, leb,
  if◌then◌else◌, All, All-map, arith, find, IsSorted, AllAbove, AllAbove-find, AllAbove-trans,
  append-nil, Bool-cases, inl, inr,
}
use veri_store.Lookup.{
  Version, Entries, not_found, result_of, newest_visible, lookup_versions, lookup_entries,
}
use veri_store.Lookup.Versions.{
  or_else, or_else-not_found, result_of-found, newest_visible-append, newest_visible-reverse,
  newest_visible-one, or_else_assoc,
}
use veri_store.SsTable.Rows.{version_line, version_lines, entry_lines, write_table}
use veri_store.SsTable.Reader.{Best, no_best, visit_row, scan}
use veri_store.SsTable.RoundTrip.{
  GoodVersion, GoodValue, GoodEntry, GoodTable, AllGood, Ascending, row_of, parse_row-version_line,
  row_value-row_of, lines-write_table,
}
use veri_store.Text.{lines}
use veri_store.Text.Words.{IsWord}

module _ (key : Bytes) (t : ℕ) where
  -- What the loop makes of the versions of the key.
  visit_all : List Version → Best → Best
  visit_all [] best = best
  visit_all (v ∷ vs) best = visit_all vs (visit_row t (row_of key v) best)

  -- The best version so far is not newer than those to come.
  abbrev NotNewer : Best → List Version → Type 0
  NotNewer best vs =
      (best.found ≡ true → All (λ v. best.timestamp ≤ v.timestamp) vs)
      × (best.found ≡ false → best.result ≡ not_found)

  taken : Version → Best
  taken v = record { result = result_of v.value; timestamp = v.timestamp; found = true }

  visit_row-value :
      (ts : ℕ) (o : Option Bytes) (best : Best)
      → GoodValue o
      → (best.found ≡ true → best.timestamp ≤ ts)
      → visit_row t (row_of key (record { timestamp = ts; value = o })) best
        ≡ (if leb ts t then taken (record { timestamp = ts; value = o }) else best)
  unfolding visit_row taken result_of
  visit_row-value ts none best g h = ground arith
  visit_row-value ts (some v) best g h = ground (arith, row_value-row_of key ts v g.1)

  visit_row-row_of :
      (v : Version) (best : Best)
      → GoodVersion v
      → (best.found ≡ true → best.timestamp ≤ v.timestamp)
      → visit_row t (row_of key v) best ≡ (if leb v.timestamp t then taken v else best)
  visit_row-row_of v best g h = visit_row-value v.timestamp v.value best g.text h

  skip_smaller :
      (k : Bytes) (vs : List Version) (ls : List Bytes) (best : Best)
      → IsWord k
      → All GoodVersion vs
      → bytes_lt k key ≡ true
      → scan key t (version_lines k vs ++ ls) best ≡ scan key t ls best
  unfolding scan version_lines
  skip_smaller k [] ls best w g lt = refl
  skip_smaller k (v ∷ vs) ls best w (gv, g) lt =
      rw (parse_row-version_line k v w gv.fits, scan)
        (ground
          (arith, skip_smaller k vs ls best w g lt, bytes_lt_trans k key k, bytes_lt_irrefl k))

  stop_at_greater :
      (k : Bytes) (v : Version) (ls : List Bytes) (best : Best)
      → IsWord k
      → GoodVersion v
      → bytes_lt key k ≡ true
      → scan key t (version_line k v ∷ ls) best ≡ best
  unfolding scan
  stop_at_greater k v ls best w g lt = rw (parse_row-version_line k v w g.fits, scan) (rw lt refl)

  visit_equal :
      (vs : List Version) (ls : List Bytes) (best : Best)
      → IsWord key
      → All GoodVersion vs
      → scan key t (version_lines key vs ++ ls) best ≡ scan key t ls (visit_all vs best)
  unfolding scan version_lines visit_all
  visit_equal [] ls best w g = refl
  visit_equal (v ∷ vs) ls best w (gv, g) =
      rw (parse_row-version_line key v w gv.fits, scan)
        (rw (bytes_lt_irrefl key) (visit_equal vs ls (visit_row t (row_of key v) best) w g))

  visit_all_lem :
      (vs : List Version) (best : Best)
      → All GoodVersion vs
      → Ascending vs
      → NotNewer best vs
      → (visit_all vs best).result ≡ or_else (newest_visible t (reverse vs)) best.result
  unfolding visit_all
  visit_all_lem [] best g a n = unfold newest_visible in sym (or_else-not_found best.result)
  visit_all_lem (v ∷ vs) best (gv, g) (av, a) n =
      let older = newest_visible t (reverse vs) in
      rw (visit_row-row_of v best gv (λ f. (n.0 f).0), visit_all)
        (rw (newest_visible-reverse t (v ∷ []) vs) (
          rw (newest_visible-one t v) (elim (Bool-cases (leb v.timestamp t)) [
            | inl e ↦ rw e (
                visit_all_lem vs (taken v) g a
                  (unfold taken in ((λ _. All-map _ _ vs (λ u lt. omega arith) av), (λ f. cc)))
                ∙ unfold taken in
                  sym (
                    or_else_assoc older (result_of v.value) best.result
                    ∙ ap (or_else older) (result_of-found v.value best.result)))
            | inr e ↦ rw e (
                visit_all_lem vs best g a ((λ f. (n.0 f).1), n.1)
                ∙ sym (
                    or_else_assoc older not_found best.result
                    ∙ ap (or_else older) (or_else-not_found best.result)))
          ])))

  newest_visible_complete :
      (xs : List Version) → or_else (newest_visible t xs) not_found ≡ newest_visible t xs
  unfolding newest_visible
  newest_visible_complete xs =
      sym (newest_visible-append t xs []) ∙ ap (newest_visible t) (append-nil xs)

  scan_above :
      (es : Entries) (best : Best)
      → AllGood es
      → AllAbove key es
      → scan key t (entry_lines es) best ≡ best
  unfolding entry_lines version_lines
  scan_above [] best g a = unfold scan in refl
  scan_above ((k, []) ∷ es) best (g, gs) (lt, a) = absurd (g.filled refl)
  scan_above ((k, v ∷ vs) ∷ es) best (g, gs) (lt, a) =
      stop_at_greater k v (version_lines k vs ++ entry_lines es) best g.word g.good.0 lt

  lookup_hit :
      (k : Bytes) (vs : List Version) (es : Entries)
      → bytes_eq k key ≡ true
      → lookup_entries ((k, vs) ∷ es) key t ≡ newest_visible t (reverse vs)
  unfolding lookup_entries lookup_versions find
  lookup_hit k vs es e = rw e refl

  lookup_miss :
      (k : Bytes) (vs : List Version) (es : Entries)
      → bytes_eq k key ≡ false
      → lookup_entries ((k, vs) ∷ es) key t ≡ lookup_entries es key t
  unfolding lookup_entries find
  lookup_miss k vs es e = rw e refl

  pub lookup_above : (es : Entries) → AllAbove key es → lookup_entries es key t ≡ not_found
  unfolding lookup_entries lookup_versions
  lookup_above es a = rw (AllAbove-find key es a) refl

  scan_here :
      (vs : List Version) (es : Entries)
      → GoodEntry key vs
      → AllGood es
      → AllAbove key es
      → (scan key t (version_lines key vs ++ entry_lines es) no_best).result
        ≡ newest_visible t (reverse vs)
  scan_here vs es g gs above =
      ap (λ (b : Best). b.result)
        (visit_equal vs (entry_lines es) no_best g.word g.good
          ∙ scan_above es (visit_all vs no_best) gs above)
      ∙ (visit_all_lem vs no_best g.good g.ascending ((λ e. cc), (λ e. refl))
          ∙ newest_visible_complete (reverse vs))

  scan-entry_lines :
      (es : Entries)
      → AllGood es
      → IsSorted es
      → (scan key t (entry_lines es) no_best).result ≡ lookup_entries es key t
  unfolding entry_lines
  scan-entry_lines [] g s = unfold scan lookup_entries lookup_versions find in refl
  scan-entry_lines ((k, vs) ∷ es) (g, gs) (above, s) = elim (Bool-cases (bytes_lt k key)) [
    | inl lt ↦
        ap (λ (b : Best). b.result) (skip_smaller k vs (entry_lines es) no_best g.word g.good lt)
        ∙ (scan-entry_lines es gs s
            ∙ sym (lookup_miss k vs es (ground (arith, bytes_eq_iff k key, bytes_lt_irrefl k))))
    | inr ge ↦ elim (Bool-cases (bytes_eq k key)) [
      | inl e ↦
          let same : k ≡ key = (bytes_eq_iff k key).0 e in
          subst
            (λ (j : Bytes).
              GoodEntry j vs
              → AllAbove j es
              → (scan key t (version_lines j vs ++ entry_lines es) no_best).result
                ≡ newest_visible t (reverse vs))
            (sym same) (λ g' a'. scan_here vs es g' gs a') g above
          ∙ sym (lookup_hit k vs es e)
      | inr ne ↦
          let lt : bytes_lt key k ≡ true = bytes_lt_total k key ge ne in
          let all : AllAbove key es = AllAbove-trans key k es lt above in
          ap (λ (b : Best). b.result) (scan_above ((k, vs) ∷ es) no_best (g, gs) (lt, all))
          ∙ sym (lookup_above ((k, vs) ∷ es) (lt, all))
    ]
  ]

-- For entries with ascending keys that are words, none without a version, and versions whose numbers
-- fit, whose values begin with no space and hold no newline, and whose timestamps ascend: the
-- reader's loop over the lines of the written file finds, for every key and read timestamp, what a
-- lookup in the entries finds.
pub scan-write_table :
    (es : Entries) (key : Bytes) (t : ℕ)
    → GoodTable es
    → (scan key t (lines (write_table es)) no_best).result ≡ lookup_entries es key t
scan-write_table es key t g =
    ap (λ ls. (scan key t ls no_best).result) (lines-write_table es g.entries)
    ∙ scan-entry_lines key t es g.entries g.sorted
