-- ===== src/Manifest/Load.antt =====
-- What the manifest lists after an append and after a replacement.
use veri_store.Common.{
  ◌≡◌, ◌≢◌, refl, sym, ap, ◌∙◌, inl, inr, Bool, true, false, not, some, List, [], ◌∷◌, ◌++◌, Bytes,
  codes, length, bytes_eq, bytes_eq_iff, if◌then◌else◌, if_intro, find, erase, find-insert,
  find-erase, All, All-append, arith, Bool-cases, length-append,
}
use veri_store.Text.{lines, newline}
use veri_store.Text.Words.{OneLine}
use veri_store.Text.Lines.{print_lines, lines-print_lines, print_lines-append}
use veri_store.Files.{Files, Output, all_written, arrived, content, append_to, write_to, rename}
use veri_store.Manifest.{
  Manifest, nonempty, load_sstables, member, append_sstable, Replacing, is_nil, temp_path,
  finish_replace, replace_sstables,
}

-- A path that a line can hold.
abbrev pub IsPath : Bytes → Type 0
IsPath p = (p ≢ []) × OneLine p

-- The file of the manifest holds just these paths, a line for each.
pub record Lists (m : Manifest) (paths : List Bytes) (files : Files) : Type 0 where
  pub named : m.path ≢ []
  pub good : All IsPath paths
  pub written : content (find m.path files) ≡ print_lines paths

nonempty-good : (ps : List Bytes) → All IsPath ps → nonempty ps ≡ ps
unfolding nonempty
nonempty-good [] g = refl
nonempty-good ([] ∷ ps) ((ne, _), g) = absurd (ne refl)
nonempty-good ((c ∷ p) ∷ ps) (_, g) = ap (λ qs. (c ∷ p) ∷ qs) (nonempty-good ps g)

All-OneLine : (ps : List Bytes) → All IsPath ps → All OneLine ps
All-OneLine [] g = tt
All-OneLine (p ∷ ps) ((_, one), g) = (one, All-OneLine ps g)

nonempty-print_lines : (ps : List Bytes) → All IsPath ps → nonempty (lines (print_lines ps)) ≡ ps
nonempty-print_lines ps g = rw (lines-print_lines ps (All-OneLine ps g)) (nonempty-good ps g)

load_sstables-Lists :
    (m : Manifest) (ps : List Bytes) (files : Files) → Lists m ps files → load_sstables m files ≡ ps
unfolding load_sstables
load_sstables-Lists m ps files h =
    ground (arith, ap (λ x. nonempty (lines x)) h.written, nonempty-print_lines ps h.good, h.named)

temp_differs : (p : Bytes) → bytes_eq (temp_path p) p ≡ false
unfolding temp_path
temp_differs p = elim (Bool-cases (bytes_eq (p ++ codes ".tmp") p)) [
  | inl e ↦ absurd (
      omega (
        arith,
        ap length ((bytes_eq_iff (p ++ codes ".tmp") p).0 e),
        length-append p (codes ".tmp"),
      ))
  | inr e ↦ e
]

find-rename :
    (p : Bytes) (files : Files)
    → find p (rename (temp_path p) p files) ≡ some (content (find (temp_path p) files))
unfolding rename
find-rename p files = ground (
  arith,
  find-insert p p (content (find (temp_path p) files)) (erase (temp_path p) files),
  bytes_eq_iff p p,
)

find-write_to :
    (o : Output) (text : Bytes) (p : Bytes) (files : Files)
    → find p (write_to o (temp_path p) text files).0 ≡ find p files
unfolding write_to
find-write_to o text p files =
    ground (arith, find-insert (temp_path p) p (arrived o.fails_after text) files, temp_differs p)

write_to-well :
    (o : Output) (text : Bytes) (p : Bytes) (files : Files)
    → (write_to o p text files).1 ≡ true
    → find p (write_to o p text files).0 ≡ some text
unfolding write_to
write_to-well o text p files h =
    ground (arith, find-insert p p (arrived o.fails_after text) files, bytes_eq_iff p p)

load_at :
    (m : Manifest) (files files' : Files)
    → find m.path files' ≡ find m.path files
    → load_sstables m files' ≡ load_sstables m files
unfolding load_sstables
load_at m files files' e = rw e refl

load_print :
    (m : Manifest) (paths : List Bytes) (files : Files)
    → m.path ≢ []
    → All IsPath paths
    → find m.path files ≡ some (print_lines paths)
    → load_sstables m files ≡ paths
load_print m paths files ne g e =
    load_sstables-Lists m paths files (record { named = ne; good = g; written = ap content e })

abbrev Replaced : Manifest → List Bytes → Files → Files × Bool → Type 0
Replaced m paths files r = load_sstables m r.0 ≡ (if r.1 then paths else load_sstables m files)

finish_replace-Replaced :
    (a : Replacing) (paths : List Bytes) (m : Manifest) (files written : Files) (ok : Bool)
    → m.path ≢ []
    → All IsPath paths
    → find m.path written ≡ find m.path files
    → (ok ≡ true → find (temp_path m.path) written ≡ some (print_lines paths))
    → Replaced m paths files (finish_replace a m (written, ok))
unfolding finish_replace
finish_replace-Replaced a paths m files written ok ne g same there =
    if_intro (Replaced m paths files) (not ok) (λ _. load_at m files written same)
      λ e.
        if_intro (Replaced m paths files) (not a.renames)
          (λ _.
            if_intro (λ (fs : Files). load_sstables m fs ≡ load_sstables m files) a.removes
              (λ _.
                load_at m files (erase (temp_path m.path) written) (
                  ground
                    (arith, find-erase (temp_path m.path) m.path written, temp_differs m.path)))
              (λ _. load_at m files written same))
          (λ _.
            load_print m paths (rename (temp_path m.path) m.path written) ne g
              (find-rename m.path written ∙ ap (λ x. some (content x)) (there (ground arith))))

-- Whatever the system answers, a replacement with paths that are not empty and hold no newline
-- either succeeds, and the manifest then lists these, or fails, and the manifest lists what it
-- listed before.
pub replace_sstables-atomic :
    (a : Replacing) (paths : List Bytes) (m : Manifest) (files : Files)
    → All IsPath paths
    → load_sstables m (replace_sstables a paths m files).0
      ≡ (if (replace_sstables a paths m files).1 then paths else load_sstables m files)
unfolding replace_sstables
replace_sstables-atomic a paths m files g =
    if_intro (Replaced m paths files) (is_nil m.path) (λ _. refl)
      λ e.
        let out = write_to a.output (temp_path m.path) (print_lines paths) files in
        finish_replace-Replaced a paths m files out.0 out.1 (λ nil. ground arith) g
          (find-write_to a.output (print_lines paths) m.path files)
          (write_to-well a.output (print_lines paths) (temp_path m.path) files)

append_new :
    (p : Bytes) (m : Manifest) (paths : List Bytes) (files : Files)
    → IsPath p
    → Lists m paths files
    → Lists m (paths ++ p ∷ []) (append_to all_written m.path (p ++ newline ∷ []) files).0
unfolding append_to print_lines
append_new p m paths files g h = record {
  named = h.named;
  good = All-append _ paths (p ∷ []) h.good (g, tt);
  written = ground (
    arith,
    find-insert m.path m.path (content (find m.path files) ++ (p ++ newline ∷ [])) files,
    bytes_eq_iff m.path m.path,
    h.written,
    print_lines-append paths (p ∷ []),
  );
}

-- An append, all written, to a manifest that lists some paths, for a path that is not empty and
-- holds no newline: it succeeds, and the manifest lists the path behind the others if it is new, and
-- the same paths if it is not.
pub append_sstable-Lists :
    (p : Bytes) (m : Manifest) (paths : List Bytes) (files : Files)
    → IsPath p
    → Lists m paths files
    → ((append_sstable all_written p m files).1 ≡ true)
      × Lists m
          (if member p paths then paths else paths ++ p ∷ [])
          (append_sstable all_written p m files).0
unfolding append_sstable
append_sstable-Lists p m paths files g h =
    let listed = load_sstables-Lists m paths files h in
    if_intro
      (λ (r : Files × Bool).
        (r.1 ≡ true) × Lists m (if member p paths then paths else paths ++ p ∷ []) r.0)
      (is_nil m.path) (λ e. absurd (h.named (ground arith)))
      λ _.
        if_intro
          (λ (r : Files × Bool).
            (r.1 ≡ true) × Lists m (if member p paths then paths else paths ++ p ∷ []) r.0)
          (member p (load_sstables m files)) (λ e. (refl, rw (sym (ap (member p) listed) ∙ e) h))
          (λ e. (
            unfold append_to in refl,
            rw (sym (ap (member p) listed) ∙ e) (append_new p m paths files g h),
          ))
