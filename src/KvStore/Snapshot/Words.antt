-- ===== src/KvStore/Snapshot/Words.antt =====
-- What `load_snapshot` reads of the file that `save_snapshot` wrote.
use mathlib.Core.Path.{subst}
use veri_store.Common.{
  ℕ, zero, suc, ◌≤◌, ◌≡◌, refl, ap, ◌∙◌, Bool, true, Option, none, some, [], ◌∷◌, ◌++◌, Bytes,
  length, length-append, bytes_eq, bytes_eq_iff, bytes_eq_refl, Dict, find, insert, find-insert,
  IsSorted, AllAbove-find, arith, append_assoc, Bool-cases, inl, inr,
}
use veri_store.Text.{tab, newline, is_space, skip_space, split_word, read_word}
use veri_store.Text.Words.{IsWord, read_word-append}
use veri_store.Text.Lines.{print_lines}
use veri_store.Files.{Files, all_written, write_to, rename}
use veri_store.KvStore.{KvStore, get}
use veri_store.KvStore.Snapshot.{map_lines, snapshot_temp, save_snapshot, load_words, load_snapshot}

-- Keys and values without spaces that are not empty.
abbrev pub AllWords : Dict Bytes → Type 0
AllWords [] = Unit
AllWords ((k, v) ∷ m) = IsWord k × IsWord v × AllWords m

read_word-space : (c : ℕ) (text : Bytes) → is_space c ≡ true → read_word (c ∷ text) ≡ read_word text
unfolding read_word skip_space
read_word-space c text h = rw h refl

load_words-space :
    (fuel c : ℕ) (text : Bytes) (m : Dict Bytes)
    → is_space c ≡ true
    → load_words fuel (c ∷ text) m ≡ load_words fuel text m
unfolding load_words
load_words-space zero c text m h = refl
load_words-space (suc fuel) c text m h = rw (read_word-space c text h, load_words) refl

load_words-nil : (fuel : ℕ) (m : Dict Bytes) → load_words fuel [] m ≡ m
unfolding load_words read_word skip_space
load_words-nil zero m = refl
load_words-nil (suc fuel) m = refl

tab-space : is_space tab ≡ true
unfolding is_space
tab-space = refl

newline-space : is_space newline ≡ true
unfolding is_space
newline-space = refl

-- A key, a tab, a value and a space are read as an entry.
load_words-entry :
    (fuel c : ℕ) (k v rest : Bytes) (m : Dict Bytes)
    → IsWord k
    → IsWord v
    → is_space c ≡ true
    → load_words (suc fuel) (k ++ tab ∷ (v ++ c ∷ rest)) m ≡ load_words fuel rest (insert k v m)
unfolding load_words
load_words-entry fuel c k v rest m wk wv h =
    rw (read_word-append k tab (v ++ c ∷ rest) wk tab-space, load_words)
      (rw (read_word-space tab (v ++ c ∷ rest) tab-space, load_words)
        (rw (read_word-append v c rest wv h, load_words)
          (load_words-space fuel c rest (insert k v m) h)))

abbrev insert_all : Dict Bytes → Dict Bytes → Dict Bytes
insert_all [] acc = acc
insert_all ((k, v) ∷ m) acc = insert_all m (insert k v acc)

load_words-map_lines :
    (m acc : Dict Bytes) (fuel : ℕ)
    → AllWords m
    → length m ≤ fuel
    → load_words fuel (print_lines (map_lines m)) acc ≡ insert_all m acc
unfolding print_lines
load_words-map_lines [] acc fuel w le = load_words-nil fuel acc
load_words-map_lines ((k, v) ∷ m) acc zero w le = absurd (omega arith)
load_words-map_lines ((k, v) ∷ m) acc (suc fuel) (wk, wv, w) le =
    ap (λ x. load_words (suc fuel) x acc)
      (append_assoc k (tab ∷ v) (newline ∷ print_lines (map_lines m)))
    ∙ (load_words-entry fuel newline k v (print_lines (map_lines m)) acc wk wv newline-space
        ∙ load_words-map_lines m (insert k v acc) fuel w (omega arith))

map_lines-long : (m : Dict Bytes) → length m ≤ length (print_lines (map_lines m))
unfolding print_lines
map_lines-long [] = omega arith
map_lines-long ((k, v) ∷ m) =
    omega
      (arith, map_lines-long m, length-append (k ++ tab ∷ v) (newline ∷ print_lines (map_lines m)))

abbrev first_of : Option Bytes → Option Bytes → Option Bytes
first_of none o = o
first_of (some v) o = some v

first_of-none : (o : Option Bytes) → first_of o none ≡ o
first_of-none none = refl
first_of-none (some v) = refl

find-insert_all :
    (m acc : Dict Bytes) (j : Bytes)
    → IsSorted m
    → find j (insert_all m acc) ≡ first_of (find j m) (find j acc)
unfolding find
find-insert_all [] acc j h = refl
find-insert_all ((k, v) ∷ m) acc j (above, h) =
    find-insert_all m (insert k v acc) j h ∙ elim (Bool-cases (bytes_eq k j)) [
      | inl e ↦
          let gone : find j m ≡ none =
            subst (λ x. find x m ≡ none) ((bytes_eq_iff k j).0 e) (AllAbove-find k m above) in
          rw gone (rw (find-insert k j v acc) (rw e refl))
      | inr e ↦ rw (find-insert k j v acc) (rw e refl)
    ]

-- The file that a save leaves under the path.
saved_text :
    (path : Bytes) (s : KvStore) (files : Files)
    → find path (save_snapshot all_written true path s files).0
      ≡ some (print_lines (map_lines s.map))
unfolding save_snapshot write_to rename
saved_text path s files = rw (find-insert path path _ _) (
    rw (bytes_eq_refl path) (
      rw
        (find-insert (snapshot_temp path) (snapshot_temp path) (print_lines (map_lines s.map))
          files)
        (rw (bytes_eq_refl (snapshot_temp path)) refl)))

loaded :
    (path : Bytes) (s u : KvStore) (files : Files)
    → load_snapshot path (save_snapshot all_written true path s files).0 u ≡ (
      record u {
        map =
            load_words (length (print_lines (map_lines s.map))) (print_lines (map_lines s.map)) [];
      },
      true,
    )
unfolding load_snapshot
loaded path s u files = rw (saved_text path s files) refl

-- A snapshot that is written whole and put in place is loaded again, into any store: the load succeeds,
-- and `get` returns of each key what it returned before. Keys and values hold no spaces and are not
-- empty.
pub load_snapshot-save_snapshot :
    (path : Bytes) (s u : KvStore) (files : Files)
    → AllWords s.map
    → IsSorted s.map
    → ((save_snapshot all_written true path s files).1 ≡ true)
      × ((load_snapshot path (save_snapshot all_written true path s files).0 u).1 ≡ true)
      × ((k : Bytes)
          → get k (load_snapshot path (save_snapshot all_written true path s files).0 u).0
            ≡ get k s)
unfolding get find
load_snapshot-save_snapshot path s u files w h = (
  unfold save_snapshot in refl,
  ap (λ (x : KvStore × Bool). x.1) (loaded path s u files),
  λ k.
      ap (λ (x : KvStore × Bool). find k x.0.map) (loaded path s u files)
      ∙ (ap (find k) (
            load_words-map_lines s.map [] (length (print_lines (map_lines s.map))) w
              (map_lines-long s.map))
          ∙ (find-insert_all s.map [] k h ∙ first_of-none (find k s.map))),
)

load_words-lone :
    (fuel : ℕ) (b : Bytes) (m : Dict Bytes) → IsWord b → load_words fuel (b ++ newline ∷ []) m ≡ m
unfolding load_words read_word skip_space split_word is_space
load_words-lone zero b m w = refl
load_words-lone (suc fuel) b m w =
    rw (read_word-append b newline [] w newline-space, load_words) refl

load_words-cut :
    (k a b : Bytes)
    → IsWord k
    → IsWord a
    → IsWord b
    → let text = print_lines ((k ++ tab ∷ (a ++ b' ' ∷ b)) ∷ []) in
      load_words (length text) text [] ≡ insert k a []
unfolding print_lines
load_words-cut k a b wk wa wb =
    let line = k ++ tab ∷ (a ++ b' ' ∷ b) in
    let size : length (line ++ newline ∷ []) ≡ suc (length line) =
      omega (arith, length-append line (newline ∷ [])) in
    let split : line ++ newline ∷ [] ≡ k ++ tab ∷ (a ++ b' ' ∷ (b ++ newline ∷ [])) =
      append_assoc k (tab ∷ (a ++ b' ' ∷ b)) (newline ∷ [])
      ∙ ap (λ x. k ++ tab ∷ x) (append_assoc a (b' ' ∷ b) (newline ∷ [])) in
    ap (λ n. load_words n (line ++ newline ∷ []) []) size
    ∙ (ap (λ x. load_words (suc (length line)) x []) split
        ∙ (load_words-entry (length line) b' ' k a (b ++ newline ∷ []) [] wk wa
              (unfold is_space in refl)
            ∙ load_words-lone (length line) b (insert k a []) wb))

-- A value with a space in it comes back cut: of a store with one entry whose value is two words, the
-- save and the load succeed, and `get` returns the first word.
pub load_snapshot-cuts_value :
    (path k a b : Bytes) (s u : KvStore) (files : Files)
    → s.map ≡ (k, a ++ b' ' ∷ b) ∷ []
    → IsWord k
    → IsWord a
    → IsWord b
    → ((save_snapshot all_written true path s files).1 ≡ true)
      × ((load_snapshot path (save_snapshot all_written true path s files).0 u).1 ≡ true)
      × (get k (load_snapshot path (save_snapshot all_written true path s files).0 u).0 ≡ some a)
unfolding get find
load_snapshot-cuts_value path k a b s u files e wk wa wb = (
  unfold save_snapshot in refl,
  ap (λ (x : KvStore × Bool). x.1) (loaded path s u files),
  ap (λ (x : KvStore × Bool). find k x.0.map) (loaded path s u files)
      ∙ (ap
            (λ (m : Dict Bytes).
              find k
                (load_words (length (print_lines (map_lines m))) (print_lines (map_lines m)) []))
            e
          ∙ (ap (find k) (load_words-cut k a b wk wa wb)
              ∙ (find-insert k k a [] ∙ rw (bytes_eq_refl k) refl))),
)
