-- ===== src/KvStore/Compaction.antt =====
-- `maybe_compact_sstables_unlocked`, and `drain_completed_flushes_unlocked`, which calls it.
use veri_store.Common.{
  ℕ, zero, suc, ◌+◌, ◌%◌, Bool, true, false, not, Option, none, some, List, [], ◌∷◌, ◌++◌, Bytes,
  codes, length, ltb, bytes_eq, ◌==◌, if◌then◌else◌, find, erase,
}
use veri_store.Text.{print_uint}
use veri_store.Files.{Files, Output, write_to, rename}
use veri_store.Manifest.{member, Replacing, replace_sstables}
use veri_store.FlushWorker.{FlushWorker}
use veri_store.SsTable.Compactor.{compact}
use veri_store.KvStore.{KvStore, u64_mod, read_layers}

-- What the system answers to the calls of one compaction.
pub record Compacting : Type 0 where
  pub table : Output
  pub renames : Bool
  pub removes : Bool
  pub replacing : Replacing

-- `kCompactionTrigger`
abbrev pub compaction_trigger : ℕ
compaction_trigger = 4

unfoldable pub compacted_path : ℕ → Bytes
compacted_path id = codes "/tmp/veristore-compacted-" ++ (print_uint id ++ codes ".sst")

-- The `do … while`: the path, and the next id. One more round than there are tables is enough, as each
-- round tries another path.
unfoldable pub fresh_path : ℕ → List Bytes → ℕ → Bytes × ℕ
unfolding member
fresh_path zero paths id = (compacted_path id, (id + 1) % u64_mod)
fresh_path (suc fuel) paths id =
    let later = fresh_path fuel paths ((id + 1) % u64_mod) in
    if member (compacted_path id) paths then later else (compacted_path id, (id + 1) % u64_mod)

abbrev removed : Bool → Bytes → Files → Files
removed true path files = erase path files
removed false path files = files

-- Behind the renaming: the manifest, then the list of tables, then the inputs go.
unfoldable pub publish :
    Compacting → Bytes → Bytes → Bytes → List Bytes → KvStore → Files → KvStore × Files × Bool
unfolding replace_sstables
publish a first second output rest s files =
    let replaced = replace_sstables a.replacing (output ∷ rest) s.manifest files in
    if not replaced.1 then (s, removed a.removes output replaced.0, false) else (
      record s { sstable_paths = output ∷ rest },
      removed a.removes second (removed a.removes first replaced.0),
      true,
    )

-- Behind `Compactor::compact`, whose file this is if it has one.
unfoldable pub install :
    Compacting
    → Bytes
    → Bytes
    → Bytes
    → List Bytes
    → Option Bytes
    → KvStore
    → Files
    → KvStore × Files × Bool
unfolding publish write_to rename
install a first second output rest none s files = (s, files, false)
install a first second output rest (some table) s files =
    let temp = output ++ codes ".tmp" in
    let written = write_to a.table temp table files in
    if not written.1
    then (s, written.0, false)
    else if not a.renames
    then (s, removed a.removes temp written.0, false)
    else publish a first second output rest s (rename temp output written.0)

abbrev pub compact_first : Compacting → List Bytes → KvStore → Files → KvStore × Files × Bool
compact_first a (first ∷ second ∷ rest) s files =
    let shorter : KvStore = record s { sstable_paths = first ∷ rest } in
    let replaced = replace_sstables a.replacing (first ∷ rest) s.manifest files in
    let fresh = fresh_path (length s.sstable_paths) s.sstable_paths s.next_sstable_id in
    if bytes_eq first second
    then (shorter, replaced.0, replaced.1)
    else install a first second fresh.0 rest (compact (find first files ∷ find second files ∷ []))
        (record s { next_sstable_id = fresh.1 }) files
compact_first a paths s files = (s, files, true)

unfoldable pub maybe_compact : Compacting → KvStore → Files → KvStore × Files × Bool
unfolding install fresh_path
maybe_compact a s files =
    if ltb (length s.sstable_paths) compaction_trigger
    then (s, files, true)
    else compact_first a s.sstable_paths s files

-- The loop over the completions: the tables that are new, in their order.
unfoldable pub add_paths : List Bytes → List Bytes → List Bytes
add_paths [] paths = paths
add_paths (p ∷ ps) paths = add_paths ps (if member p paths then paths else paths ++ p ∷ [])

abbrev reset_if_any : List Bytes → KvStore → KvStore
reset_if_any [] s = s
reset_if_any (p ∷ ps) s = record s { immutable_memtable = none }

-- The polls until the queue is empty, as one pass over it.
unfoldable pub take_completions : KvStore → KvStore
unfolding add_paths
take_completions s =
    let w : FlushWorker = record (s.flush_worker) { completions = [] } in
    reset_if_any s.flush_worker.completions (record s {
      flush_worker = w;
      sstable_paths = add_paths s.flush_worker.completions s.sstable_paths;
    })

unfoldable pub drain_completed_flushes : Compacting → KvStore → Files → KvStore × Files
unfolding take_completions maybe_compact
drain_completed_flushes a s files =
    let t = take_completions s in
    let compacted = maybe_compact a t files in
    if length t.sstable_paths == length s.sstable_paths
    then (t, files)
    else (compacted.0, compacted.1)

unfoldable pub get_at : Compacting → Bytes → ℕ → KvStore × Files → (KvStore × Files) × Option Bytes
unfolding drain_completed_flushes read_layers
get_at a key t (s, files) =
    let drained = drain_completed_flushes a s files in
    (drained, read_layers drained.0 drained.1 key t)
