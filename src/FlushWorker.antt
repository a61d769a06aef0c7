-- ===== src/FlushWorker.antt =====
-- include/kv/flush_worker.h and src/flush_worker.cpp: the thread that writes tables and lists them in
-- the manifest, with its two queues. The mutex is free while a table is written; each part that
-- holds it is one function here.
pub mod Flushes
pub mod Runs
pub mod Order
mod Tests
use veri_store.Common.{
  ℕ, zero, suc, Bool, true, false, not, ◌&&◌, ◌||◌, Option, none, some, List, [], ◌∷◌, ◌++◌, Bytes,
  length, if◌then◌else◌,
}
use veri_store.Lookup.{Entries}
use veri_store.SsTable.Rows.{write_table}
use veri_store.Files.{Files, Output, write_to}
use veri_store.Manifest.{Manifest, open_manifest, append_sstable}

pub record FlushTask : Type 0 where
  pub sstable_path : Bytes
  pub manifest_path : Bytes
  pub entries : Entries

-- A completion is the path of the table.
pub record FlushWorker : Type 0 where
  pub tasks : List FlushTask
  pub completions : List Bytes
  pub started : Bool
  pub stopping : Bool

abbrev pub new_worker : FlushWorker
new_worker = record { tasks = []; completions = []; started = false; stopping = false }

unfoldable pub start : FlushWorker → FlushWorker
start w = if w.started then w else record w { stopping = false; started = true }

-- `stop` up to the join, and behind it.
unfoldable pub request_stop : FlushWorker → FlushWorker
request_stop w = if w.started then record w { stopping = true } else w

unfoldable pub finish_stop : FlushWorker → FlushWorker
finish_stop w = record w { started = false }

unfoldable pub enqueue : FlushTask → FlushWorker → FlushWorker × Bool
enqueue t w =
    if not w.started || w.stopping
    then (w, false)
    else (record w { tasks = w.tasks ++ t ∷ [] }, true)

unfoldable pub pending_tasks : FlushWorker → ℕ
pending_tasks w = length w.tasks

-- The first locked part of a round of `run`: the thread waits, ends, or takes the first task.
pub data Round : Type 0 where
  waits : Round
  ends : Round
  takes : FlushTask → FlushWorker → Round

abbrev take_first : List FlushTask → FlushWorker → Round
take_first [] w = if w.stopping then ends else waits
take_first (t ∷ ts) w = takes t (record w { tasks = ts })

unfoldable pub take_task : FlushWorker → Round
take_task w = take_first w.tasks w

-- What the system answers to the outputs of one task.
pub record Flushing : Type 0 where
  pub table : Output
  pub opening : Output
  pub appending : Output

unfoldable pub list_table : Flushing → FlushTask → Manifest × Files × Bool → Files × Bool
unfolding append_sstable
list_table a t (m, files, opened) =
    if not opened then (files, false) else append_sstable a.appending t.sstable_path m files

-- The part without the lock: the table, then its line in the manifest.
unfoldable pub process_task : Flushing → FlushTask → Files → Files × Bool
unfolding write_to write_table open_manifest list_table
process_task a t files =
    let written = write_to a.table t.sstable_path (write_table t.entries) files in
    if not written.1
    then (written.0, false)
    else list_table a t (open_manifest a.opening t.manifest_path written.0)

-- The second locked part, or `continue`.
unfoldable pub complete_task : FlushTask → Bool → FlushWorker → FlushWorker
complete_task t ok w =
    if ok then record w { completions = w.completions ++ t.sstable_path ∷ [] } else w

unfoldable pub poll_completion : FlushWorker → FlushWorker × Option Bytes
poll_completion w = elim w.completions [
  | [] ↦ (w, none)
  | p ∷ ps ↦ (record w { completions = ps }, some p)
]

-- How `run` goes on with no other thread at work: `waiting` is the wait that no thread ends any more,
-- `ended` the return behind `break`, and `out_of_fuel` no outcome of the code.
pub data Outcome : Type 0 where
  waiting : FlushWorker → Files → Outcome
  ended : FlushWorker → Files → Outcome
  out_of_fuel : Outcome

-- `answers` says what the system does for a task.
module _ (answers : FlushTask → Flushing) where
  unfoldable pub work : FlushTask → FlushWorker → Files → FlushWorker × Files
  unfolding process_task complete_task
  work t w files = let done = process_task (answers t) t files in (complete_task t done.1 w, done.0)

  unfoldable pub run : ℕ → FlushWorker × Files → Outcome
  unfolding take_task work
  run zero s = out_of_fuel
  run (suc fuel) (w, files) = elim (take_task w) [
    | waits ↦ waiting w files
    | ends ↦ ended w files
    | takes t rest ↦ run fuel (work t rest files)
  ]
