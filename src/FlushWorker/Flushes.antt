-- ===== src/FlushWorker/Flushes.antt =====
-- What a completed task leaves in the files, and the end of the thread.
use veri_store.Common.{
  ℕ, zero, suc, ◌<◌, ◌≡◌, ◌≢◌, refl, ◌∙◌, Bool, true, false, not, none, some, List, [], ◌∷◌, ◌++◌,
  Bytes, length, bytes_eq, bytes_eq_iff, if_intro, append_assoc, append-nil, sym, if◌then◌else◌,
  find, find-insert, arith,
}
use veri_store.SsTable.Rows.{write_table}
use veri_store.Files.{Files, Output, all_written, arrived, content, append_to, write_to}
use veri_store.Manifest.{Manifest, open_manifest, append_sstable}
use veri_store.FlushWorker.{
  FlushTask, FlushWorker, Flushing, ended, takes, take_task, list_table, process_task,
  complete_task, work, run,
}

find-append_to :
    (o : Output) (text path p : Bytes) (files : Files)
    → bytes_eq path p ≡ false
    → find p (append_to o path text files).0 ≡ find p files
unfolding append_to
find-append_to o text path p files ne =
    ground
      (arith, find-insert path p (content (find path files) ++ arrived o.fails_after text) files)

find-append_sstable :
    (o : Output) (q p : Bytes) (m : Manifest) (files : Files)
    → bytes_eq m.path p ≡ false
    → find p (append_sstable o q m files).0 ≡ find p files
unfolding append_sstable
find-append_sstable o q p m files ne =
    ground (arith, find-append_to o (q ++ 10 ∷ []) m.path p files ne)

list_table-find :
    (a : Flushing) (t : FlushTask) (m : Manifest) (files : Files) (opened : Bool) (p : Bytes)
    → bytes_eq m.path p ≡ false
    → find p (list_table a t (m, files, opened)).0 ≡ find p files
unfolding list_table
list_table-find a t m files opened p ne =
    ground (arith, find-append_sstable a.appending t.sstable_path p m files ne)

opened-find :
    (a : Flushing) (t : FlushTask) (files : Files) (p : Bytes)
    → bytes_eq t.manifest_path p ≡ false
    → find p (list_table a t (open_manifest a.opening t.manifest_path files)).0 ≡ find p files
unfolding open_manifest
opened-find a t files p ne =
    let out : Output = record (a.opening) { fails_after = none } in
    list_table-find a t (record { path = t.manifest_path })
      (append_to out t.manifest_path [] files).0 a.opening.opens p ne
    ∙ find-append_to out [] t.manifest_path p files ne

write_to-well :
    (o : Output) (text p : Bytes) (files : Files)
    → (write_to o p text files).1 ≡ true
    → find p (write_to o p text files).0 ≡ some text
unfolding write_to
write_to-well o text p files h =
    ground (arith, find-insert p p (arrived o.fails_after text) files, bytes_eq_iff p p)

-- A task that is reported as complete has left the whole table in its file, whatever the files held
-- before, if the table's path is not that of the manifest.
pub process_task-table :
    (a : Flushing) (t : FlushTask) (files : Files)
    → t.manifest_path ≢ t.sstable_path
    → (process_task a t files).1 ≡ true
    → find t.sstable_path (process_task a t files).0 ≡ some (write_table t.entries)
unfolding process_task
process_task-table a t files ne =
    let w = write_to a.table t.sstable_path (write_table t.entries) files in
    if_intro
      (λ (r : Files × Bool). r.1 ≡ true → find t.sstable_path r.0 ≡ some (write_table t.entries))
      (not w.1) (λ _ h. absurd (ground arith))
      (λ e h.
        opened-find a t w.0 t.sstable_path
          (ground (arith, bytes_eq_iff t.manifest_path t.sstable_path))
        ∙ write_to-well a.table (write_table t.entries) t.sstable_path files (ground arith))

-- A system that carries out every output.
abbrev pub all_well : Flushing
all_well = record { table = all_written; opening = all_written; appending = all_written }

-- A task with a manifest path whose outputs all go well is reported as complete.
pub process_task-reports :
    (t : FlushTask) (files : Files)
    → t.manifest_path ≢ []
    → (process_task all_well t files).1 ≡ true
unfolding process_task write_to open_manifest list_table append_sstable append_to
process_task-reports t files ne = ground arith

-- The tasks, one after the other.
pub process_all : (FlushTask → Flushing) → List FlushTask → Files → Files
process_all answers [] files = files
process_all answers (t ∷ ts) files = process_all answers ts (process_task (answers t) t files).0

-- The paths of the tasks that go well, in order, where each finds what those before it have left.
pub reported : (FlushTask → Flushing) → List FlushTask → Files → List Bytes
reported answers [] files = []
reported answers (t ∷ ts) files =
    let done = process_task (answers t) t files in
    let rest = reported answers ts done.0 in if done.1 then t.sstable_path ∷ rest else rest

complete_task-fields :
    (t : FlushTask) (ok : Bool) (w : FlushWorker)
    → ((complete_task t ok w).stopping ≡ w.stopping) × ((complete_task t ok w).tasks ≡ w.tasks)
unfolding complete_task
complete_task-fields t ok w = ground arith

complete_task-completions :
    (t : FlushTask) (ok : Bool) (w : FlushWorker) (rest : List Bytes)
    → (complete_task t ok w).completions ++ rest
      ≡ w.completions ++ (if ok then t.sstable_path ∷ rest else rest)
unfolding complete_task
complete_task-completions t ok w rest =
    ground (arith, append_assoc w.completions (t.sstable_path ∷ []) rest)

take_task-takes :
    (w : FlushWorker) (t : FlushTask) (ts : List FlushTask)
    → w.tasks ≡ t ∷ ts
    → take_task w ≡ takes t (record w { tasks = ts })
unfolding take_task
take_task-takes w t ts e = ground arith

abbrev Drains : (FlushTask → Flushing) → ℕ → List FlushTask → FlushWorker → Files → Type 0
Drains answers fuel ts w files =
    (v : FlushWorker) × (run answers fuel (w, files) ≡ ended v (process_all answers ts files))
    × (v.tasks ≡ [])
    × (v.completions ≡ w.completions ++ reported answers ts files)

run-Drains :
    (answers : FlushTask → Flushing) (fuel : ℕ) (ts : List FlushTask) (w : FlushWorker)
    (files : Files)
    → w.stopping ≡ true
    → w.tasks ≡ ts
    → length ts < fuel
    → Drains answers fuel ts w files
unfolding run process_all reported
run-Drains answers zero ts w files s e h = absurd (omega arith)
run-Drains answers (suc fuel) [] w files s e h =
    (w, unfold take_task in ground arith, e, sym (append-nil w.completions))
run-Drains answers (suc fuel) (t ∷ ts) w files s e h =
    let rest : FlushWorker = record w { tasks = ts } in
    let done = process_task (answers t) t files in
    let kept = complete_task-fields t done.1 rest in
    let (v, over, none_left, told) =
      run-Drains answers fuel ts (work answers t rest files).0 (work answers t rest files).1
        (unfold work in (kept.0 ∙ s)) (unfold work in kept.1) (omega arith) in
    (
      v,
      rw (take_task-takes w t ts e, run) (unfold work in over),
      none_left,
      unfold work in (told ∙ complete_task-completions t done.1 rest (reported answers ts done.0)),
    )

-- When the thread is told to stop, it first works all tasks off, in order: with a round to spare, it
-- leaves its loop and does not wait, no task is left, the files are those that the tasks leave, one
-- after the other, and the completions behind the old ones are the paths of the tasks that went well.
pub run-drains :
    (answers : FlushTask → Flushing) (fuel : ℕ) (w : FlushWorker) (files : Files)
    → w.stopping ≡ true
    → length w.tasks < fuel
    → (v : FlushWorker) × (run answers fuel (w, files)
        ≡ ended v (process_all answers w.tasks files))
      × (v.tasks ≡ [])
      × (v.completions ≡ w.completions ++ reported answers w.tasks files)
run-drains answers fuel w files s h = run-Drains answers fuel w.tasks w files s refl h
