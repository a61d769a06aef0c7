-- ===== src/FlushWorker/Order.antt =====
-- What becomes of the tasks in a run of the worker with other threads at work.
use veri_store.Common.{
  ◌≡◌, ◌≢◌, refl, sym, ap, ◌∙◌, Bool, true, some, List, [], ◌∷◌, ◌++◌, Bytes, All, All-append, find,
  arith, append_assoc, append-nil, if◌then◌else◌,
}
use veri_store.Files.{Files}
use veri_store.SsTable.Rows.{write_table}
use veri_store.FlushWorker.{
  FlushTask, FlushWorker, start, request_stop, finish_stop, enqueue, takes, take_task, Flushing,
  process_task, complete_task, poll_completion,
}
use veri_store.FlushWorker.Flushes.{all_well, process_task-reports, process_task-table}
use veri_store.FlushWorker.Runs.{
  System, Finished, finish, given, Run, begins, starts, stops, stopped, accepts, refuses, polls,
  begins_task, ends_task, in_hand,
}

start-tasks : (w : FlushWorker) → (start w).tasks ≡ w.tasks
unfolding start
start-tasks w = ground arith

request_stop-tasks : (w : FlushWorker) → (request_stop w).tasks ≡ w.tasks
unfolding request_stop
request_stop-tasks w = ground arith

enqueue-tasks :
    (t : FlushTask) (w : FlushWorker)
    → (enqueue t w).0.tasks ≡ (if (enqueue t w).1 then w.tasks ++ t ∷ [] else w.tasks)
unfolding enqueue
enqueue-tasks t w = ground arith

poll_completion-tasks : (w : FlushWorker) → (poll_completion w).0.tasks ≡ w.tasks
unfolding poll_completion
poll_completion-tasks w = ground arith

take_task-tasks :
    (w : FlushWorker) {t : FlushTask} {v : FlushWorker}
    → take_task w ≡ takes t v
    → w.tasks ≡ t ∷ v.tasks
unfolding take_task
take_task-tasks w e = ground arith

complete_task-tasks :
    (t : FlushTask) (ok : Bool) (w : FlushWorker) → (complete_task t ok w).tasks ≡ w.tasks
unfolding complete_task
complete_task-tasks t ok w = ground arith

-- The paths of the tasks that the thread reported.
abbrev pub reported_paths : List Finished → List Bytes
reported_paths [] = []
reported_paths (f ∷ fs) =
    let rest = reported_paths fs in if f.reports then f.task.sstable_path ∷ rest else rest

reported_paths-snoc :
    (fs : List Finished) (f : Finished)
    → reported_paths (fs ++ f ∷ [])
      ≡ reported_paths fs ++ (if f.reports then f.task.sstable_path ∷ [] else [])
reported_paths-snoc [] f = refl
reported_paths-snoc (g ∷ fs) f = ground (arith, reported_paths-snoc fs f)

abbrev pub tasks_of : List Finished → List FlushTask
tasks_of [] = []
tasks_of (f ∷ fs) = f.task ∷ tasks_of fs

tasks_of-snoc :
    (fs : List Finished) (f : Finished) → tasks_of (fs ++ f ∷ []) ≡ tasks_of fs ++ f.task ∷ []
tasks_of-snoc [] f = refl
tasks_of-snoc (g ∷ fs) f = ground (arith, tasks_of-snoc fs f)

-- A task whose outputs all go well is reported; one that is reported has left the whole table in its
-- file, if that is not the manifest.
pub record Settled (f : Finished) : Type 0 where
  pub reports_well : f.task.manifest_path ≢ [] → f.answers ≡ all_well → f.reports ≡ true
  pub table_there :
      f.task.manifest_path ≢ f.task.sstable_path
      → f.reports ≡ true
      → find f.task.sstable_path f.left ≡ some (write_table f.task.entries)

finish-Settled : (a : Flushing) (t : FlushTask) (files : Files) → Settled (finish a t files)
finish-Settled a t files = record {
  reports_well = λ ne e. ap (λ b. (process_task b t files).1) e ∙ process_task-reports t files ne;
  table_there = process_task-table a t files;
}

start-completions : (w : FlushWorker) → (start w).completions ≡ w.completions
unfolding start
start-completions w = ground arith

request_stop-completions : (w : FlushWorker) → (request_stop w).completions ≡ w.completions
unfolding request_stop
request_stop-completions w = ground arith

enqueue-completions :
    (t : FlushTask) (w : FlushWorker) → (enqueue t w).0.completions ≡ w.completions
unfolding enqueue
enqueue-completions t w = ground arith

take_task-completions :
    (w : FlushWorker) {t : FlushTask} {v : FlushWorker}
    → take_task w ≡ takes t v
    → v.completions ≡ w.completions
unfolding take_task
take_task-completions w e = ground arith

poll_completion-completions :
    (w : FlushWorker)
    → given (poll_completion w).1 ++ (poll_completion w).0.completions ≡ w.completions
unfolding poll_completion
poll_completion-completions w = ground arith

complete_task-told :
    (t : FlushTask) (ok : Bool) (w : FlushWorker)
    → (complete_task t ok w).completions ≡ w.completions ++ (if ok then t.sstable_path ∷ [] else [])
unfolding complete_task
complete_task-told t ok w = ground (arith, append-nil w.completions)

module _ {files : Files} where
  -- The accepted tasks are those done, then the one in hand, then those in the queue.
  accepted-order :
      {accepted : List FlushTask} {finished : List Finished} {polled : List Bytes} {s : System}
      → Run files accepted finished polled s
      → accepted ≡ tasks_of finished ++ (in_hand s.current ++ s.worker.tasks)
  unfolding finish_stop
  accepted-order begins = refl
  accepted-order (starts {s} r) = rw (start-tasks s.worker) (accepted-order r)
  accepted-order (stops {s} r) = rw (request_stop-tasks s.worker) (accepted-order r)
  accepted-order (stopped {s} r) = accepted-order r
  accepted-order (accepts {accepted} {finished} {polled} {s} t r e) = ground (
    arith,
    accepted-order r,
    enqueue-tasks t s.worker,
    append_assoc (tasks_of finished) (in_hand s.current ++ s.worker.tasks) (t ∷ []),
    append_assoc (in_hand s.current) s.worker.tasks (t ∷ []),
  )
  accepted-order (refuses {s} t r e) = ground (arith, accepted-order r, enqueue-tasks t s.worker)
  accepted-order (polls {s} r) = rw (poll_completion-tasks s.worker) (accepted-order r)
  accepted-order (begins_task {accepted} {finished} {polled} {s} {t} {w} r e f) =
      ground (arith, accepted-order r, take_task-tasks s.worker f, ap in_hand e)
  accepted-order (ends_task {accepted} {finished} {polled} {s} {t} a r e) = ground (
    arith,
    accepted-order r,
    complete_task-tasks t (process_task a t s.files).1 s.worker,
    ap in_hand e,
    tasks_of-snoc finished (finish a t s.files),
    append_assoc (tasks_of finished) (t ∷ []) s.worker.tasks,
  )

  -- The paths polled and those still there to poll are those of the tasks that were reported.
  told-order :
      {accepted : List FlushTask} {finished : List Finished} {polled : List Bytes} {s : System}
      → Run files accepted finished polled s
      → polled ++ s.worker.completions ≡ reported_paths finished
  unfolding finish_stop
  told-order begins = refl
  told-order (starts {s} r) = rw (start-completions s.worker) (told-order r)
  told-order (stops {s} r) = rw (request_stop-completions s.worker) (told-order r)
  told-order (stopped {s} r) = told-order r
  told-order (accepts {s} t r e) = rw (enqueue-completions t s.worker) (told-order r)
  told-order (refuses {s} t r e) = rw (enqueue-completions t s.worker) (told-order r)
  told-order (polls {polled} {s} r) =
      append_assoc polled (given (poll_completion s.worker).1)
        (poll_completion s.worker).0.completions
      ∙ (ap (λ cs. polled ++ cs) (poll_completion-completions s.worker) ∙ told-order r)
  told-order (begins_task {s} r e f) = rw (take_task-completions s.worker f) (told-order r)
  told-order (ends_task {finished} {polled} {s} {t} a r e) =
      let ok = (process_task a t s.files).1 in
      ap (λ cs. polled ++ cs) (complete_task-told t ok s.worker)
      ∙ (sym (append_assoc polled s.worker.completions (if ok then t.sstable_path ∷ [] else []))
          ∙ (ap (λ cs. cs ++ (if ok then t.sstable_path ∷ [] else [])) (told-order r)
              ∙ sym (reported_paths-snoc finished (finish a t s.files))))

  Run-Settled :
      {accepted : List FlushTask} {finished : List Finished} {polled : List Bytes} {s : System}
      → Run files accepted finished polled s
      → All Settled finished
  Run-Settled begins = tt
  Run-Settled (starts r) = Run-Settled r
  Run-Settled (stops r) = Run-Settled r
  Run-Settled (stopped r) = Run-Settled r
  Run-Settled (accepts t r e) = Run-Settled r
  Run-Settled (refuses t r e) = Run-Settled r
  Run-Settled (polls r) = Run-Settled r
  Run-Settled (begins_task r e f) = Run-Settled r
  Run-Settled (ends_task {finished} {s} {t} a r e) =
      All-append Settled finished (finish a t s.files ∷ []) (Run-Settled r)
        (finish-Settled a t s.files, tt)

-- At every moment of a run the accepted tasks are, in the order of their acceptance, those the thread
-- is done with, then the one in hand, then those in the queue. The thread drops a task that fails and
-- reports the others: the paths polled so far and those that wait to be polled are, in order, those
-- of the tasks done that did not fail. Each of these, when it was done, had its whole table in its
-- file, if that is not the manifest; a task with a manifest path whose outputs all went well is one
-- of them.
pub Run-order :
    {files : Files} {accepted : List FlushTask} {finished : List Finished} {polled : List Bytes}
    {s : System}
    → Run files accepted finished polled s
    → (accepted ≡ tasks_of finished ++ (in_hand s.current ++ s.worker.tasks))
      × (polled ++ s.worker.completions ≡ reported_paths finished)
      × All Settled finished
Run-order r = (accepted-order r, told-order r, Run-Settled r)
