-- ===== src/FlushWorker/Tests.antt =====
-- One task of a worker, and the theorems about it applied there.
use veri_store.Common.{
  ◌≡◌, refl, true, false, none, some, [], ◌∷◌, ◌++◌, All, codes, find, insert, bytes_eq, bytes_lt,
  arith,
}
use veri_store.Text.{lines}
use veri_store.FlushWorker.{
  FlushTask, FlushWorker, new_worker, start, enqueue, takes, take_task, process_task, complete_task,
  poll_completion, ended, run,
}
use veri_store.FlushWorker.Flushes.{all_well, run-drains, process_all, reported}
use veri_store.FlushWorker.Runs.{
  System, Run, begins, starts, accepts, polls, begins_task, ends_task, finish, given, in_hand,
}
use veri_store.FlushWorker.Order.{tasks_of, reported_paths, Settled, Run-order}

abbrev task : FlushTask
task = record {
  sstable_path = codes "t";
  manifest_path = codes "M";
  entries = (codes "k", record { timestamp = 1; value = none } ∷ []) ∷ [];
}

done : (process_task all_well task []).1 ≡ true
unfolding process_task lines find insert bytes_eq bytes_lt
done = refl

abbrev closing : FlushWorker
closing = record { tasks = task ∷ []; completions = []; started = true; stopping = true }

run-drains_example :
    (v : FlushWorker) × (run (λ t. all_well) 2 (closing, [])
      ≡ ended v (process_all (λ t. all_well) (task ∷ []) []))
    × (v.tasks ≡ [])
    × (v.completions ≡ reported (λ t. all_well) (task ∷ []) [])
run-drains_example = run-drains (λ t. all_well) 2 closing [] refl (omega arith)

abbrev queued : FlushWorker
queued = record { tasks = task ∷ []; completions = []; started = true; stopping = false }

taken_first : take_task queued ≡ takes task (record queued { tasks = [] })
unfolding take_task
taken_first = refl

accepted_there : (enqueue task (start new_worker)) ≡ (queued, true)
unfolding enqueue start
accepted_there = refl

-- A task that was accepted, taken, worked off and polled.
abbrev behind : System
behind = record {
  worker =
      (poll_completion
        (complete_task task (process_task all_well task []).1 (record queued { tasks = [] }))).0;
  current = none;
  files = (process_task all_well task []).0;
}

behind-Run :
    Run []
      (task ∷ [])
      (finish all_well task [] ∷ [])
      (given
        (poll_completion
          (complete_task task (process_task all_well task []).1 (record queued { tasks = [] }))).1)
      behind
unfolding enqueue start
behind-Run = polls (
    ends_task
      {s = record { worker = record queued { tasks = [] }; current = some task; files = [] }}
      all_well (begins_task (accepts task (starts begins) refl) refl taken_first) refl)

Run-order_example :
    (task ∷ []
      ≡ tasks_of (finish all_well task [] ∷ []) ++ (in_hand behind.current ++ behind.worker.tasks))
    × (given
            (poll_completion (
              complete_task task
                (process_task all_well task []).1
                (record queued { tasks = [] }))).1
          ++ behind.worker.completions
        ≡ reported_paths (finish all_well task [] ∷ []))
    × All Settled (finish all_well task [] ∷ [])
Run-order_example = Run-order behind-Run

polled_path : reported_paths (finish all_well task [] ∷ []) ≡ codes "t" ∷ []
polled_path = rw done refl
