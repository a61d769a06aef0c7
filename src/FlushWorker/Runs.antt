-- ===== src/FlushWorker/Runs.antt =====
-- The worker with other threads at work: every run is a sequence of steps.
use veri_store.Common.{◌≡◌, Bool, true, false, Option, none, some, List, [], ◌∷◌, ◌++◌, Bytes}
use veri_store.Files.{Files}
use veri_store.FlushWorker.{
  FlushTask, FlushWorker, new_worker, start, request_stop, finish_stop, enqueue, takes, take_task,
  Flushing, process_task, complete_task, poll_completion,
}

-- The worker's state, the task that its thread has taken, and the files.
pub record System : Type 0 where
  pub worker : FlushWorker
  pub current : Option FlushTask
  pub files : Files

-- A task that the thread is done with: what the system answered to its outputs, whether the thread
-- came to report it, and the files behind it.
pub record Finished : Type 0 where
  pub task : FlushTask
  pub answers : Flushing
  pub reports : Bool
  pub left : Files

abbrev pub finish : Flushing → FlushTask → Files → Finished
finish a t files =
    let done = process_task a t files in
    record { task = t; answers = a; reports = done.1; left = done.0 }

-- What a poll hands out.
abbrev pub given : Option Bytes → List Bytes
given none = []
given (some path) = path ∷ []

-- A run from a new worker: the tasks that were accepted, those that the thread is done with, and the
-- paths that were polled.
pub data Run (files : Files) : List FlushTask → List Finished → List Bytes → System → Type 0 where
  begins : Run files [] [] [] (record { worker = new_worker; current = none; files = files })
  starts :
      {accepted : List FlushTask} {finished : List Finished} {polled : List Bytes} {s : System}
      → Run files accepted finished polled s
      → Run files accepted finished polled (record s { worker = start s.worker })
  stops :
      {accepted : List FlushTask} {finished : List Finished} {polled : List Bytes} {s : System}
      → Run files accepted finished polled s
      → Run files accepted finished polled (record s { worker = request_stop s.worker })
  stopped :
      {accepted : List FlushTask} {finished : List Finished} {polled : List Bytes} {s : System}
      → Run files accepted finished polled s
      → Run files accepted finished polled (record s { worker = finish_stop s.worker })
  accepts :
      {accepted : List FlushTask} {finished : List Finished} {polled : List Bytes} {s : System}
      (t : FlushTask)
      → Run files accepted finished polled s
      → (enqueue t s.worker).1 ≡ true
      → Run files
          (accepted ++ t ∷ [])
          finished
          polled
          (record s { worker = (enqueue t s.worker).0 })
  refuses :
      {accepted : List FlushTask} {finished : List Finished} {polled : List Bytes} {s : System}
      (t : FlushTask)
      → Run files accepted finished polled s
      → (enqueue t s.worker).1 ≡ false
      → Run files accepted finished polled (record s { worker = (enqueue t s.worker).0 })
  polls :
      {accepted : List FlushTask} {finished : List Finished} {polled : List Bytes} {s : System}
      → Run files accepted finished polled s
      → Run files accepted finished
          (polled ++ given (poll_completion s.worker).1)
          (record s { worker = (poll_completion s.worker).0 })
  begins_task :
      {accepted : List FlushTask} {finished : List Finished} {polled : List Bytes} {s : System}
      {t : FlushTask} {w : FlushWorker}
      → Run files accepted finished polled s
      → s.current ≡ none
      → take_task s.worker ≡ takes t w
      → Run files accepted finished polled (record s { worker = w; current = some t })
  ends_task :
      {accepted : List FlushTask} {finished : List Finished} {polled : List Bytes} {s : System}
      {t : FlushTask} (a : Flushing)
      → Run files accepted finished polled s
      → s.current ≡ some t
      → Run files accepted (finished ++ finish a t s.files ∷ []) polled (record {
        worker = complete_task t (process_task a t s.files).1 s.worker;
        current = none;
        files = (process_task a t s.files).0;
      })

abbrev pub in_hand : Option FlushTask → List FlushTask
in_hand none = []
in_hand (some t) = t ∷ []
