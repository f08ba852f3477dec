-- ===== src/Executor/Pool.antt =====
-- ExecutorCore of csrc/instant_tensor/async_executor.hpp with all its threads: the submitter, the
-- workers, each with the FunctionWorkerDriver of csrc/instant_tensor/function_executor.hpp, and the
-- reaper. A step is one operation on a queue, or what a thread computes between two.
pub mod Phases
pub mod Orderly
pub mod Calls
pub mod Turns
pub mod Moves
pub mod Account
pub mod Join
pub mod Reaping
mod Tests
use instant_tensor.Base.{
  ℕ, suc, ◌+◌, ◌<◌, ◌≡◌, Bool, true, false, if◌then◌else◌, Option, none, some, List, [], ◌∷◌, ◌++◌,
  length, replicate, count, sum_by, ok,
}
use instant_tensor.Base.Int.{ℤ}
use instant_tensor.Executor.{ExecutorResultItem, Reaper, cached, same_id, find, erase}
use instant_tensor.Executor.Lifecycle.{
  ExecutorCore, make_task, make_stop, is_stop, new_core, submit, start,
}
use instant_tensor.Executor.Driver.{Task, process_tasks}

-- Where a worker is in its loop: about to take a task, with a task in its driver, with results of
-- process_tasks that are not pushed yet, or returned.
pub data Worker (V : Type 0) : Type 0 where
  polling ended : Worker V
  holding : Task V → Worker V
  pushing : List (ExecutorResultItem V) → Worker V

-- The members, the workers, and `stops_left`, the stop items that the loop of `stop` has yet to push.
-- `submitted` and `delivered` record the tasks of submit and the results that the reaper gave out.
pub record Pool (V : Type 0) : Type 0 where
  pub core : ExecutorCore (Unit {0} → V)
  pub workers : List (Worker V)
  pub reaper : Reaper V (List (ExecutorResultItem V))
  pub stops_left : ℕ
  pub submitted : List (Task V)
  pub delivered : List (ExecutorResultItem V)

module _ {V : Type 0} where
  abbrev pub new_pool : Pool V
  new_pool = record {
    core = new_core;
    workers = [];
    reaper = record { result_queue = []; completed_results = [] };
    stops_left = 0;
    submitted = [];
    delivered = [];
  }

  -- What a worker does with the item that it took.
  abbrev pub received : Task V → Worker V
  received task = if is_stop task then ended else holding task

  abbrev pub has : ℤ → ExecutorResultItem V → Bool
  has id item = same_id item.request_id id

  -- The result that a task will have, if it is wanted.
  abbrev pub wanted : Task V → List (ExecutorResultItem V)
  wanted task = elim task.payload [
    | none ↦ []
    | some run ↦
        if task.needs_result
        then record { request_id = task.request_id; value = run tt } ∷ []
        else []
  ]

  -- How many results that pass a test are still to come from tasks.
  abbrev pub queued : (ExecutorResultItem V → Bool) → List (Task V) → ℕ
  queued p tasks = sum_by (λ task. count p (wanted task)) tasks

  abbrev pub held : (ExecutorResultItem V → Bool) → Worker V → ℕ
  held p polling = 0
  held p ended = 0
  held p (holding task) = count p (wanted task)
  held p (pushing items) = count p items

  -- How many that pass it are on their way: in the queue of tasks, at a worker, in the queue of
  -- results, or cached.
  abbrev pub outstanding : (ExecutorResultItem V → Bool) → Pool V → ℕ
  outstanding p s =
      queued p s.core.task_queue
      + sum_by (held p) s.workers
      + count p s.reaper.result_queue
      + count p s.reaper.completed_results

-- A push waits for room.
module _ {V : Type 0} (task_capacity result_capacity : ℕ) where
  pub data WorkerStep (s : Pool V) : Pool V → Type 0 where
    takes :
        (before after : List (Worker V)) (task : Task V) (queue : List (Task V))
        → s.workers ≡ before ++ polling ∷ after
        → s.core.task_queue ≡ task ∷ queue
        → WorkerStep s (record s {
          core = record s.core { task_queue = queue };
          workers = before ++ received task ∷ after;
        })
    yields :
        (before after : List (Worker V))
        → s.workers ≡ before ++ polling ∷ after
        → s.core.task_queue ≡ []
        → WorkerStep s s
    processes :
        (before after : List (Worker V)) (task : Task V) (items : List (ExecutorResultItem V))
        → s.workers ≡ before ++ holding task ∷ after
        → process_tasks (some task) ≡ some (items, none)
        → WorkerStep s (record s { workers = before ++ pushing items ∷ after })
    pushes :
        (before after : List (Worker V)) (item : ExecutorResultItem V)
        (items : List (ExecutorResultItem V))
        → s.workers ≡ before ++ pushing (item ∷ items) ∷ after
        → length s.reaper.result_queue < result_capacity
        → WorkerStep s (record s {
          workers = before ++ pushing items ∷ after;
          reaper = record s.reaper { result_queue = s.reaper.result_queue ++ item ∷ [] };
        })
    goes_on :
        (before after : List (Worker V))
        → s.workers ≡ before ++ pushing [] ∷ after
        → WorkerStep s (record s { workers = before ++ polling ∷ after })

  -- The submitter's calls of submit have an id that no outstanding result has.
  pub data Step (s : Pool V) : Pool V → Type 0 where
    works : {s' : Pool V} → WorkerStep s s' → Step s s'
    starts :
        (count : ℕ) (core : ExecutorCore (Unit {0} → V))
        → start s.core count ≡ ok core
        → Step s (record s { core = core; workers = replicate core.worker_count polling })
    submits :
        (id : ℤ) (run : Unit {0} → V) (needs : Bool) (core : ExecutorCore (Unit {0} → V))
        → submit s.core id run needs ≡ ok core
        → length s.core.task_queue < task_capacity
        → outstanding (has id) s ≡ 0
        → Step s (record s { core = core; submitted = s.submitted ++ make_task id run needs ∷ [] })
    stops :
        s.core.started ≡ true
        → s.core.stop_requested ≡ false
        → Step s (record s {
          core = record s.core { stop_requested = true };
          stops_left = s.core.worker_count;
        })
    pushes_stop :
        (left : ℕ)
        → s.stops_left ≡ suc left
        → length s.core.task_queue < task_capacity
        → Step s (record s {
          core = record s.core { task_queue = s.core.task_queue ++ make_stop ∷ [] };
          stops_left = left;
        })
    caches :
        (item : ExecutorResultItem V) (rest : List (ExecutorResultItem V))
        → s.reaper.result_queue ≡ item ∷ rest
        → Step s (record s { reaper = cached s.reaper item rest })
    reaps :
        (item : ExecutorResultItem V) (rest : List (ExecutorResultItem V))
        → s.reaper.result_queue ≡ item ∷ rest
        → Step s (record s {
          reaper = record s.reaper { result_queue = rest };
          delivered = s.delivered ++ item ∷ [];
        })
    reaps_cached :
        (id : ℤ) (value : V)
        → find s.reaper.completed_results id ≡ some value
        → Step s (record s {
          reaper = record s.reaper { completed_results = erase s.reaper.completed_results id };
          delivered = s.delivered ++ record { request_id = id; value = value } ∷ [];
        })

  pub data Reachable : Pool V → Type 0 where
    fresh : Reachable new_pool
    steps : {s s' : Pool V} → Reachable s → Step s s' → Reachable s'
