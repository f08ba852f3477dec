-- ===== src/Executor/Driver.antt =====
-- FunctionWorkerDriver of csrc/instant_tensor/function_executor.hpp, and the worker loop of
-- ExecutorCore on it, for one worker: the queue is the list of the items to pop, the oldest first.
use instant_tensor.Base.{
  ℕ, zero, suc, ◌≡◌, refl, sym, ap, ◌∙◌, Bool, true, false, not, ◌&&◌, if◌then◌else◌, Option, none,
  some, List, [], ◌∷◌, ◌++◌, map, length, append-nil, append_assoc,
}
use instant_tensor.Base.Int.{ℤ}
use instant_tensor.Executor.{ExecutorResultItem, executor_stop_request_id, same_id}
use instant_tensor.Executor.Lifecycle.{ExecutorTaskItem, make_task, make_stop, is_stop}

abbrev pub Task : Type 0 → Type 0
Task V = ExecutorTaskItem (Unit {0} → V)

-- The member `pending_task`.
abbrev pub Driver : Type 0 → Type 0
Driver V = Option (Task V)

-- What the loop that takes tasks ends with: the stop item, or a working set.
pub data Received (V : Type 0) : Type 0 where
  returned : List (Task V) → Received V
  working : Driver V → List (Task V) → Bool → Received V

-- A call of submit: an id, a function, and whether its result is wanted.
abbrev pub Call : Type 0 → Type 0
Call V = ℤ × (Unit {0} → V) × Bool

module _ {V : Type 0} where
  abbrev pub can_add_task : Driver V → Bool
  can_add_task none = true
  can_add_task (some task) = false

  abbrev pub has_pending_tasks : Driver V → Bool
  has_pending_tasks none = false
  has_pending_tasks (some task) = true

  -- The results and the driver; `none` is the call through an empty payload, undefined in C++.
  unfoldable pub process_tasks : Driver V → Option (List (ExecutorResultItem V) × Driver V)
  process_tasks none = some ([], none)
  process_tasks (some task) = elim task.payload [
    | none ↦ none
    | some run ↦
        let result : ExecutorResultItem V = record {
          request_id = task.request_id;
          value = run tt;
        } in
        some (if not task.needs_result then [] else result ∷ [], none)
  ]

  unfoldable pub receive : Driver V → List (Task V) → Bool → Received V
  receive driver [] received_task = working driver [] received_task
  receive driver (task ∷ queue) received_task =
      let rest = receive (some task) queue true in
      if can_add_task driver
      then (if is_stop task then returned queue else rest)
      else working driver (task ∷ queue) received_task

  -- On fuel, one unit for a round: the results pushed, and what is left in the queue.
  unfoldable pub worker_loop :
      ℕ
      → Driver V
      → List (Task V)
      → List (ExecutorResultItem V)
      → Option (List (ExecutorResultItem V) × List (Task V))
  worker_loop zero driver queue results = none
  worker_loop (suc fuel) driver queue results = elim (receive driver queue false) [
    | returned queue' ↦ some (results, queue')
    | working driver' queue' received_task ↦
        let idle = worker_loop fuel driver' queue' results in
        if not received_task && not (has_pending_tasks driver')
        then idle
        else elim (process_tasks driver') [
          | none ↦ none
          | some (items, driver'') ↦ worker_loop fuel driver'' queue' (results ++ items)
        ]
  ]

  abbrev pub task_of : Call V → Task V
  task_of (id, run, needs_result) = make_task id run needs_result

  abbrev pub AllAllowed : List (Call V) → Type 0
  AllAllowed [] = Unit
  AllAllowed (call ∷ calls) = (same_id call.0 executor_stop_request_id ≡ false) × AllAllowed calls

  -- The wanted results, in the order of the calls.
  abbrev pub outcome : List (Call V) → List (ExecutorResultItem V)
  outcome [] = []
  outcome ((id, run, needs_result) ∷ calls) =
      let rest = outcome calls in
      if needs_result then record { request_id = id; value = run tt } ∷ rest else rest

  receive-busy :
      (task : Task V) (queue : List (Task V))
      → receive (some task) queue true ≡ working (some task) queue true
  unfolding receive
  receive-busy task [] = refl
  receive-busy task (t ∷ queue) = refl

  worker_round :
      (fuel : ℕ) (id : ℤ) (run : Unit {0} → V) (needs : Bool) (queue : List (Task V))
      (results : List (ExecutorResultItem V))
      → same_id id executor_stop_request_id ≡ false
      → worker_loop (suc fuel) none (make_task id run needs ∷ queue) results
        ≡ worker_loop fuel none queue
            (results ++ (if needs then record { request_id = id; value = run tt } ∷ [] else []))
  unfolding worker_loop receive process_tasks
  worker_round fuel id run true queue results e =
      rw (e, receive-busy (make_task id run true) queue) refl
  worker_round fuel id run false queue results e =
      rw (e, receive-busy (make_task id run false) queue) refl

  outcome_step :
      (id : ℤ) (run : Unit {0} → V) (needs : Bool) (calls : List (Call V))
      (results : List (ExecutorResultItem V))
      → (results ++ (if needs then record { request_id = id; value = run tt } ∷ [] else []))
          ++ outcome calls
        ≡ results ++ outcome ((id, run, needs) ∷ calls)
  outcome_step id run true calls results = append_assoc results _ _
  outcome_step id run false calls results = ap (λ l. l ++ outcome calls) (append-nil results)

  -- A worker of functions that finds the tasks of calls and a stop item in the queue ends after a
  -- round for each call and one more, leaves what is behind the stop item, and has pushed the
  -- results that the calls want, each under its id, in the order of the calls.
  pub worker_loop_lem :
      (calls : List (Call V)) (rest : List (Task V)) (results : List (ExecutorResultItem V))
      → AllAllowed calls
      → worker_loop (suc (length calls)) none (map task_of calls ++ make_stop ∷ rest) results
        ≡ some (results ++ outcome calls, rest)
  unfolding worker_loop receive
  worker_loop_lem [] rest results h = ap (λ l. some (l, rest)) (sym (append-nil results))
  worker_loop_lem ((id, run, needs) ∷ calls) rest results (h, all) =
      worker_round (suc (length calls)) id run needs (map task_of calls ++ make_stop ∷ rest) results
        h
      ∙ worker_loop_lem calls rest
          (results ++ (if needs then record { request_id = id; value = run tt } ∷ [] else [])) all
      ∙ ap (λ l. some (l, rest)) (outcome_step id run needs calls results)
