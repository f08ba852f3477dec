-- ===== src/Executor/Pool/Turns.antt =====
-- Each step of the pool keeps the order of the queue of tasks and the number of stop items.
use instant_tensor.Base.{
  ℕ, zero, suc, ◌≤◌, ◌≡◌, ◌≢◌, refl, ap, subst, Bool, true, false, not, ◌==◌, inl, inr,
  if◌then◌else◌, Option, none, some, List, [], ◌∷◌, ◌++◌, length, replicate, sum_by, count-append,
  sum_by_replaced, arith,
}
use instant_tensor.Base.Int.{ℤ}
use instant_tensor.Executor.{ExecutorResultItem, Reaper}
use instant_tensor.Executor.Lifecycle.{make_task, make_stop, is_stop, one_worker}
use instant_tensor.Executor.Driver.{Task, process_tasks}
use instant_tensor.Executor.Pool.{
  Worker, polling, ended, holding, pushing, Pool, received, wanted, WorkerStep, takes, yields,
  processes, pushes, goes_on, Step, works, starts, submits, stops, pushes_stop, caches, reaps,
  reaps_cached, Reachable, fresh, steps,
}
use instant_tensor.Executor.Pool.Phases.{
  IsPhase-same, IsPhase-ended, IsPhase-pushed, IsPhase-stopped, IsPhase-submitted, no_stops,
}
use instant_tensor.Executor.Pool.Orderly.{
  IsTask, stop_count, task_count, IsOrdered, running, IsHolding, AllHold, live, IsOrderly,
  IsOrdered-task, IsOrdered-stop, held_at, AllHold-replaced,
}
use instant_tensor.Executor.Pool.Calls.{ok-submit, ok-start}

module _ {V : Type 0} where
  -- A pool that is not started has no worker.
  has_worker :
      (ws before after : List (Worker V)) (w : Worker V) → ws ≡ before ++ w ∷ after → ws ≢ []
  has_worker ws [] after w e h = absurd (ground (arith, ap length e, ap length h))
  has_worker ws (x ∷ before) after w e h = absurd (ground (arith, ap length e, ap length h))

  -- Another worker in the place of one, the queue as it was.
  replaced-IsOrderly :
      (s : Pool V) (before after : List (Worker V)) (w w' : Worker V)
      (reaper : Reaper V (List (ExecutorResultItem V)))
      → s.workers ≡ before ++ w ∷ after
      → running w' ≡ running w
      → IsHolding w'
      → IsOrderly s
      → IsOrderly (record s { workers = before ++ w' ∷ after; reaper = reaper })
  replaced-IsOrderly s before after w w' reaper e same holds (ordered, hold, none_yet, phase) = (
    ordered,
    AllHold-replaced s.workers before after w w' e hold holds,
    λ off. absurd (has_worker s.workers before after w e (none_yet off)),
    IsPhase-same s.core.started s.core.stop_requested (stop_count s.core.task_queue)
        (task_count s.core.task_queue) s.stops_left (live s) s.core.worker_count
        (stop_count s.core.task_queue) (task_count s.core.task_queue)
        (sum_by running (before ++ w' ∷ after)) refl (omega arith)
        (omega (arith, sum_by_replaced running s.workers before after w w' e)) phase,
  )

  taken_task :
      (s : Pool V) (before after : List (Worker V)) (task : Task V) (queue : List (Task V))
      → s.workers ≡ before ++ polling ∷ after
      → s.core.task_queue ≡ task ∷ queue
      → IsTask task
      → IsOrdered queue
      → IsOrderly s
      → IsOrderly (record s {
        core = record s.core { task_queue = queue };
        workers = before ++ received task ∷ after;
      })
  taken_task s before after task queue e f (going, run, has_run) rest
        (ordered, hold, none_yet, phase) =
      rw going (
        rest,
        AllHold-replaced s.workers before after polling (holding task) e hold (going, run, has_run),
        λ off. absurd (has_worker s.workers before after polling e (none_yet off)),
        IsPhase-same s.core.started s.core.stop_requested (stop_count s.core.task_queue)
            (task_count s.core.task_queue) s.stops_left (live s) s.core.worker_count
            (stop_count queue) (task_count queue) (sum_by running (before ++ holding task ∷ after))
            (ground (arith, ap stop_count f, going)) (ground (arith, ap task_count f, going))
            (omega (arith, sum_by_replaced running s.workers before after polling (holding task) e))
            phase,
      )

  taken_stop :
      (s : Pool V) (before after : List (Worker V)) (task : Task V) (queue : List (Task V))
      → s.workers ≡ before ++ polling ∷ after
      → s.core.task_queue ≡ task ∷ queue
      → task ≡ make_stop
      → task_count queue ≡ 0
      → IsOrdered queue
      → IsOrderly s
      → IsOrderly (record s {
        core = record s.core { task_queue = queue };
        workers = before ++ received task ∷ after;
      })
  taken_stop s before after task queue e f same behind rest (ordered, hold, none_yet, phase) =
      let stop : is_stop task ≡ true = ap is_stop same in
      rw stop (
        rest,
        AllHold-replaced s.workers before after polling ended e hold tt,
        λ off. absurd (has_worker s.workers before after polling e (none_yet off)),
        IsPhase-ended s.core.started s.core.stop_requested (stop_count s.core.task_queue)
            (task_count s.core.task_queue) s.stops_left (live s) s.core.worker_count
            (stop_count queue) (task_count queue) (sum_by running (before ++ ended ∷ after))
            (ground (arith, ap stop_count f, stop)) behind
            (omega (arith, sum_by_replaced running s.workers before after polling ended e)) phase,
      )

  takes-IsOrderly :
      (s : Pool V) (before after : List (Worker V)) (task : Task V) (queue : List (Task V))
      → s.workers ≡ before ++ polling ∷ after
      → s.core.task_queue ≡ task ∷ queue
      → IsOrderly s
      → IsOrderly (record s {
        core = record s.core { task_queue = queue };
        workers = before ++ received task ∷ after;
      })
  takes-IsOrderly s before after task queue e f h =
      let (kind, rest) = subst IsOrdered f h.0 in
      elim kind [
        | inl is_task ↦ taken_task s before after task queue e f is_task rest h
        | inr (same, behind) ↦ taken_stop s before after task queue e f same behind rest h
      ]

  pub wanted_short : (task : Task V) → length (wanted task) ≤ 1
  wanted_short task = short task.request_id task.needs_result task.payload
    where
      short :
          (id : ℤ) (needs : Bool) (payload : Option (Unit {0} → V))
          → length (wanted (record { request_id = id; needs_result = needs; payload = payload }))
            ≤ 1
      short id needs none = omega arith
      short id true (some run) = omega arith
      short id false (some run) = omega arith

  pub process_tasks-wanted :
      (task : Task V) (items : List (ExecutorResultItem V))
      → process_tasks (some task) ≡ some (items, none)
      → items ≡ wanted task
  unfolding process_tasks
  process_tasks-wanted task items e = same task.request_id task.needs_result task.payload e
    where
      same :
          (id : ℤ) (needs : Bool) (payload : Option (Unit {0} → V))
          → process_tasks
              (some (record { request_id = id; needs_result = needs; payload = payload }))
            ≡ some (items, none)
          → items ≡ wanted (record { request_id = id; needs_result = needs; payload = payload })
      same id needs none e = absurd (ground (arith, e))
      same id true (some run) e = ground (arith, e)
      same id false (some run) e = ground (arith, e)

AllHold-polling : (V : Type 0) (n : ℕ) → AllHold (replicate {A = Worker V} n polling)
AllHold-polling V zero = tt
AllHold-polling V (suc n) = (tt, AllHold-polling V n)

running_polling : (V : Type 0) (n : ℕ) → sum_by running (replicate {A = Worker V} n polling) ≡ n
running_polling V zero = refl
running_polling V (suc n) = omega (arith, running_polling V n)

module _ {V : Type 0} (task_capacity result_capacity : ℕ) where
  pub WorkerStep-IsOrderly :
      (s s' : Pool V) → WorkerStep task_capacity result_capacity s s' → IsOrderly s → IsOrderly s'
  WorkerStep-IsOrderly s s' (takes before after task queue e f) h =
      takes-IsOrderly s before after task queue e f h
  WorkerStep-IsOrderly s s' (yields before after e f) h = h
  WorkerStep-IsOrderly s s' (processes before after task items e f) h =
      replaced-IsOrderly s before after (holding task) (pushing items) s.reaper e refl
        (omega (arith, wanted_short task, ap length (process_tasks-wanted task items f))) h
  WorkerStep-IsOrderly s s' (pushes before after item items e room)
        (ordered, hold, none_yet, phase) =
      replaced-IsOrderly s before after (pushing (item ∷ items)) (pushing items)
        (record s.reaper { result_queue = s.reaper.result_queue ++ item ∷ [] }) e refl
        (omega (arith, held_at s.workers before after (pushing (item ∷ items)) e hold))
        (ordered, hold, none_yet, phase)
  WorkerStep-IsOrderly s s' (goes_on before after e) h =
      replaced-IsOrderly s before after (pushing []) polling s.reaper e refl tt h

  Step-IsOrderly :
      (s s' : Pool V) → Step task_capacity result_capacity s s' → IsOrderly s → IsOrderly s'
  Step-IsOrderly s s' (works w) h = WorkerStep-IsOrderly s s' w h
  Step-IsOrderly s s' (starts n c e) (ordered, hold, none_yet, phase) =
      let (off, running_on, same) =
        ok-start s.core.task_queue s.core.started s.core.stop_requested s.core.worker_count n c e in
      let (empty, none_left) =
        no_stops s.core.started s.core.stop_requested (stop_count s.core.task_queue)
          (task_count s.core.task_queue) s.stops_left (live s) s.core.worker_count running_on
          phase in
      let all = if n == 0 then 1 else n in
      subst (λ c. IsOrderly (record s { core = c; workers = replicate c.worker_count polling }))
        same
        (
          ordered,
          AllHold-polling V all,
          λ never. absurd (ground (arith, never)),
          (one_worker n, running_polling V all, empty, none_left),
        )
  Step-IsOrderly s s' (submits id run needs c e room unused) (ordered, hold, none_yet, phase) =
      let (on, going, same, allowed) = ok-submit s.core c id run needs e in
      let task = make_task id run needs in
      let (empty, none_left) =
        no_stops s.core.started s.core.stop_requested (stop_count s.core.task_queue)
          (task_count s.core.task_queue) s.stops_left (live s) s.core.worker_count going phase in
      subst (λ c. IsOrderly (record s { core = c; submitted = s.submitted ++ task ∷ [] })) same
        (
          IsOrdered-task s.core.task_queue task ordered (allowed, run, refl) empty,
          hold,
          λ never. absurd (ground (arith, never)),
          IsPhase-submitted s.core.started s.core.stop_requested (stop_count s.core.task_queue)
              (task_count s.core.task_queue) s.stops_left (live s) s.core.worker_count
              (stop_count (s.core.task_queue ++ task ∷ []))
              (task_count (s.core.task_queue ++ task ∷ [])) on going
              (ground (arith, count-append is_stop s.core.task_queue (task ∷ []), allowed)) phase,
        )
  Step-IsOrderly s s' (stops on off) (ordered, hold, none_yet, phase) = (
    ordered,
    hold,
    none_yet,
    IsPhase-stopped s.core.started s.core.stop_requested (stop_count s.core.task_queue)
        (task_count s.core.task_queue) s.stops_left (live s) s.core.worker_count on off phase,
  )
  Step-IsOrderly s s' (pushes_stop left e room) (ordered, hold, none_yet, phase) = (
    IsOrdered-stop s.core.task_queue ordered,
    hold,
    none_yet,
    IsPhase-pushed s.core.started s.core.stop_requested (stop_count s.core.task_queue)
        (task_count s.core.task_queue) s.stops_left (live s) s.core.worker_count
        (stop_count (s.core.task_queue ++ make_stop ∷ []))
        (task_count (s.core.task_queue ++ make_stop ∷ [])) left
        (omega (arith, count-append is_stop s.core.task_queue (make_stop ∷ [])))
        (omega (
          arith,
          count-append (λ (t : Task V). not (is_stop t)) s.core.task_queue (make_stop ∷ []),
        ))
        e phase,
  )
  Step-IsOrderly s s' (caches item rest e) h = h
  Step-IsOrderly s s' (reaps item rest e) h = h
  Step-IsOrderly s s' (reaps_cached id value e) h = h

  pub Reachable-IsOrderly : (s : Pool V) → Reachable task_capacity result_capacity s → IsOrderly s
  Reachable-IsOrderly s fresh = (tt, tt, λ off. refl, (refl, refl, refl))
  Reachable-IsOrderly s (steps {s = before} r step) =
      Step-IsOrderly before s step (Reachable-IsOrderly before r)
