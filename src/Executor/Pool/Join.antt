-- ===== src/Executor/Pool/Join.antt =====
-- `join` of ExecutorCore, which the destructor calls: it stops, and waits for the workers to return.
use instant_tensor.Base.{
  ℕ, suc, ◌+◌, ◌<◌, ◌≤◌, ◌≡◌, ◌⊎◌, refl, ap, Bool, true, false, Bool-cases, inl, inr, List-cases,
  dec_lt, if◌then◌else◌, Option, none, some, List, [], ◌∷◌, ◌++◌, length, count, sum_by,
  sum_by-append, sum_by_replaced, arith,
}
use instant_tensor.Base.Int.{ℤ}
use instant_tensor.Executor.{ExecutorResultItem}
use instant_tensor.Executor.Lifecycle.{is_stop}
use instant_tensor.Executor.Driver.{Task, process_tasks}
use instant_tensor.Executor.Pool.{
  Worker, polling, ended, holding, pushing, Pool, received, wanted, queued, held, WorkerStep, takes,
  yields, processes, pushes, goes_on, works, Reachable, steps,
}
use instant_tensor.Executor.Pool.Orderly.{
  IsTask, stop_count, task_count, running, live, IsOrderly, held_at,
}
use instant_tensor.Executor.Pool.Phases.{IsPhase}
use instant_tensor.Executor.Pool.Turns.{
  process_tasks-wanted, wanted_short, WorkerStep-IsOrderly, Reachable-IsOrderly,
}
use instant_tensor.Executor.Pool.Account.{Reachable-IsAccounted}

-- The phase that `stop` leaves: nothing of it is left to push.
pub phase_joining :
    (started stop_requested : Bool) (in_queue tasks left running all : ℕ)
    → stop_requested ≡ true
    → left ≡ 0
    → IsPhase started stop_requested in_queue tasks left running all
    → (in_queue ≡ running) × (0 < all) × (running < all → tasks ≡ 0)
phase_joining false stop_requested q t l r a e f (h, i, j) = absurd (ground arith)
phase_joining true false q t l r a e f h = absurd (ground arith)
phase_joining true true q t l r a e f (h, i, j, k) = (omega arith, h, k)

module _ {V : Type 0} where
  abbrev pub task_weight : Task V → ℕ
  task_weight task = if is_stop task then 1 else 4

  abbrev pub worker_weight : Worker V → ℕ
  worker_weight polling = 0
  worker_weight ended = 0
  worker_weight (holding task) = 3
  worker_weight (pushing items) = 1 + length items

  -- The steps that the workers have yet to take.
  abbrev pub work : Pool V → ℕ
  work s = sum_by task_weight s.core.task_queue + sum_by worker_weight s.workers

  abbrev pub AllEnded : List (Worker V) → Type 0
  AllEnded [] = Unit
  AllEnded (w ∷ ws) = (w ≡ ended) × AllEnded ws

  -- `stop` was called and has pushed its items.
  abbrev pub IsStopped : Pool V → Type 0
  IsStopped s = (s.core.stop_requested ≡ true) × (s.stops_left ≡ 0)

  joining :
      (s : Pool V)
      → IsOrderly s
      → IsStopped s
      → (stop_count s.core.task_queue ≡ live s)
        × (0 < s.core.worker_count)
        × (live s < s.core.worker_count → task_count s.core.task_queue ≡ 0)
  joining s (ordered, hold, none_yet, phase) (on, none_left) =
      phase_joining s.core.started s.core.stop_requested (stop_count s.core.task_queue)
        (task_count s.core.task_queue) s.stops_left (live s) s.core.worker_count on none_left phase

  received_weight : (task : Task V) → worker_weight (received task) < task_weight task
  received_weight task = elim (Bool-cases (is_stop task)) [
    | inl stop ↦ rw stop (omega arith)
    | inr going ↦ rw going (omega arith)
  ]

  all_ended :
      (ws : List (Worker V))
      → AllEnded ws
      → (sum_by running ws ≡ 0) × ((p : ExecutorResultItem V → Bool) → sum_by (held p) ws ≡ 0)
  all_ended [] h = (refl, λ p. refl)
  all_ended (w ∷ ws) (e, h) =
      let (a, b) = all_ended ws h in
      (omega (arith, ap running e, a), λ p. omega (arith, ap (held p) e, b p))

  -- A worker that runs, if there is one.
  find_worker :
      (ws : List (Worker V))
      → AllEnded ws
        ⊎ ((before after : List (Worker V)) × (w : Worker V) × (ws ≡ before ++ w ∷ after)
            × (running w ≡ 1))
  find_worker [] = inl tt
  find_worker (polling ∷ ws) = inr ([], ws, polling, refl, refl)
  find_worker (holding task ∷ ws) = inr ([], ws, holding task, refl, refl)
  find_worker (pushing items ∷ ws) = inr ([], ws, pushing items, refl, refl)
  find_worker (ended ∷ ws) = elim (find_worker ws) [
    | inl h ↦ inl (refl, h)
    | inr (before, after, w, e, on) ↦ inr (ended ∷ before, after, w, ap (◌∷◌ ended) e, on)
  ]

  empty_queue : (queue : List (Task V)) → stop_count queue ≡ 0 → task_count queue ≡ 0 → queue ≡ []
  empty_queue [] e f = refl
  empty_queue (task ∷ queue) e f = elim (Bool-cases (is_stop task)) [
    | inl stop ↦ absurd (ground (arith, stop))
    | inr going ↦ absurd (ground (arith, going))
  ]

-- A task of submit is processed.
processing :
    {V : Type 0} (task : Task V)
    → IsTask task
    → process_tasks (some task) ≡ some (wanted task, none)
unfolding process_tasks
processing {V} task (going, run, e) = go task.request_id task.needs_result task.payload e
  where
    go :
        (id : ℤ) (needs : Bool) (payload : Option (Unit {0} → V))
        → payload ≡ some run
        → process_tasks (some (record { request_id = id; needs_result = needs; payload = payload }))
          ≡ some
              (wanted (record { request_id = id; needs_result = needs; payload = payload }), none)
    go id needs none e = absurd (ground arith)
    go id true (some run') e = refl
    go id false (some run') e = refl

module _ {V : Type 0} (task_capacity result_capacity : ℕ) where
  -- `n` steps of workers, of any of them at each time.
  pub data Run (s : Pool V) : ℕ → Pool V → Type 0 where
    here : Run s 0 s
    further :
        {n : ℕ} {t u : Pool V}
        → Run s n t
        → WorkerStep task_capacity result_capacity t u
        → Run s (suc n) u

  WorkerStep-work :
      (s s' : Pool V)
      → WorkerStep task_capacity result_capacity s s'
      → IsOrderly s
      → IsStopped s
      → (work s' < work s) × IsStopped s'
  WorkerStep-work s s' (takes before after task queue e f) h stopped = (
    omega (
      arith,
      received_weight task,
      ap (sum_by task_weight) f,
      sum_by_replaced worker_weight s.workers before after polling (received task) e,
    ),
    stopped,
  )
  WorkerStep-work s s' (yields before after e f) h stopped =
      let (same, some_worker, behind) = joining s h stopped in
      absurd (
        omega (
          arith,
          same,
          ap stop_count f,
          ap (sum_by running) e,
          sum_by-append running before (polling ∷ after),
        ))
  WorkerStep-work s s' (processes before after task items e f) h stopped = (
    omega (
      arith,
      wanted_short task,
      ap length (process_tasks-wanted task items f),
      sum_by_replaced worker_weight s.workers before after (holding task) (pushing items) e,
    ),
    stopped,
  )
  WorkerStep-work s s' (pushes before after item items e room) h stopped = (
    omega (
      arith,
      sum_by_replaced worker_weight s.workers before after (pushing (item ∷ items)) (pushing items)
          e,
    ),
    stopped,
  )
  WorkerStep-work s s' (goes_on before after e) h stopped = (
    omega (arith, sum_by_replaced worker_weight s.workers before after (pushing []) polling e),
    stopped,
  )

  Run-work :
      (s s' : Pool V) (n : ℕ)
      → Run s n s'
      → IsOrderly s
      → IsStopped s
      → (n + work s' ≤ work s) × IsOrderly s' × IsStopped s'
  Run-work s s' n here h stopped = (omega arith, h, stopped)
  Run-work s s' n (further {n = m} {t} r step) h stopped =
      let (a, b, c) = Run-work s t m r h stopped in
      let (d, e) = WorkerStep-work t s' step b c in
      (omega (arith, a, d), WorkerStep-IsOrderly task_capacity result_capacity t s' step b, e)

  Run-Reachable :
      (s s' : Pool V) (n : ℕ)
      → Run s n s'
      → Reachable task_capacity result_capacity s
      → Reachable task_capacity result_capacity s'
  Run-Reachable s s' n here h = h
  Run-Reachable s s' n (further {n = m} {t} r step) h = steps (Run-Reachable s t m r h) (works step)

  abbrev pub CanStep : Pool V → Type 0
  CanStep s = (s' : Pool V) × WorkerStep task_capacity result_capacity s s'

  abbrev pub IsFull : Pool V → Type 0
  IsFull s = result_capacity ≤ length s.reaper.result_queue

  progress :
      (s : Pool V) (before after : List (Worker V)) (w : Worker V)
      → IsOrderly s
      → s.workers ≡ before ++ w ∷ after
      → running w ≡ 1
      → CanStep s ⊎ IsFull s
  progress s before after polling h e on = elim (List-cases s.core.task_queue) [
    | inl empty ↦ inl (_, yields before after e empty)
    | inr (task, queue, f) ↦ inl (_, takes before after task queue e f)
  ]
  progress s before after ended h e on = absurd (ground arith)
  progress s before after (holding task) (ordered, hold, none_yet, phase) e on = inl (
    _,
    processes before after task (wanted task) e
        (processing task (held_at s.workers before after (holding task) e hold)),
  )
  progress s before after (pushing []) h e on = inl (_, goes_on before after e)
  progress s before after (pushing (item ∷ items)) h e on =
      elim (dec_lt (length s.reaper.result_queue) result_capacity) [
        | yes room ↦ inl (_, pushes before after item items e room)
        | no full ↦ inr (omega arith)
      ]

  -- Nothing is left: no item in the queue, no result at a worker.
  abbrev pub IsJoined : Pool V → Type 0
  IsJoined s =
      AllEnded s.workers
      × (s.core.task_queue ≡ [])
      × ((p : ExecutorResultItem V → Bool)
          → queued p s.submitted
            ≡ count p s.reaper.result_queue
              + count p s.reaper.completed_results
              + count p s.delivered)

  joined :
      (s : Pool V)
      → Reachable task_capacity result_capacity s
      → IsStopped s
      → AllEnded s.workers
      → IsJoined s
  joined s r stopped all =
      let h = Reachable-IsOrderly task_capacity result_capacity s r in
      let (same, some_worker, behind) = joining s h stopped in
      let (none_runs, none_held) = all_ended s.workers all in
      let (accounted, distinct) = Reachable-IsAccounted task_capacity result_capacity s r in
      let empty =
        empty_queue s.core.task_queue (omega (arith, same, none_runs))
          (behind (omega (arith, none_runs, some_worker))) in
      (all, empty, λ p. omega (arith, accounted p, none_held p, ap (queued p) empty))

  -- After `stop`, whatever steps the workers take in whatever order, they take `work` steps at most,
  -- none of which polls in vain; and wherever they are, they have all returned, or one can go on, or
  -- the queue of results is full. Once they have returned the queue of tasks is empty, and each wanted
  -- result of each task that was ever submitted is in the queue of results, cached or delivered.
  pub join_returns :
      (s s' : Pool V) (n : ℕ)
      → Reachable task_capacity result_capacity s
      → IsStopped s
      → Run s n s'
      → (n + work s' ≤ work s) × (IsJoined s' ⊎ CanStep s' ⊎ IsFull s')
  join_returns s s' n r stopped run =
      let (a, h, stopped') =
        Run-work s s' n run (Reachable-IsOrderly task_capacity result_capacity s r) stopped in
      (
        a,
        elim (find_worker s'.workers) [
          | inl all ↦ inl (joined s' (Run-Reachable s s' n run r) stopped' all)
          | inr (before, after, w, e, on) ↦ inr (progress s' before after w h e on)
        ],
      )
