-- ===== src/Executor/Pool/Account.antt =====
-- Each wanted result of the pool is on its way from submit to the reaper, exactly once.
use instant_tensor.Base.{
  ℕ, zero, suc, ◌+◌, ◌≤◌, ◌≡◌, subst, refl, ap, ◌∙◌, Bool, false, inl, inr, [], ◌∷◌, ◌++◌,
  replicate, count, sum_by, count-append, ok, arith,
}
use instant_tensor.Base.Int.{ℤ}
use instant_tensor.Executor.{ExecutorResultItem}
use instant_tensor.Executor.Lifecycle.{ExecutorCore, make_task, make_stop, submit, start}
use instant_tensor.Executor.Pool.{
  polling, holding, pushing, Pool, has, queued, held, outstanding, WorkerStep, takes, yields,
  processes, pushes, goes_on, Step, works, starts, submits, stops, pushes_stop, caches, reaps,
  reaps_cached, Reachable, fresh, steps,
}
use instant_tensor.Executor.Pool.Orderly.{IsOrderly}
use instant_tensor.Executor.Pool.Calls.{ok-submit, ok-start}
use instant_tensor.Executor.Pool.Turns.{process_tasks-wanted, Reachable-IsOrderly}
use instant_tensor.Executor.Pool.Moves.{
  moved, IsAccounted, IsDistinct, Moves, takes-Moves, replaced-Moves, caches-Moves, reaps-Moves,
  reaps_cached-Moves, moved-IsAccounted, moved-IsDistinct, queued-submitted, wanted_id,
}

held_polling :
    {V : Type 0} (p : ExecutorResultItem V → Bool) (n : ℕ)
    → sum_by (held p) (replicate n polling) ≡ 0
held_polling p zero = refl
held_polling p (suc n) = omega (arith, held_polling p n)

module _ {V : Type 0} (task_capacity result_capacity : ℕ) where
  abbrev Both : Pool V → Type 0
  Both s = IsAccounted s × IsDistinct s

  moved-Both : (s s' : Pool V) → Moves s s' → s'.submitted ≡ s.submitted → Both s → Both s'
  moved-Both s s' m e (h, d) = (moved-IsAccounted s s' m e h, moved-IsDistinct s s' m d)

  WorkerStep-Moves :
      (s s' : Pool V)
      → WorkerStep task_capacity result_capacity s s'
      → IsOrderly s
      → Moves s s' × (s'.submitted ≡ s.submitted)
  WorkerStep-Moves s s' (takes before after task queue e f) (ordered, hold, none_yet, phase) =
      (takes-Moves s before after task queue e f ordered, refl)
  WorkerStep-Moves s s' (yields before after e f) h = (λ p. (refl, omega arith), refl)
  WorkerStep-Moves s s' (processes before after task items e f) h = (
    replaced-Moves s before after (holding task) (pushing items) s.reaper.result_queue e
        (λ p. omega (arith, ap (count p) (process_tasks-wanted task items f))),
    refl,
  )
  WorkerStep-Moves s s' (pushes before after item items e room) h = (
    replaced-Moves s before after (pushing (item ∷ items)) (pushing items)
        (s.reaper.result_queue ++ item ∷ []) e
        (λ p. omega (arith, count-append p s.reaper.result_queue (item ∷ []))),
    refl,
  )
  WorkerStep-Moves s s' (goes_on before after e) h = (
    replaced-Moves s before after (pushing []) polling s.reaper.result_queue e (λ p. omega arith),
    refl,
  )

  submits-distinct :
      (s : Pool V) (id j : ℤ) (run : Unit {0} → V) (needs : Bool)
      → outstanding (has id) s ≡ 0
      → outstanding (has j) s ≤ 1
      → queued (has j) (s.core.task_queue ++ make_task id run needs ∷ [])
          + sum_by (held (has j)) s.workers
          + count (has j) s.reaper.result_queue
          + count (has j) s.reaper.completed_results
        ≤ 1
  submits-distinct s id j run needs unused h =
      let more = queued-submitted (has j) s.core.task_queue (make_task id run needs) in
      elim (wanted_id id j run needs) [
        | inl other ↦ omega (arith, more)
        | inr (same, one) ↦
            let none_yet : outstanding (has j) s ≡ 0 =
              ap (λ i. outstanding (has i) s) same ∙ unused in
            omega (arith, more, none_yet)
      ]

  submits-Both :
      (s : Pool V) (id : ℤ) (run : Unit {0} → V) (needs : Bool) (c : ExecutorCore (Unit {0} → V))
      → submit s.core id run needs ≡ ok c
      → outstanding (has id) s ≡ 0
      → Both s
      → Both (record s { core = c; submitted = s.submitted ++ make_task id run needs ∷ [] })
  submits-Both s id run needs c e unused (accounted, distinct) =
      let (on, going, same, allowed) = ok-submit s.core c id run needs e in
      let task = make_task id run needs in
      subst (λ c. Both (record s { core = c; submitted = s.submitted ++ task ∷ [] })) same
        (
          λ p. omega (
            arith,
            accounted p,
            queued-submitted p s.core.task_queue task,
            queued-submitted p s.submitted task,
          ),
          λ j. submits-distinct s id j run needs unused (distinct j),
        )

  starts-Moves :
      (s : Pool V) (n : ℕ) (c : ExecutorCore (Unit {0} → V))
      → start s.core n ≡ ok c
      → (s.core.started ≡ false → s.workers ≡ [])
      → Moves s (record s { core = c; workers = replicate c.worker_count polling })
  starts-Moves s n c e none_yet p =
      let (off, going, same) =
        ok-start s.core.task_queue s.core.started s.core.stop_requested s.core.worker_count n c e in
      let idle = held_polling p c.worker_count in
      moved (outstanding p s) _ (count p s.delivered) _
        (omega (
          arith,
          ap (λ (k : ExecutorCore (Unit {0} → V)). queued p k.task_queue) same,
          idle,
          ap (sum_by (held p)) (none_yet off),
        ))
        (omega arith)

  Step-Both :
      (s s' : Pool V) → Step task_capacity result_capacity s s' → IsOrderly s → Both s → Both s'
  Step-Both s s' (works w) h both =
      let (m, e) = WorkerStep-Moves s s' w h in moved-Both s s' m e both
  Step-Both s s' (starts n c e) (ordered, hold, none_yet, phase) both =
      moved-Both s s' (starts-Moves s n c e none_yet) refl both
  Step-Both s s' (submits id run needs c e room unused) h both =
      submits-Both s id run needs c e unused both
  Step-Both s s' (stops on off) h both = both
  Step-Both s s' (pushes_stop left e room) h both =
      moved-Both s s'
        (λ p. (
          omega (arith, queued-submitted p s.core.task_queue make_stop),
          omega (arith, queued-submitted p s.core.task_queue make_stop),
        ))
        refl both
  Step-Both s s' (caches item rest e) h both =
      moved-Both s s' (caches-Moves s item rest e both.1) refl both
  Step-Both s s' (reaps item rest e) h both = moved-Both s s' (reaps-Moves s item rest e) refl both
  Step-Both s s' (reaps_cached id value e) h both =
      moved-Both s s' (reaps_cached-Moves s id value e both.1) refl both

  -- However the submitter, the workers and the reaper take turns, if a task is submitted only under an
  -- id that no outstanding result has: any test of results passes as many wanted results of the tasks
  -- that were submitted as there are that pass it in the queue of tasks, at a worker, in the queue of
  -- results, in the cache, or delivered. So none is lost or doubled or changed, and no two of those
  -- that are not delivered have the same id.
  pub Reachable-IsAccounted :
      (s : Pool V) → Reachable task_capacity result_capacity s → IsAccounted s × IsDistinct s
  Reachable-IsAccounted s fresh = (λ p. refl, λ id. omega arith)
  Reachable-IsAccounted s (steps {s = before} r step) =
      Step-Both before s step (Reachable-IsOrderly task_capacity result_capacity before r)
        (Reachable-IsAccounted before r)
