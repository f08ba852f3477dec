-- ===== src/Executor/Pool/Orderly.antt =====
-- The queue of tasks and the workers of the pool: tasks come before stop items, and there is a stop
-- item, pushed or still to be pushed, for each worker that runs once `stop` was called.
use instant_tensor.Base.{
  ℕ, ◌≤◌, ◌≡◌, refl, ap, subst, false, not, ◌⊎◌, inl, inr, some, List, [], ◌∷◌, ◌++◌, length, count,
  sum_by, count-append, arith,
}
use instant_tensor.Executor.Lifecycle.{make_stop, is_stop}
use instant_tensor.Executor.Driver.{Task}
use instant_tensor.Executor.Pool.{Worker, polling, ended, holding, pushing, Pool}
use instant_tensor.Executor.Pool.Phases.{IsPhase}

module _ {V : Type 0} where
  -- A task of submit: a function under an id that is not that of the stop item.
  abbrev pub IsTask : Task V → Type 0
  IsTask task = (is_stop task ≡ false) × (run : Unit {0} → V) × (task.payload ≡ some run)

  abbrev pub stop_count : List (Task V) → ℕ
  stop_count queue = count is_stop queue

  abbrev pub task_count : List (Task V) → ℕ
  task_count queue = count (λ task. not (is_stop task)) queue

  abbrev pub IsOrdered : List (Task V) → Type 0
  IsOrdered [] = Unit
  IsOrdered (task ∷ queue) =
      (IsTask task ⊎ ((task ≡ make_stop) × (task_count queue ≡ 0))) × IsOrdered queue

  abbrev pub running : Worker V → ℕ
  running polling = 1
  running ended = 0
  running (holding task) = 1
  running (pushing items) = 1

  -- A worker holds tasks, never a stop item, and one result at most.
  abbrev pub IsHolding : Worker V → Type 0
  IsHolding polling = Unit
  IsHolding ended = Unit
  IsHolding (holding task) = IsTask task
  IsHolding (pushing items) = length items ≤ 1

  abbrev pub AllHold : List (Worker V) → Type 0
  AllHold [] = Unit
  AllHold (w ∷ ws) = IsHolding w × AllHold ws

  abbrev pub live : Pool V → ℕ
  live s = sum_by running s.workers

  abbrev pub PhaseOf : Pool V → Type 0
  PhaseOf s =
      IsPhase s.core.started s.core.stop_requested (stop_count s.core.task_queue)
        (task_count s.core.task_queue) s.stops_left (live s) s.core.worker_count

  abbrev pub IsOrderly : Pool V → Type 0
  IsOrderly s =
      IsOrdered s.core.task_queue
      × AllHold s.workers
      × (s.core.started ≡ false → s.workers ≡ [])
      × PhaseOf s

  pub IsOrdered-task :
      (queue : List (Task V)) (task : Task V)
      → IsOrdered queue
      → IsTask task
      → stop_count queue ≡ 0
      → IsOrdered (queue ++ task ∷ [])
  IsOrdered-task [] task h t e = (inl t, tt)
  IsOrdered-task (x ∷ queue) task (inl first, rest) t e =
      (inl first, IsOrdered-task queue task rest t (ground arith))
  IsOrdered-task (x ∷ queue) task (inr (same, none_left), rest) t e =
      absurd (ground (arith, ap is_stop same))

  pub IsOrdered-stop :
      (queue : List (Task V)) → IsOrdered queue → IsOrdered (queue ++ make_stop ∷ [])
  IsOrdered-stop [] h = (inr (refl, refl), tt)
  IsOrdered-stop (x ∷ queue) (inl first, rest) = (inl first, IsOrdered-stop queue rest)
  IsOrdered-stop (x ∷ queue) (inr (same, none_left), rest) = (
    inr (
      same,
      omega (arith, count-append (λ (t : Task V). not (is_stop t)) queue (make_stop ∷ [])),
    ),
    IsOrdered-stop queue rest,
  )

  pub AllHold-append : (xs ys : List (Worker V)) → AllHold (xs ++ ys) → AllHold xs × AllHold ys
  AllHold-append [] ys h = (tt, h)
  AllHold-append (x ∷ xs) ys (first, rest) =
      let (a, b) = AllHold-append xs ys rest in ((first, a), b)

  pub AllHold-join : (xs ys : List (Worker V)) → AllHold xs → AllHold ys → AllHold (xs ++ ys)
  AllHold-join [] ys h k = k
  AllHold-join (x ∷ xs) ys (first, rest) k = (first, AllHold-join xs ys rest k)

  -- A worker of the list, and the list with another in its place.
  pub held_at :
      (ws before after : List (Worker V)) (w : Worker V)
      → ws ≡ before ++ w ∷ after
      → AllHold ws
      → IsHolding w
  held_at ws before after w e h = (AllHold-append before (w ∷ after) (subst AllHold e h)).1.0

  pub AllHold-replaced :
      (ws before after : List (Worker V)) (w w' : Worker V)
      → ws ≡ before ++ w ∷ after
      → AllHold ws
      → IsHolding w'
      → AllHold (before ++ w' ∷ after)
  AllHold-replaced ws before after w w' e h k =
      let (a, b) = AllHold-append before (w ∷ after) (subst AllHold e h) in
      AllHold-join before (w' ∷ after) a (k, b.1)
