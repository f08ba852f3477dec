-- ===== src/Executor/Pool/Tests.antt =====
-- A pool of two workers with two tasks, stopped and joined, and the theorems on it.
use instant_tensor.Base.{arith, ℕ, ◌+◌, ◌≤◌, ◌⊎◌, refl, true, false, [], ◌∷◌}
use instant_tensor.Base.Int.{pos}
use instant_tensor.Executor.{ExecutorResultItem}
use instant_tensor.Executor.Lifecycle.{make_task, make_stop, submit, start}
use instant_tensor.Executor.Driver.{Task, process_tasks}
use instant_tensor.Executor.Pool.{
  polling, holding, pushing, Pool, new_pool, takes, processes, works, starts, submits, stops,
  pushes_stop, Reachable, fresh, steps,
}
use instant_tensor.Executor.Pool.Moves.{IsAccounted, IsDistinct}
use instant_tensor.Executor.Pool.Account.{Reachable-IsAccounted}
use instant_tensor.Executor.Pool.Join.{
  work, Run, here, further, IsJoined, CanStep, IsFull, join_returns,
}

abbrev five : Task ℕ
five = make_task (pos 5) (λ _. 50) true

abbrev six : Task ℕ
six = make_task (pos 6) (λ _. 60) true

abbrev result_five : ExecutorResultItem ℕ
result_five = record { request_id = pos 5; value = 50 }

abbrev running : Pool ℕ
running = record (new_pool {V = ℕ}) {
  core = record { task_queue = []; started = true; stop_requested = false; worker_count = 2 };
  workers = polling ∷ polling ∷ [];
}

abbrev busy : Pool ℕ
busy = record running {
  core = record running.core { task_queue = five ∷ six ∷ [] };
  submitted = five ∷ six ∷ [];
}

abbrev stopped : Pool ℕ
stopped = record busy {
  core = record busy.core {
    task_queue = five ∷ six ∷ make_stop ∷ make_stop ∷ [];
    stop_requested = true;
  };
}

abbrev taken : Pool ℕ
taken = record stopped {
  core = record stopped.core { task_queue = six ∷ make_stop ∷ make_stop ∷ [] };
  workers = holding five ∷ polling ∷ [];
}

abbrev later : Pool ℕ
later = record taken { workers = pushing (result_five ∷ []) ∷ polling ∷ [] }

busy-Reachable : Reachable 8 8 busy
unfolding start submit
busy-Reachable =
    steps
      (steps (steps fresh (starts 2 running.core refl)) (
        submits (pos 5) (λ _. 50) true (record running.core { task_queue = five ∷ [] }) refl
          (omega arith) refl))
      (submits (pos 6) (λ _. 60) true busy.core refl (omega arith) refl)

stopped-Reachable : Reachable 8 8 stopped
stopped-Reachable =
    steps (steps (steps busy-Reachable (stops refl refl)) (pushes_stop 1 refl (omega arith)))
      (pushes_stop 0 refl (omega arith))

taken-Reachable : Reachable 8 8 taken
taken-Reachable =
    steps stopped-Reachable
      (works (takes [] (polling ∷ []) five (six ∷ make_stop ∷ make_stop ∷ []) refl refl))

taken-IsAccounted_example : IsAccounted taken × IsDistinct taken
taken-IsAccounted_example = Reachable-IsAccounted 8 8 taken taken-Reachable

two_steps : Run 8 8 stopped 2 later
unfolding process_tasks
two_steps =
    further
      (further here (takes [] (polling ∷ []) five (six ∷ make_stop ∷ make_stop ∷ []) refl refl))
      (processes [] (polling ∷ []) five (result_five ∷ []) refl refl)

join_returns_example :
    (2 + work later ≤ work stopped) × (IsJoined 8 8 later ⊎ CanStep 8 8 later ⊎ IsFull 8 8 later)
join_returns_example = join_returns 8 8 stopped later 2 stopped-Reachable (refl, refl) two_steps
