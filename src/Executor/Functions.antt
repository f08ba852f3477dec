-- ===== src/Executor/Functions.antt =====
-- SingleWorkerFunctionExecutor and MultiWorkerFunctionExecutor of
-- csrc/instant_tensor/function_executor.hpp: functions of any type, whose results go through a
-- std::any. `R` is the type that the caller reaps.
use instant_tensor.Base.{
  ℕ, suc, ◌<◌, ◌≡◌, refl, ap, ◌∙◌, Bool, true, false, if◌then◌else◌, Option, none, some, List, [],
  ◌∷◌, ◌++◌, map, length, Result, ok,
}
use instant_tensor.Base.Int.{ℤ}
use instant_tensor.Executor.{ExecutorResultItem, IsQueue, Reaper, find}
use instant_tensor.Executor.Results.{find-append, find_here}
use instant_tensor.Executor.ListQueue.{list_queue}
use instant_tensor.Executor.Lifecycle.{
  ExecutorCore, ExecutorError, make_stop, new_core, submit, start,
}
use instant_tensor.Executor.Driver.{
  Call, task_of, AllAllowed, outcome, worker_loop, worker_loop_lem,
}
use instant_tensor.Executor.Pool.Moves.{same_id_refl}
use instant_tensor.Executor.Wait.{reap}
use instant_tensor.Executor.Wait.Ends.{waits_end}

-- What a std::any holds: nothing, an R, or a value of another type.
pub data AnyOf (R : Type 0) : Type 0 where
  nothing other_type : AnyOf R
  holds : R → AnyOf R

-- A function, by its type of result: void, R, or another.
pub data TaskFunction (R : Type 0) : Type 0 where
  returns_void returns_other : TaskFunction R
  returns : (Unit {0} → R) → TaskFunction R

module _ {R : Type 0} where
  unfoldable pub make_task_fn : TaskFunction R → Unit {0} → AnyOf R
  make_task_fn returns_void u = nothing
  make_task_fn returns_other u = other_type
  make_task_fn (returns fn) u = holds (fn u)

  -- `none` is the exception bad_any_cast.
  abbrev pub any_cast : AnyOf R → Option R
  any_cast nothing = none
  any_cast other_type = none
  any_cast (holds value) = some value

  unfoldable pub submit_function :
      ExecutorCore (Unit {0} → AnyOf R)
      → ℤ
      → TaskFunction R
      → Bool
      → Result ExecutorError (ExecutorCore (Unit {0} → AnyOf R))
  submit_function c request_id fn needs_result = submit c request_id (make_task_fn fn) needs_result

  -- The constructors, which start the workers unless they are told not to.
  unfoldable pub single_worker : Bool → Result ExecutorError (ExecutorCore (Unit {0} → AnyOf R))
  single_worker start_executor = if start_executor then start new_core 1 else ok new_core

  unfoldable pub multi_worker : ℕ → Bool → Result ExecutorError (ExecutorCore (Unit {0} → AnyOf R))
  multi_worker num_workers start_executor =
      if start_executor then start new_core num_workers else ok new_core

  abbrev pub cast_result : {Q : Type 0} → Option (AnyOf R × Q) → Option (Option R × Q)
  cast_result none = none
  cast_result (some (result, s)) = some (any_cast result, s)

-- reap(request_id, result) of a function executor: the value, or the exception; `none` still waits.
unfoldable pub reap_as :
    {R Q : Type 0}
    → IsQueue (ExecutorResultItem (AnyOf R)) Q
    → (Q → List (ExecutorResultItem (AnyOf R)) → Q)
    → ℕ
    → List (List (ExecutorResultItem (AnyOf R)))
    → Reaper (AnyOf R) Q
    → ℤ
    → Option (Option R × Reaper (AnyOf R) Q)
reap_as queue push_all fuel arrivals s request_id =
    cast_result (reap queue push_all fuel arrivals s request_id)

outcome-append :
    {V : Type 0} (xs ys : List (Call V)) → outcome (xs ++ ys) ≡ outcome xs ++ outcome ys
outcome-append [] ys = refl
outcome-append ((id, run, true) ∷ xs) ys =
    ap (◌∷◌ (record { request_id = id; value = run tt })) (outcome-append xs ys)
outcome-append ((id, run, false) ∷ xs) ys = outcome-append xs ys

module _ {R : Type 0} where
  -- What a caller that reaps an R gets: the value of a function that returns one.
  abbrev pub value_of : TaskFunction R → Option R
  value_of returns_void = none
  value_of returns_other = none
  value_of (returns fn) = some (fn tt)

  any_cast-make_task_fn : (fn : TaskFunction R) → any_cast (make_task_fn fn tt) ≡ value_of fn
  unfolding make_task_fn
  any_cast-make_task_fn returns_void = refl
  any_cast-make_task_fn returns_other = refl
  any_cast-make_task_fn (returns fn) = refl

  find_result :
      (before after : List (Call (AnyOf R))) (id : ℤ) (run : Unit {0} → AnyOf R)
      → find (outcome before) id ≡ none
      → find (outcome (before ++ (id, run, true) ∷ after)) id ≡ some (run tt)
  find_result before after id run unused =
      let item : ExecutorResultItem (AnyOf R) = record { request_id = id; value = run tt } in
      ap (λ l. find l id) (outcome-append before ((id, run, true) ∷ after))
      ∙ find-append (outcome before) (item ∷ outcome after) id
      ∙ ap (λ o. elim o [ none ↦ find (item ∷ outcome after) id | some v ↦ some v ]) unused
      ∙ find_here (outcome after) item id (same_id_refl id)

  abbrev reaper_of :
      List (ExecutorResultItem (AnyOf R)) → Reaper (AnyOf R) (List (ExecutorResultItem (AnyOf R)))
  reaper_of results = record { result_queue = results; completed_results = [] }

  -- A worker that finds the calls and a stop item in its queue runs them all, and a caller that then
  -- reaps the id of a call whose result is wanted gets the value of its function, if no earlier
  -- result has the id, and the exception if the function returns void or another type.
  pub reap-worker_loop :
      (before after : List (Call (AnyOf R))) (id : ℤ) (fn : TaskFunction R) (fuel : ℕ)
      → AllAllowed (before ++ (id, make_task_fn fn, true) ∷ after)
      → find (outcome before) id ≡ none
      → length (outcome (before ++ (id, make_task_fn fn, true) ∷ after)) < fuel
      → (results : List (ExecutorResultItem (AnyOf R))) × (s' : Reaper
          (AnyOf R)
          (List (ExecutorResultItem (AnyOf R))))
        × (worker_loop
              (suc (length (before ++ (id, make_task_fn fn, true) ∷ after)))
              none
              (map task_of (before ++ (id, make_task_fn fn, true) ∷ after) ++ make_stop ∷ [])
              []
            ≡ some (results, []))
        × (reap_as
              (list_queue (ExecutorResultItem (AnyOf R)))
              (λ q items. q ++ items)
              fuel
              []
              (reaper_of results)
              id
            ≡ some (value_of fn, s'))
  unfolding reap_as
  reap-worker_loop before after id fn fuel allowed unused enough =
      let calls : List (Call (AnyOf R)) = before ++ (id, make_task_fn fn, true) ∷ after in
      let (w, (s', e), r) =
        waits_end (list_queue (ExecutorResultItem (AnyOf R))) (λ q items. q ++ items)
          (λ q items. refl) [] fuel (reaper_of (outcome calls)) id (make_task_fn fn tt) (enough, tt)
          (find_result before after id (make_task_fn fn) unused) in
      (
        outcome calls,
        s',
        worker_loop_lem calls [] [] allowed,
        ap cast_result e ∙ ap (λ v. some (v, s')) (any_cast-make_task_fn fn),
      )
