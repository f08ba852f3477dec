-- ===== src/Executor/Tests.antt =====
-- A reaper and a worker over queues that are lists, and the theorems on them.
use instant_tensor.Base.{ℕ, ◌≡◌, refl, true, none, some, List, [], ◌∷◌, ◌++◌, map, arith}
use instant_tensor.Base.Int.{pos}
use instant_tensor.Executor.{ExecutorResultItem, Reaper, find, try_reap}
use instant_tensor.Executor.ListQueue.{list_queue}
use instant_tensor.Executor.Lifecycle.{make_stop}
use instant_tensor.Executor.Driver.{Call, task_of, worker_loop}
use instant_tensor.Executor.Reap.{pending, Keeps, try_reap_lem}
use instant_tensor.Executor.Wait.{wait, reap, reap_only}
use instant_tensor.Executor.Wait.Ends.{waits_end}
use instant_tensor.Executor.Functions.{
  AnyOf, returns_void, returns, make_task_fn, reap_as, reap-worker_loop,
}

abbrev Item : Type 0
Item = ExecutorResultItem ℕ

abbrev item : ℕ → ℕ → ExecutorResultItem ℕ
item id value = record { request_id = pos id; value = value }

abbrev reaper : Reaper ℕ (List (ExecutorResultItem ℕ))
reaper = record {
  result_queue = item 4 40 ∷ item 5 50 ∷ item 6 60 ∷ [];
  completed_results = item 3 30 ∷ [];
}

try_reap_example :
    (s' : Reaper ℕ (List (ExecutorResultItem ℕ))) × (try_reap (list_queue Item) 4 reaper (pos 5)
      ≡ some (find (pending (list_queue Item) reaper) (pos 5), s'))
    × (Keeps (list_queue Item) (pos 5) reaper s')
try_reap_example = try_reap_lem (list_queue Item) 4 reaper (pos 5) (omega arith)

-- The result of 7 arrives in the second yield.
waits_end_example :
    ((s' : Reaper ℕ (List Item)) × (wait
          (list_queue Item)
          (λ q more. q ++ more)
          4
          ([] ∷ (item 8 80 ∷ item 7 70 ∷ []) ∷ [])
          reaper
          (pos 7)
        ≡ some s')
      × (find (pending (list_queue Item) s') (pos 7) ≡ some 70))
    × ((s' : Reaper ℕ (List Item)) × (reap
            (list_queue Item)
            (λ q more. q ++ more)
            4
            ([] ∷ (item 8 80 ∷ item 7 70 ∷ []) ∷ [])
            reaper
            (pos 7)
          ≡ some (70, s')))
    × ((s' : Reaper ℕ (List Item)) × (reap_only
            (list_queue Item)
            (λ q more. q ++ more)
            4
            ([] ∷ (item 8 80 ∷ item 7 70 ∷ []) ∷ [])
            reaper
            (pos 7)
          ≡ some s')
        × (find s'.completed_results (pos 7) ≡ none))
waits_end_example =
    waits_end (list_queue Item) (λ q more. q ++ more) (λ q more. refl)
      ([] ∷ (item 8 80 ∷ item 7 70 ∷ []) ∷ []) 4 reaper (pos 7) 70
      (omega arith, (omega arith, (omega arith, tt))) refl

abbrev five : Call (AnyOf ℕ)
five = (pos 5, make_task_fn returns_void, true)

reap-worker_loop_example :
    (results : List (ExecutorResultItem (AnyOf ℕ))) × (s' : Reaper
      (AnyOf ℕ)
      (List (ExecutorResultItem (AnyOf ℕ))))
    × (worker_loop 3 none
          (map task_of (five ∷ (pos 6, make_task_fn (returns (λ u. 60)), true) ∷ [])
            ++ make_stop ∷ [])
          []
        ≡ some (results, []))
    × (reap_as
          (list_queue (ExecutorResultItem (AnyOf ℕ)))
          (λ q items. q ++ items)
          3
          []
          (record { result_queue = results; completed_results = [] })
          (pos 6)
        ≡ some (some 60, s'))
unfolding make_task_fn
reap-worker_loop_example =
    reap-worker_loop (five ∷ []) [] (pos 6) (returns (λ u. 60)) 3 (refl, (refl, tt)) refl
      (omega arith)
