-- ===== src/Executor.antt =====
-- class ExecutorCore of csrc/instant_tensor/async_executor.hpp: the reaper's side, which caches the
-- results that come before the one it asks for, and the guards of submit, start and stop. The
-- queues are those of atomic_queue, a parameter.
mod Results
pub mod ListQueue
pub mod Reap
pub mod Wait
pub mod Lifecycle
pub mod Driver
pub mod Pool
pub mod Functions
mod Tests
use instant_tensor.Base.{
  ℕ, zero, suc, ◌≡◌, ◌==◌, ◌+◌, if◌then◌else◌, Bool, true, false, Option, none, some, List, [], ◌∷◌,
  ◌++◌, Result, ok, err, ◌>>=◌, ◌>>◌, guard, not,
}
use instant_tensor.Base.Int.{ℤ, pos, negsuc}

-- struct ExecutorResultItem
pub record ExecutorResultItem (V : Type 0) : Type 0 where
  pub request_id : ℤ
  pub value : V

-- A queue of atomic_queue as its consumer uses it: `contents` are the items that wait, the oldest
-- first, and `try_pop` takes the oldest.
pub record IsQueue (A Q : Type 0) : Type 0 where
  pub contents : Q → List A
  pub try_pop : Q → Option (A × Q)
  pub try_pop-empty : (q : Q) → contents q ≡ [] → try_pop q ≡ none
  pub try_pop-cons :
      (q : Q) (a : A) (rest : List A)
      → contents q ≡ a ∷ rest
      → (q' : Q) × (try_pop q ≡ some (a, q')) × (contents q' ≡ rest)

abbrev pub executor_stop_request_id : ℤ
executor_stop_request_id = negsuc 0

abbrev pub same_id : ℤ → ℤ → Bool
same_id (pos a) (pos b) = a == b
same_id (pos a) (negsuc b) = false
same_id (negsuc a) (pos b) = false
same_id (negsuc a) (negsuc b) = a == b

-- What the source uses of std::unordered_map: `emplace` keeps an entry that is there.
module _ {V : Type 0} where
  abbrev pub find : List (ExecutorResultItem V) → ℤ → Option V
  find [] id = none
  find (item ∷ rest) id = if same_id item.request_id id then some item.value else find rest id

  abbrev pub erase : List (ExecutorResultItem V) → ℤ → List (ExecutorResultItem V)
  erase [] id = []
  erase (item ∷ rest) id =
      let rest' = erase rest id in if same_id item.request_id id then rest' else item ∷ rest'

  abbrev pub emplace :
      List (ExecutorResultItem V) → ExecutorResultItem V → List (ExecutorResultItem V)
  emplace results item = elim (find results item.request_id) [
    | none ↦ results ++ (item ∷ [])
    | some v ↦ results
  ]

-- The members that the reaper computes with.
pub record Reaper (V Q : Type 0) : Type 0 where
  pub result_queue : Q
  pub completed_results : List (ExecutorResultItem V)

-- The reaper with an item in its cache.
abbrev pub cached : {V Q : Type 0} → Reaper V Q → ExecutorResultItem V → Q → Reaper V Q
cached s item q = record { result_queue = q; completed_results = emplace s.completed_results item }

-- The loops run on fuel, one unit for an item; `none` says that it ran out.
module _ {V Q : Type 0} (queue : IsQueue (ExecutorResultItem V) Q) where
  unfoldable pub take_cached_result : Reaper V Q → ℤ → Option V × Reaper V Q
  take_cached_result s request_id = elim (find s.completed_results request_id) [
    | none ↦ (none, s)
    | some v ↦ (some v, record s { completed_results = erase s.completed_results request_id })
  ]

  unfoldable pub cache_until_ready : ℕ → Reaper V Q → ℤ → Option (Bool × Reaper V Q)
  cache_until_ready zero s request_id = none
  cache_until_ready (suc fuel) s request_id = elim (queue.try_pop s.result_queue) [
    | none ↦ some (false, s)
    | some (item, q) ↦
        let rest = cache_until_ready fuel (cached s item q) request_id in
        if same_id item.request_id request_id then some (true, cached s item q) else rest
  ]

  unfoldable pub take_until_ready : ℕ → Reaper V Q → ℤ → Option (Option V × Reaper V Q)
  take_until_ready zero s request_id = none
  take_until_ready (suc fuel) s request_id = elim (queue.try_pop s.result_queue) [
    | none ↦ some (none, s)
    | some (item, q) ↦
        let rest = take_until_ready fuel (cached s item q) request_id in
        if same_id item.request_id request_id
        then some (some item.value, record s { result_queue = q })
        else rest
  ]

  unfoldable pub ready : ℕ → Reaper V Q → ℤ → Option (Bool × Reaper V Q)
  ready fuel s request_id = elim (find s.completed_results request_id) [
    | none ↦ cache_until_ready fuel s request_id
    | some v ↦ some (true, s)
  ]

  unfoldable pub try_reap : ℕ → Reaper V Q → ℤ → Option (Option V × Reaper V Q)
  try_reap fuel s request_id =
      let taken = take_cached_result s request_id in
      elim taken.0 [ none ↦ take_until_ready fuel s request_id | some v ↦ some (some v, taken.1) ]
