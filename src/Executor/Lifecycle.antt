-- ===== src/Executor/Lifecycle.antt =====
-- submit, start, stop and join of ExecutorCore: what goes into the queue of tasks. `task_queue` is
-- the list of the items that were pushed, the oldest first; a push that waits for room returns.
use instant_tensor.Base.{
  ℕ, zero, suc, ◌<◌, ◌≡◌, refl, sym, ap, subst, ◌∙◌, Bool, true, false, not, ◌||◌, ◌==◌, Bool-cases,
  inl, inr, if◌then◌else◌, Option, none, some, List, [], ◌∷◌, ◌++◌, replicate, append-nil,
  append_assoc, Result, ok, err, ◌>>◌, guard, arith,
}
use instant_tensor.Base.Int.{ℤ}
use instant_tensor.Executor.{executor_stop_request_id, same_id}

pub record ExecutorTaskItem (P : Type 0) : Type 0 where
  pub request_id : ℤ
  pub needs_result : Bool
  pub payload : Option P

-- What submit and start throw.
pub data ExecutorError : Type 0 where
  id_reserved not_started already_started is_stopped : ExecutorError

pub record ExecutorCore (P : Type 0) : Type 0 where
  pub task_queue : List (ExecutorTaskItem P)
  pub started : Bool
  pub stop_requested : Bool
  pub worker_count : ℕ

pub one_worker : (n : ℕ) → 0 < (if n == 0 then 1 else n)
one_worker n = ground arith

module _ {P : Type 0} where
  abbrev pub make_task : ℤ → P → Bool → ExecutorTaskItem P
  make_task request_id payload needs_result = record {
    request_id = request_id;
    needs_result = needs_result;
    payload = some payload;
  }

  abbrev pub make_stop : ExecutorTaskItem P
  make_stop = record { request_id = executor_stop_request_id; needs_result = false; payload = none }

  abbrev pub is_stop : ExecutorTaskItem P → Bool
  is_stop item = same_id item.request_id executor_stop_request_id

  abbrev pub new_core : ExecutorCore P
  new_core = record { task_queue = []; started = false; stop_requested = false; worker_count = 0 }

  unfoldable pub submit : ExecutorCore P → ℤ → P → Bool → Result ExecutorError (ExecutorCore P)
  submit c request_id payload needs_result = do
    guard (not (same_id request_id executor_stop_request_id)) id_reserved
    guard c.started not_started
    guard (not c.stop_requested) is_stopped
    ok (record c { task_queue = c.task_queue ++ make_task request_id payload needs_result ∷ [] })

  -- The loop of `stop`.
  unfoldable pub push_stops : ℕ → List (ExecutorTaskItem P) → List (ExecutorTaskItem P)
  push_stops zero items = items
  push_stops (suc count) items = push_stops count (items ++ make_stop ∷ [])

  unfoldable pub stop : ExecutorCore P → ExecutorCore P
  stop c =
      if not c.started || c.stop_requested
      then c
      else record c { stop_requested = true; task_queue = push_stops c.worker_count c.task_queue }

  unfoldable pub start : ExecutorCore P → ℕ → Result ExecutorError (ExecutorCore P)
  start c num_workers = do
    guard (not c.started) already_started
    guard (not c.stop_requested) is_stopped
    ok (record c { started = true; worker_count = if num_workers == 0 then 1 else num_workers })

  -- The calls of the submitter, in any order; `join` stops first, and then waits for the workers.
  pub data Reachable : ExecutorCore P → Type 0 where
    constructed : Reachable new_core
    submitted :
        {c c' : ExecutorCore P} (id : ℤ) (payload : P) (needs : Bool)
        → Reachable c
        → submit c id payload needs ≡ ok c'
        → Reachable c'
    launched :
        {c c' : ExecutorCore P} (workers : ℕ) → Reachable c → start c workers ≡ ok c' → Reachable c'
    stopped : {c : ExecutorCore P} → Reachable c → Reachable (stop c)

  abbrev pub AllTasks : List (ExecutorTaskItem P) → Type 0
  AllTasks [] = Unit
  AllTasks (item ∷ items) = (is_stop item ≡ false) × AllTasks items

  -- The tasks come first, and behind them a stop item for each worker, once stop was called.
  abbrev pub IsQueued : ExecutorCore P → Type 0
  IsQueued c =
      (tasks : List (ExecutorTaskItem P)) × (c.task_queue
        ≡ tasks ++ (if c.stop_requested then replicate c.worker_count make_stop else []))
      × AllTasks tasks
      × (c.started ≡ true → 0 < c.worker_count)
      × (c.stop_requested ≡ true → c.started ≡ true)

  AllTasks-append :
      (tasks : List (ExecutorTaskItem P)) (item : ExecutorTaskItem P)
      → AllTasks tasks
      → is_stop item ≡ false
      → AllTasks (tasks ++ item ∷ [])
  AllTasks-append [] item all h = (h, tt)
  AllTasks-append (t ∷ tasks) item (first, all) h = (first, AllTasks-append tasks item all h)

  push_stops_lem :
      (count : ℕ) (items : List (ExecutorTaskItem P))
      → push_stops count items ≡ items ++ replicate count make_stop
  unfolding push_stops
  push_stops_lem zero items = sym (append-nil items)
  push_stops_lem (suc count) items =
      push_stops_lem count (items ++ make_stop ∷ [])
      ∙ append_assoc items (make_stop ∷ []) (replicate count make_stop)

  -- What holds of the state that a call leaves, if it does not throw.
  abbrev IfOk : (ExecutorCore P → Type 0) → Result ExecutorError (ExecutorCore P) → Type 0
  IfOk Q (err e) = Unit
  IfOk Q (ok c) = Q c

  abbrev core : List (ExecutorTaskItem P) → Bool → Bool → ℕ → ExecutorCore P
  core items started stop_requested count = record {
    task_queue = items;
    started = started;
    stop_requested = stop_requested;
    worker_count = count;
  }

  submit-IfOk :
      (items : List (ExecutorTaskItem P)) (started stop_requested : Bool) (count : ℕ) (id : ℤ)
      (payload : P) (needs : Bool)
      → IsQueued (core items started stop_requested count)
      → same_id id executor_stop_request_id ≡ false
      → IfOk IsQueued (submit (core items started stop_requested count) id payload needs)
  unfolding submit
  submit-IfOk items false stop_requested count id payload needs q fresh = rw fresh tt
  submit-IfOk items true true count id payload needs q fresh = rw fresh tt
  submit-IfOk items true false count id payload needs (tasks, e, all, working, launch) fresh =
      let item = make_task id payload needs in
      let same : items ++ item ∷ [] ≡ (tasks ++ item ∷ []) ++ [] =
        ap (λ l. l ++ item ∷ []) (e ∙ append-nil tasks) ∙ sym (append-nil (tasks ++ item ∷ [])) in
      rw fresh (tasks ++ item ∷ [], same, AllTasks-append tasks item all fresh, working, launch)

  submit-IsQueued :
      (c : ExecutorCore P) (id : ℤ) (payload : P) (needs : Bool)
      → IsQueued c
      → IfOk IsQueued (submit c id payload needs)
  unfolding submit
  submit-IsQueued c id payload needs q = elim (Bool-cases (same_id id executor_stop_request_id)) [
    | inl reserved ↦ rw reserved tt
    | inr fresh ↦
        submit-IfOk c.task_queue c.started c.stop_requested c.worker_count id payload needs q fresh
  ]

  start-IfOk :
      (items : List (ExecutorTaskItem P)) (started stop_requested : Bool) (count workers : ℕ)
      → IsQueued (core items started stop_requested count)
      → IfOk IsQueued (start (core items started stop_requested count) workers)
  unfolding start
  start-IfOk items true stop_requested count workers q = tt
  start-IfOk items false true count workers q = tt
  start-IfOk items false false count workers (tasks, e, all, working, launch) =
      (tasks, e, all, λ on. one_worker workers, λ never. ground arith)

  stop-IfOk :
      (items : List (ExecutorTaskItem P)) (started stop_requested : Bool) (count : ℕ)
      → IsQueued (core items started stop_requested count)
      → IsQueued (stop (core items started stop_requested count))
  unfolding stop
  stop-IfOk items false stop_requested count q = q
  stop-IfOk items true true count q = q
  stop-IfOk items true false count (tasks, e, all, working, launch) = (
    tasks,
    push_stops_lem count items ∙ ap (λ l. l ++ replicate count make_stop) (e ∙ append-nil tasks),
    all,
    working,
    λ on. refl,
  )

  -- However submit, start and stop are called, the queue has the submitted tasks first, none of them
  -- with the id of the stop item, and behind them nothing before the call of stop that takes effect
  -- and exactly one stop item for each worker from then on, of which there is one or more.
  pub Reachable-IsQueued : {c : ExecutorCore P} → Reachable c → IsQueued c
  Reachable-IsQueued constructed = ([], refl, tt, λ e. ground arith, λ e. ground arith)
  Reachable-IsQueued (submitted {c} {c'} id payload needs r e) =
      subst (IfOk IsQueued) e (submit-IsQueued c id payload needs (Reachable-IsQueued r))
  Reachable-IsQueued (launched {c} {c'} workers r e) = subst (IfOk IsQueued) e (
      start-IfOk c.task_queue c.started c.stop_requested c.worker_count workers
        (Reachable-IsQueued r))
  Reachable-IsQueued (stopped {c} r) =
      stop-IfOk c.task_queue c.started c.stop_requested c.worker_count (Reachable-IsQueued r)
