-- ===== src/Executor/Pool/Reaping.antt =====
-- The reaper's calls are sequences of steps of the pool.
use instant_tensor.Base.{
  ℕ, zero, suc, ◌≡◌, refl, sym, subst, ◌∙◌, Bool-cases, true, inl, inr, Option-cases, List-cases,
  Option, none, some, List, [], ◌∷◌, ◌++◌, append-nil, same_some, arith,
}
use instant_tensor.Base.Int.{ℤ}
use instant_tensor.Executor.{
  ExecutorResultItem, Reaper, cached, same_id, find, take_until_ready, try_reap,
}
use instant_tensor.Executor.ListQueue.{list_queue}
use instant_tensor.Executor.Results.{same_id-eq}
use instant_tensor.Executor.Reap.{try_reap_miss, try_reap_hit, take_cons, take_nil}
use instant_tensor.Executor.Pool.{Pool, caches, reaps, reaps_cached, Reachable, steps}

module _ {V : Type 0} where
  -- What a call that gave out a result, or none, delivers.
  abbrev pub given : ℤ → Option V → List (ExecutorResultItem V)
  given id none = []
  given id (some v) = record { request_id = id; value = v } ∷ []

  abbrev pub after : Pool V → ℤ → Option V × Reaper V (List (ExecutorResultItem V)) → Pool V
  after s id (r, reaper) = record s { reaper = reaper; delivered = s.delivered ++ given id r }

module _ {V : Type 0} (task_capacity result_capacity : ℕ) where
  nothing_given :
      (s : Pool V) (id : ℤ)
      → Reachable task_capacity result_capacity s
      → Reachable task_capacity result_capacity (after s id (none, s.reaper))
  nothing_given s id h =
      subst (λ l. Reachable task_capacity result_capacity (record s { delivered = l }))
        (sym (append-nil s.delivered)) h

  -- The oldest result is given out under its id.
  oldest_given :
      (s : Pool V) (id : ℤ) (item : ExecutorResultItem V) (rest : List (ExecutorResultItem V))
      → s.reaper.result_queue ≡ item ∷ rest
      → same_id item.request_id id ≡ true
      → Reachable task_capacity result_capacity s
      → Reachable task_capacity result_capacity
          (after s id (some item.value, record s.reaper { result_queue = rest }))
  oldest_given s id item rest f here h =
      subst
        (λ i.
          Reachable task_capacity result_capacity
            (after s i (some item.value, record s.reaper { result_queue = rest })))
        (same_id-eq item.request_id id here) (steps h (reaps item rest f))

  take_until_ready-Reachable :
      (fuel : ℕ) (s : Pool V) (id : ℤ) (out : Option V × Reaper V (List (ExecutorResultItem V)))
      → take_until_ready (list_queue (ExecutorResultItem V)) fuel s.reaper id ≡ some out
      → Reachable task_capacity result_capacity s
      → Reachable task_capacity result_capacity (after s id out)
  unfolding take_until_ready
  take_until_ready-Reachable zero s id out e h = absurd (ground arith)
  take_until_ready-Reachable (suc fuel) s id out e h = elim (List-cases s.reaper.result_queue) [
    | inl empty ↦
        let stays = take_nil (list_queue (ExecutorResultItem V)) fuel s.reaper id (rw empty refl) in
        subst (λ o. Reachable task_capacity result_capacity (after s id o)) (same_some _ stays e)
          (nothing_given s id h)
    | inr (item, rest, f) ↦
        let round =
          take_cons (list_queue (ExecutorResultItem V)) fuel s.reaper id item rest (rw f refl) in
        elim (Bool-cases (same_id item.request_id id)) [
          | inl here ↦
              subst (λ o. Reachable task_capacity result_capacity (after s id o))
                {x = (some item.value, record s.reaper { result_queue = rest })}
                (same_some _ (round ∙ rw here refl) e) (oldest_given s id item rest f here h)
          | inr other ↦
              take_until_ready-Reachable fuel (record s { reaper = cached s.reaper item rest }) id
                out (sym (round ∙ rw other refl) ∙ e) (steps h (caches item rest f))
        ]
  ]

  -- A call of `try_reap` that ends leaves a pool that its steps reach, and has delivered what it gave
  -- out, under the id that it was asked for.
  pub try_reap-Reachable :
      (fuel : ℕ) (s : Pool V) (id : ℤ) (out : Option V × Reaper V (List (ExecutorResultItem V)))
      → try_reap (list_queue (ExecutorResultItem V)) fuel s.reaper id ≡ some out
      → Reachable task_capacity result_capacity s
      → Reachable task_capacity result_capacity (after s id out)
  try_reap-Reachable fuel s id out e h = elim (Option-cases (find s.reaper.completed_results id)) [
    | inl miss ↦
        take_until_ready-Reachable fuel s id out
          (sym (try_reap_miss (list_queue (ExecutorResultItem V)) fuel s.reaper id miss) ∙ e) h
    | inr (v, hit) ↦
        subst (λ o. Reachable task_capacity result_capacity (after s id o))
          (same_some _ (try_reap_hit (list_queue (ExecutorResultItem V)) fuel s.reaper id v hit) e)
          (steps h (reaps_cached id v hit))
  ]
