-- ===== src/Executor/Pool/Moves.antt =====
-- What each step of the pool does to the number of results that are on their way.
use instant_tensor.Base.{
  ℕ, ◌+◌, ◌≤◌, ◌≡◌, ◌⊎◌, same_some, subst, refl, sym, ap, ◌∙◌, Bool, true, false, Bool-cases, inl,
  inr, none, some, List, [], ◌∷◌, ◌++◌, count, one_if, count-append, sum_by-append, sum_by_replaced,
  arith,
}
use instant_tensor.Base.Int.{ℤ, pos, negsuc}
use instant_tensor.Executor.{ExecutorResultItem, cached, same_id, find, erase, emplace}
use instant_tensor.Executor.Results.{same_id-eq, find_here, find_other}
use instant_tensor.Executor.Lifecycle.{make_task, make_stop, is_stop}
use instant_tensor.Executor.Driver.{Task}
use instant_tensor.Executor.Pool.{
  Worker, polling, Pool, received, has, wanted, queued, held, outstanding,
}
use instant_tensor.Executor.Pool.Orderly.{IsTask, task_count, IsOrdered}

pub moved : (o o' d d' : ℕ) → o' + d' ≡ o + d → d ≤ d' → (o' + d' ≡ o + d) × (o' ≤ o)
moved o o' d d' e h = (e, omega arith)

pub same_id_refl : (id : ℤ) → same_id id id ≡ true
same_id_refl (pos n) = ground arith
same_id_refl (negsuc n) = ground arith

module _ {V : Type 0} where
  -- Every test counts as many wanted results of tasks as outstanding and delivered ones.
  abbrev pub IsAccounted : Pool V → Type 0
  IsAccounted s =
      (p : ExecutorResultItem V → Bool)
      → queued p s.submitted ≡ outstanding p s + count p s.delivered

  -- No two outstanding results have the same id.
  abbrev pub IsDistinct : Pool V → Type 0
  IsDistinct s = (id : ℤ) → outstanding (has id) s ≤ 1

  -- What a step that submits nothing does.
  abbrev pub Moves : Pool V → Pool V → Type 0
  Moves s s' =
      (p : ExecutorResultItem V → Bool)
      → (outstanding p s' + count p s'.delivered ≡ outstanding p s + count p s.delivered)
        × (outstanding p s' ≤ outstanding p s)

  pub held-received :
      (p : ExecutorResultItem V → Bool) (task : Task V) (queue : List (Task V))
      → IsTask task ⊎ ((task ≡ make_stop) × (task_count queue ≡ 0))
      → held p (received task) ≡ count p (wanted task)
  held-received p task queue (inl (going, run, has_run)) = rw going refl
  held-received p task queue (inr (same, rest)) =
      let stop : is_stop task ≡ true = ap is_stop same in
      rw stop (ap (λ t. count p (wanted t)) (sym same))

  pub find-count :
      (xs : List (ExecutorResultItem V)) (id : ℤ) → count (has id) xs ≡ 0 → find xs id ≡ none
  find-count [] id e = refl
  find-count (x ∷ xs) id e = elim (Bool-cases (same_id x.request_id id)) [
    | inl here ↦ absurd (ground (arith, here))
    | inr other ↦ rw other (find-count xs id (ground (arith, other)))
  ]

  pub emplace-count :
      (xs : List (ExecutorResultItem V)) (item : ExecutorResultItem V)
      (p : ExecutorResultItem V → Bool)
      → find xs item.request_id ≡ none
      → count p (emplace xs item) ≡ count p xs + one_if (p item)
  emplace-count xs item p e = rw (e, emplace) (omega (arith, count-append p xs (item ∷ [])))

  pub erase-none :
      (xs : List (ExecutorResultItem V)) (id : ℤ) → count (has id) xs ≡ 0 → erase xs id ≡ xs
  erase-none [] id e = refl
  erase-none (x ∷ xs) id e = elim (Bool-cases (same_id x.request_id id)) [
    | inl here ↦ absurd (ground (arith, here))
    | inr other ↦ rw other (ap (◌∷◌ x) (erase-none xs id (ground (arith, other))))
  ]

  pub found_first :
      (x : ExecutorResultItem V) (xs : List (ExecutorResultItem V)) (id : ℤ) (v : V)
      → same_id x.request_id id ≡ true
      → find (x ∷ xs) id ≡ some v
      → v ≡ x.value
  found_first x xs id v here e = same_some (find (x ∷ xs) id) e (find_here xs x id here)

  pub erase-count :
      (xs : List (ExecutorResultItem V)) (id : ℤ) (v : V) (p : ExecutorResultItem V → Bool)
      → find xs id ≡ some v
      → count (has id) xs ≤ 1
      → count p xs ≡ count p (erase xs id) + one_if (p (record { request_id = id; value = v }))
  erase-count [] id v p e h = absurd (ground arith)
  erase-count (x ∷ xs) id v p e h = elim (Bool-cases (same_id x.request_id id)) [
    | inl here ↦
        let same : v ≡ x.value = found_first x xs id v here e in
        let item : one_if (p x) ≡ one_if (p (record { request_id = id; value = v })) =
          rw (same, ← same_id-eq x.request_id id here) refl in
        let gone : count p (erase xs id) ≡ count p xs =
          ap (count p) (erase-none xs id (ground (arith, here))) in
        rw here (omega (arith, item, gone))
    | inr other ↦
        let rest =
          erase-count xs id v p (sym (find_other xs x id other) ∙ e) (ground (arith, other)) in
        rw other (omega (arith, rest))
  ]

  pub takes-Moves :
      (s : Pool V) (before after : List (Worker V)) (task : Task V) (queue : List (Task V))
      → s.workers ≡ before ++ polling ∷ after
      → s.core.task_queue ≡ task ∷ queue
      → IsOrdered s.core.task_queue
      → Moves s (record s {
        core = record s.core { task_queue = queue };
        workers = before ++ received task ∷ after;
      })
  takes-Moves s before after task queue e f ordered p =
      let (kind, rest) = subst IsOrdered f ordered in
      moved (outstanding p s) _ (count p s.delivered) _
        (omega (
          arith,
          ap (queued p) f,
          held-received p task queue kind,
          sum_by_replaced (held p) s.workers before after polling (received task) e,
        ))
        (omega arith)

  -- A worker, and the queue of results, with other results in place of those that they had.
  pub replaced-Moves :
      (s : Pool V) (before after : List (Worker V)) (w w' : Worker V)
      (results : List (ExecutorResultItem V))
      → s.workers ≡ before ++ w ∷ after
      → ((p : ExecutorResultItem V → Bool)
          → held p w + count p s.reaper.result_queue ≡ held p w' + count p results)
      → Moves s (record s {
        workers = before ++ w' ∷ after;
        reaper = record s.reaper { result_queue = results };
      })
  replaced-Moves s before after w w' results e same p =
      moved (outstanding p s) _ (count p s.delivered) _
        (omega (arith, same p, sum_by_replaced (held p) s.workers before after w w' e))
        (omega arith)

  pub caches-Moves :
      (s : Pool V) (item : ExecutorResultItem V) (rest : List (ExecutorResultItem V))
      → s.reaper.result_queue ≡ item ∷ rest
      → IsDistinct s
      → Moves s (record s { reaper = cached s.reaper item rest })
  caches-Moves s item rest e distinct p =
      let id = item.request_id in
      let unseen : count (has id) s.reaper.completed_results ≡ 0 =
        ground (arith, distinct id, ap (count (has id)) e, same_id_refl id) in
      moved (outstanding p s) _ (count p s.delivered) _
        (omega (
          arith,
          ap (count p) e,
          emplace-count s.reaper.completed_results item p
              (find-count s.reaper.completed_results id unseen),
        ))
        (omega arith)

  pub reaps-Moves :
      (s : Pool V) (item : ExecutorResultItem V) (rest : List (ExecutorResultItem V))
      → s.reaper.result_queue ≡ item ∷ rest
      → Moves s (record s {
        reaper = record s.reaper { result_queue = rest };
        delivered = s.delivered ++ item ∷ [];
      })
  reaps-Moves s item rest e p =
      moved (outstanding p s) _ (count p s.delivered) _
        (omega (arith, ap (count p) e, count-append p s.delivered (item ∷ [])))
        (omega (arith, count-append p s.delivered (item ∷ [])))

  pub reaps_cached-Moves :
      (s : Pool V) (id : ℤ) (value : V)
      → find s.reaper.completed_results id ≡ some value
      → IsDistinct s
      → Moves s (record s {
        reaper = record s.reaper { completed_results = erase s.reaper.completed_results id };
        delivered = s.delivered ++ record { request_id = id; value = value } ∷ [];
      })
  reaps_cached-Moves s id value e distinct p =
      let item : ExecutorResultItem V = record { request_id = id; value = value } in
      moved (outstanding p s) _ (count p s.delivered) _
        (omega (
          arith,
          erase-count s.reaper.completed_results id value p e (omega (arith, distinct id)),
          count-append p s.delivered (item ∷ []),
        ))
        (omega (arith, count-append p s.delivered (item ∷ [])))

  -- What the invariants become by a step that submits nothing.
  pub moved-IsAccounted :
      (s s' : Pool V) → Moves s s' → s'.submitted ≡ s.submitted → IsAccounted s → IsAccounted s'
  moved-IsAccounted s s' m e h p = omega (arith, ap (queued p) e, (m p).0, h p)

  pub moved-IsDistinct : (s s' : Pool V) → Moves s s' → IsDistinct s → IsDistinct s'
  moved-IsDistinct s s' m h id = omega (arith, (m (has id)).1, h id)

  -- A call of submit adds its result, if it is wanted.
  pub queued-submitted :
      (p : ExecutorResultItem V → Bool) (tasks : List (Task V)) (task : Task V)
      → queued p (tasks ++ task ∷ []) ≡ queued p tasks + count p (wanted task)
  queued-submitted p tasks task =
      omega (arith, sum_by-append (λ (t : Task V). count p (wanted t)) tasks (task ∷ []))

  -- Only the id of a task is that of its result.
  pub wanted_id :
      (id j : ℤ) (run : Unit {0} → V) (needs : Bool)
      → (count (has j) (wanted (make_task id run needs)) ≡ 0)
        ⊎ ((j ≡ id) × (count (has j) (wanted (make_task id run needs)) ≤ 1))
  wanted_id id j run false = inl refl
  wanted_id id j run true = elim (Bool-cases (same_id id j)) [
    | inl here ↦ inr (sym (same_id-eq id j here), ground arith)
    | inr other ↦ inl (ground (arith, other))
  ]
