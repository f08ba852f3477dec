-- ===== src/Executor/Wait/Ends.antt =====
-- When the calls of csrc/instant_tensor/async_executor.hpp that wait return.
use instant_tensor.Base.{
  ℕ, ◌≡◌, refl, ap, ◌∙◌, inl, inr, Option-cases, Option, none, some, List, [], ◌∷◌, ◌++◌,
}
use instant_tensor.Base.Int.{ℤ}
use instant_tensor.Executor.{ExecutorResultItem, IsQueue, Reaper, find, erase, ready}
use instant_tensor.Executor.Results.{find-append, find_later, find_now, find-erase_self}
use instant_tensor.Executor.Reap.{
  pending, IsDry, is_some, take_until_ready_lem, cache_until_ready_lem, ready_miss, ready_hit,
}
use instant_tensor.Executor.Wait.{
  yielded, if_got, if_done, erased, wait, take_loop, cache_loop, reap, reap_only, all_items,
  AllBelow, reap_hit, reap_miss, reap_only_hit, reap_only_miss,
}

module _ {V Q : Type 0} (queue : IsQueue (ExecutorResultItem V) Q)
    (push_all : Q → List (ExecutorResultItem V) → Q)
    (contents-push_all : (q : Q) (items : List (ExecutorResultItem V))
      → queue.contents (push_all q items) ≡ queue.contents q ++ items) where
  -- A round that did not find the result leaves what arrived, and nothing else.
  arrived :
      (s : Reaper V Q) (id : ℤ) (items : List (ExecutorResultItem V))
      → IsDry queue id s
      → queue.contents (push_all s.result_queue items) ≡ items
  arrived s id items (miss, dry) = contents-push_all s.result_queue items ∙ ap (λ l. l ++ items) dry

  take_loop_lem :
      (arrivals : List (List (ExecutorResultItem V))) (items : List (ExecutorResultItem V))
      (fuel : ℕ) (s : Reaper V Q) (id : ℤ) (v : V)
      → queue.contents s.result_queue ≡ items
      → find s.completed_results id ≡ none
      → AllBelow queue push_all fuel (items ∷ arrivals)
      → find (all_items queue push_all items arrivals) id ≡ some v
      → (s' : Reaper V Q) × (take_loop queue push_all fuel arrivals s id ≡ some (v, s'))
  unfolding take_loop
  take_loop_lem [] items fuel s id v e miss (below, rest) found =
      let (s', taken, keeps, dry) = take_until_ready_lem queue items fuel s id e miss below in
      (s', ap (λ r. if_got r (λ t. none)) (taken ∙ ap (λ r. some (r, s')) found))
  take_loop_lem (more ∷ arrivals) items fuel s id v e miss (below, rest) found =
      let (s', taken, keeps, dry) = take_until_ready_lem queue items fuel s id e miss below in
      let again : Reaper V Q → Option (V × Reaper V Q) =
        λ t. take_loop queue push_all fuel arrivals (yielded push_all t more) id in
      elim (Option-cases (find items id)) [
        | inl absent ↦
            let (s'', later) =
              take_loop_lem arrivals more fuel (yielded push_all s' more) id v
                (arrived s' id more (dry absent)) (dry absent).0 rest
                (find_later items (all_items queue push_all more arrivals) id v found absent) in
            (s'', ap (λ r. if_got r again) (taken ∙ ap (λ r. some (r, s')) absent) ∙ later)
        | inr (w, here) ↦ (
          s',
          ap (λ r. if_got r again)
              (taken
                ∙ ap (λ r. some (r, s'))
                    (find_now items (all_items queue push_all more arrivals) id v w found here)),
        )
      ]

  cache_loop_lem :
      (arrivals : List (List (ExecutorResultItem V))) (items : List (ExecutorResultItem V))
      (fuel : ℕ) (s : Reaper V Q) (id : ℤ) (v : V)
      → queue.contents s.result_queue ≡ items
      → find s.completed_results id ≡ none
      → AllBelow queue push_all fuel (items ∷ arrivals)
      → find (all_items queue push_all items arrivals) id ≡ some v
      → (s' : Reaper V Q) × (cache_loop queue push_all fuel arrivals s id ≡ some s')
  unfolding cache_loop
  cache_loop_lem [] items fuel s id v e miss (below, rest) found =
      let (s', cached, keeps, dry) = cache_until_ready_lem queue items fuel s id e miss below in
      (s', ap (λ r. if_done r (λ t. none)) (cached ∙ ap (λ r. some (is_some queue r, s')) found))
  cache_loop_lem (more ∷ arrivals) items fuel s id v e miss (below, rest) found =
      let (s', cached, keeps, dry) = cache_until_ready_lem queue items fuel s id e miss below in
      let again : Reaper V Q → Option (Reaper V Q) =
        λ t. cache_loop queue push_all fuel arrivals (yielded push_all t more) id in
      elim (Option-cases (find items id)) [
        | inl absent ↦
            let (s'', later) =
              cache_loop_lem arrivals more fuel (yielded push_all s' more) id v
                (arrived s' id more (dry absent)) (dry absent).0 rest
                (find_later items (all_items queue push_all more arrivals) id v found absent) in
            (
              s'',
              ap (λ r. if_done r again) (cached ∙ ap (λ r. some (is_some queue r, s')) absent)
                  ∙ later,
            )
        | inr (w, here) ↦
            (s', ap (λ r. if_done r again) (cached ∙ ap (λ r. some (is_some queue r, s')) here))
      ]

  -- What is found in the items that are there is found among those that wait.
  pending_found :
      (s : Reaper V Q) (items : List (ExecutorResultItem V)) (id : ℤ) (v : V)
      → queue.contents s.result_queue ≡ items
      → find s.completed_results id ≡ none
      → find items id ≡ some v
      → find (pending queue s) id ≡ some v
  pending_found s items id v e miss found =
      find-append s.completed_results (queue.contents s.result_queue) id
      ∙ rw miss (ap (λ l. find l id) e ∙ found)

  pending_hit :
      (s : Reaper V Q) (id : ℤ) (v : V)
      → find s.completed_results id ≡ some v
      → find (pending queue s) id ≡ some v
  pending_hit s id v hit =
      find-append s.completed_results (queue.contents s.result_queue) id ∙ rw hit refl

  wait_lem :
      (arrivals : List (List (ExecutorResultItem V))) (items : List (ExecutorResultItem V))
      (fuel : ℕ) (s : Reaper V Q) (id : ℤ) (v : V)
      → queue.contents s.result_queue ≡ items
      → find s.completed_results id ≡ none
      → AllBelow queue push_all fuel (items ∷ arrivals)
      → find (all_items queue push_all items arrivals) id ≡ some v
      → (s' : Reaper V Q) × (wait queue push_all fuel arrivals s id ≡ some s')
        × (find (pending queue s') id ≡ some v)
  unfolding wait
  wait_lem [] items fuel s id v e miss (below, rest) found =
      let (s', cached, keeps, dry) = cache_until_ready_lem queue items fuel s id e miss below in
      (
        s',
        ap (λ r. if_done r (λ t. none))
            (ready_miss queue fuel s id miss ∙ cached ∙ ap (λ r. some (is_some queue r, s')) found),
        keeps id ∙ pending_found s items id v e miss found,
      )
  wait_lem (more ∷ arrivals) items fuel s id v e miss (below, rest) found =
      let (s', cached, keeps, dry) = cache_until_ready_lem queue items fuel s id e miss below in
      let again : Reaper V Q → Option (Reaper V Q) =
        λ t. wait queue push_all fuel arrivals (yielded push_all t more) id in
      let round : ready queue fuel s id ≡ some (is_some queue (find items id), s') =
        ready_miss queue fuel s id miss ∙ cached in
      elim (Option-cases (find items id)) [
        | inl absent ↦
            let (s'', later, there) =
              wait_lem arrivals more fuel (yielded push_all s' more) id v
                (arrived s' id more (dry absent)) (dry absent).0 rest
                (find_later items (all_items queue push_all more arrivals) id v found absent) in
            (
              s'',
              ap (λ r. if_done r again) (round ∙ ap (λ r. some (is_some queue r, s')) absent)
                  ∙ later,
              there,
            )
        | inr (w, here) ↦ (
          s',
          ap (λ r. if_done r again) (round ∙ ap (λ r. some (is_some queue r, s')) here),
          keeps id
              ∙ pending_found s items id v e miss
                  (find_now items (all_items queue push_all more arrivals) id v w found here),
        )
      ]

  wait_hit :
      (arrivals : List (List (ExecutorResultItem V))) (fuel : ℕ) (s : Reaper V Q) (id : ℤ) (v : V)
      → find s.completed_results id ≡ some v
      → wait queue push_all fuel arrivals s id ≡ some s
  unfolding wait
  wait_hit [] fuel s id v hit = ap (λ r. if_done r (λ t. none)) (ready_hit queue fuel s id v hit)
  wait_hit (more ∷ arrivals) fuel s id v hit =
      ap (λ r. if_done r (λ t. wait queue push_all fuel arrivals (yielded push_all t more) id))
        (ready_hit queue fuel s id v hit)

  -- Where the result of an id is cached, waits in the queue, or arrives in one of the yields, and
  -- the fuel is above the number of items of the queue and of each arrival, `wait` returns with
  -- it pending, `reap` returns it, the first there is, and `reap` without a result returns with
  -- none of the id in the cache.
  pub waits_end :
      (arrivals : List (List (ExecutorResultItem V))) (fuel : ℕ) (s : Reaper V Q) (id : ℤ) (v : V)
      → AllBelow queue push_all fuel (queue.contents s.result_queue ∷ arrivals)
      → find
          (s.completed_results ++ all_items queue push_all (queue.contents s.result_queue) arrivals)
          id
        ≡ some v
      → ((s' : Reaper V Q) × (wait queue push_all fuel arrivals s id ≡ some s')
          × (find (pending queue s') id ≡ some v))
        × ((s' : Reaper V Q) × (reap queue push_all fuel arrivals s id ≡ some (v, s')))
        × ((s' : Reaper V Q) × (reap_only queue push_all fuel arrivals s id ≡ some s')
            × (find s'.completed_results id ≡ none))
  waits_end arrivals fuel s id v below found =
      let items = queue.contents s.result_queue in
      elim (Option-cases (find s.completed_results id)) [
        | inl miss ↦
            let later =
              find_later s.completed_results (all_items queue push_all items arrivals) id v found
                miss in
            let (s', e) = take_loop_lem arrivals items fuel s id v refl miss below later in
            let (s'', f) = cache_loop_lem arrivals items fuel s id v refl miss below later in
            (
              wait_lem arrivals items fuel s id v refl miss below later,
              (s', reap_miss queue push_all fuel arrivals s id miss ∙ e),
              (
                record s'' { completed_results = erase s''.completed_results id },
                reap_only_miss queue push_all fuel arrivals s id miss ∙ ap (erased id) f,
                find-erase_self s''.completed_results id,
              ),
            )
        | inr (w, hit) ↦
            let now =
              find_now s.completed_results (all_items queue push_all items arrivals) id v w found
                hit in
            let kept : Reaper V Q = record s { completed_results = erase s.completed_results id } in
            (
              (s, wait_hit arrivals fuel s id v now, pending_hit s id v now),
              (kept, reap_hit queue push_all fuel arrivals s id v now),
              (
                kept,
                reap_only_hit queue push_all fuel arrivals s id v now,
                find-erase_self s.completed_results id,
              ),
            )
      ]
