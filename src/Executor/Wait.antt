-- ===== src/Executor/Wait.antt =====
-- The calls of ExecutorCore in csrc/instant_tensor/async_executor.hpp that wait: `wait` and the two
-- overloads of `reap`. Each `yield` of their loops lets the workers push results: `arrivals` lists
-- what they push at each, and `push_all` is that push. `none` is a call that still waits.
pub mod Ends
use instant_tensor.Base.{
  ℕ, ◌<◌, ◌≡◌, refl, ap, ◌∙◌, inl, inr, Option-cases, Bool, true, false, Option, none, some, List,
  [], ◌∷◌, ◌++◌, length,
}
use instant_tensor.Base.Int.{ℤ}
use instant_tensor.Executor.{
  ExecutorResultItem, IsQueue, Reaper, find, erase, take_cached_result, cache_until_ready,
  take_until_ready, ready,
}
use instant_tensor.Executor.Results.{find-append, find_later, find_now, find-erase_self}
use instant_tensor.Executor.Reap.{
  pending, IsDry, is_some, take_until_ready_lem, take_cached_hit, cache_until_ready_lem, ready_miss,
  ready_hit,
}

module _ {V Q : Type 0} where
  abbrev pub yielded :
      (Q → List (ExecutorResultItem V) → Q) → Reaper V Q → List (ExecutorResultItem V) → Reaper V Q
  yielded push_all s items = record s { result_queue = push_all s.result_queue items }

  -- A round of a loop: it ended, or goes on.
  abbrev pub if_got :
      Option (Option V × Reaper V Q)
      → (Reaper V Q → Option (V × Reaper V Q))
      → Option (V × Reaper V Q)
  if_got none again = none
  if_got (some (some v, s)) again = some (v, s)
  if_got (some (none, s)) again = again s

  abbrev pub if_done :
      Option (Bool × Reaper V Q) → (Reaper V Q → Option (Reaper V Q)) → Option (Reaper V Q)
  if_done none again = none
  if_done (some (true, s)) again = some s
  if_done (some (false, s)) again = again s

  abbrev pub erased : ℤ → Option (Reaper V Q) → Option (Reaper V Q)
  erased id none = none
  erased id (some s) = some (record s { completed_results = erase s.completed_results id })

module _ {V Q : Type 0} (queue : IsQueue (ExecutorResultItem V) Q)
    (push_all : Q → List (ExecutorResultItem V) → Q) where
  unfoldable pub wait :
      ℕ → List (List (ExecutorResultItem V)) → Reaper V Q → ℤ → Option (Reaper V Q)
  wait fuel [] s request_id = if_done (ready queue fuel s request_id) (λ s'. none)
  wait fuel (items ∷ arrivals) s request_id =
      if_done (ready queue fuel s request_id)
        (λ s'. wait fuel arrivals (yielded push_all s' items) request_id)

  unfoldable pub take_loop :
      ℕ → List (List (ExecutorResultItem V)) → Reaper V Q → ℤ → Option (V × Reaper V Q)
  take_loop fuel [] s request_id = if_got (take_until_ready queue fuel s request_id) (λ s'. none)
  take_loop fuel (items ∷ arrivals) s request_id =
      if_got (take_until_ready queue fuel s request_id)
        (λ s'. take_loop fuel arrivals (yielded push_all s' items) request_id)

  unfoldable pub cache_loop :
      ℕ → List (List (ExecutorResultItem V)) → Reaper V Q → ℤ → Option (Reaper V Q)
  cache_loop fuel [] s request_id = if_done (cache_until_ready queue fuel s request_id) (λ s'. none)
  cache_loop fuel (items ∷ arrivals) s request_id =
      if_done (cache_until_ready queue fuel s request_id)
        (λ s'. cache_loop fuel arrivals (yielded push_all s' items) request_id)

  -- reap(request_id, result)
  unfoldable pub reap :
      ℕ → List (List (ExecutorResultItem V)) → Reaper V Q → ℤ → Option (V × Reaper V Q)
  reap fuel arrivals s request_id =
      let taken = take_cached_result queue s request_id in
      elim taken.0 [ none ↦ take_loop fuel arrivals s request_id | some v ↦ some (v, taken.1) ]

  -- reap(request_id)
  unfoldable pub reap_only :
      ℕ → List (List (ExecutorResultItem V)) → Reaper V Q → ℤ → Option (Reaper V Q)
  reap_only fuel arrivals s request_id = elim (find s.completed_results request_id) [
    | none ↦ erased request_id (cache_loop fuel arrivals s request_id)
    | some v ↦ some (record s { completed_results = erase s.completed_results request_id })
  ]

  -- All that is or will be there.
  abbrev pub all_items :
      List (ExecutorResultItem V) → List (List (ExecutorResultItem V)) → List (ExecutorResultItem V)
  all_items items [] = items
  all_items items (more ∷ arrivals) = items ++ all_items more arrivals

  abbrev pub AllBelow : ℕ → List (List (ExecutorResultItem V)) → Type 0
  AllBelow fuel [] = Unit
  AllBelow fuel (items ∷ arrivals) = (length items < fuel) × AllBelow fuel arrivals

  pub reap_hit :
      (fuel : ℕ) (arrivals : List (List (ExecutorResultItem V))) (s : Reaper V Q) (id : ℤ) (v : V)
      → find s.completed_results id ≡ some v
      → reap fuel arrivals s id
        ≡ some (v, record s { completed_results = erase s.completed_results id })
  unfolding reap
  reap_hit fuel arrivals s id v e =
      rw (take_cached_hit queue s id v e, reap)
        (ap (λ r. some (v, r.1)) (take_cached_hit queue s id v e))

  pub reap_miss :
      (fuel : ℕ) (arrivals : List (List (ExecutorResultItem V))) (s : Reaper V Q) (id : ℤ)
      → find s.completed_results id ≡ none
      → reap fuel arrivals s id ≡ take_loop fuel arrivals s id
  unfolding reap take_cached_result
  reap_miss fuel arrivals s id e = rw (e, reap, take_cached_result) refl

  pub reap_only_hit :
      (fuel : ℕ) (arrivals : List (List (ExecutorResultItem V))) (s : Reaper V Q) (id : ℤ) (v : V)
      → find s.completed_results id ≡ some v
      → reap_only fuel arrivals s id
        ≡ some (record s { completed_results = erase s.completed_results id })
  unfolding reap_only
  reap_only_hit fuel arrivals s id v e = rw (e, reap_only) refl

  pub reap_only_miss :
      (fuel : ℕ) (arrivals : List (List (ExecutorResultItem V))) (s : Reaper V Q) (id : ℤ)
      → find s.completed_results id ≡ none
      → reap_only fuel arrivals s id ≡ erased id (cache_loop fuel arrivals s id)
  unfolding reap_only
  reap_only_miss fuel arrivals s id e = rw (e, reap_only) refl
