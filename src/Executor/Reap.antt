-- ===== src/Executor/Reap.antt =====
-- What a poll of the reaper does: `try_reap` and `ready`.
use instant_tensor.Base.{
  ℕ, zero, suc, ◌<◌, ◌≡◌, ◌≢◌, refl, sym, ap, ◌∙◌, Bool-cases, inl, inr, Option-cases, Bool, true,
  false, if◌then◌else◌, Option, none, some, List, [], ◌∷◌, ◌++◌, length, arith,
}
use instant_tensor.Base.Int.{ℤ}
use instant_tensor.Executor.{
  ExecutorResultItem, IsQueue, Reaper, cached, same_id, find, erase, emplace, take_cached_result,
  cache_until_ready, take_until_ready, ready, try_reap,
}
use instant_tensor.Executor.Results.{
  same_id-eq, find-append, find-erase, find-emplace, find_skip, emplace_miss, find_here, find_other,
  some_not_none, different,
}

module _ {V Q : Type 0} (queue : IsQueue (ExecutorResultItem V) Q) where
  -- The results that wait, the cached ones first.
  abbrev pub pending : Reaper V Q → List (ExecutorResultItem V)
  pending s = s.completed_results ++ queue.contents s.result_queue

  -- All results but that of `id` are found as before.
  abbrev pub Keeps : ℤ → Reaper V Q → Reaper V Q → Type 0
  Keeps id s s' = (j : ℤ) → j ≢ id → find (pending s') j ≡ find (pending s) j

  pending-cached :
      (s : Reaper V Q) (item : ExecutorResultItem V) (items : List (ExecutorResultItem V)) (q : Q)
      → queue.contents s.result_queue ≡ item ∷ items
      → queue.contents q ≡ items
      → (j : ℤ) → find (pending (cached s item q)) j ≡ find (pending s) j
  pending-cached s item items q e left j =
      ap (λ l. find (emplace s.completed_results item ++ l) j) left
      ∙ find-emplace s.completed_results items item j
      ∙ ap (λ l. find (s.completed_results ++ l) j) (sym e)

  pending_taken :
      (s : Reaper V Q) (item : ExecutorResultItem V) (items : List (ExecutorResultItem V)) (q : Q)
      → queue.contents s.result_queue ≡ item ∷ items
      → queue.contents q ≡ items
      → (id : ℤ) → same_id item.request_id id ≡ true
      → Keeps id s (record s { result_queue = q })
  pending_taken s item items q e left id here j h =
      ap (λ l. find (s.completed_results ++ l) j) left
      ∙ find_skip s.completed_results items item j
          (different item.request_id j (λ same. h (same ∙ same_id-eq item.request_id id here)))
      ∙ ap (λ l. find (s.completed_results ++ l) j) (sym e)

  -- The queue was emptied, and the result of `id` was not found.
  abbrev pub IsDry : ℤ → Reaper V Q → Type 0
  IsDry id s = (find s.completed_results id ≡ none) × (queue.contents s.result_queue ≡ [])

  pub take_cons :
      (fuel : ℕ) (s : Reaper V Q) (id : ℤ) (item : ExecutorResultItem V) (q : Q)
      → queue.try_pop s.result_queue ≡ some (item, q)
      → take_until_ready queue (suc fuel) s id ≡ (
          if same_id item.request_id id
          then some (some item.value, record s { result_queue = q })
          else take_until_ready queue fuel (cached s item q) id)
  unfolding take_until_ready
  take_cons fuel s id item q e = rw (e, take_until_ready)

  pub take_nil :
      (fuel : ℕ) (s : Reaper V Q) (id : ℤ)
      → queue.try_pop s.result_queue ≡ none
      → take_until_ready queue (suc fuel) s id ≡ some (none, s)
  unfolding take_until_ready
  take_nil fuel s id e = rw (e, take_until_ready)

  pub take_until_ready_lem :
      (items : List (ExecutorResultItem V)) (fuel : ℕ) (s : Reaper V Q) (id : ℤ)
      → queue.contents s.result_queue ≡ items
      → find s.completed_results id ≡ none
      → length items < fuel
      → (s' : Reaper V Q) × (take_until_ready queue fuel s id ≡ some (find items id, s'))
        × (Keeps id s s')
        × (find items id ≡ none → IsDry id s')
  take_until_ready_lem items zero s id e miss h = absurd (omega arith)
  take_until_ready_lem [] (suc fuel) s id e miss h = (
    s,
    take_nil fuel s id (queue.try_pop-empty s.result_queue e),
    λ j other. refl,
    λ none_found. (miss, e),
  )
  take_until_ready_lem (item ∷ items) (suc fuel) s id e miss h =
      let (q, popped, left) = queue.try_pop-cons s.result_queue item items e in
      elim (Bool-cases (same_id item.request_id id)) [
        | inl here ↦ (
          record s { result_queue = q },
          take_cons fuel s id item q popped ∙ rw here refl,
          pending_taken s item items q e left id here,
          λ none_found. absurd (some_not_none (sym (find_here items item id here) ∙ none_found)),
        )
        | inr other ↦
            let (s', f, keeps, stays) =
              take_until_ready_lem items fuel (cached s item q) id left
                (emplace_miss s.completed_results item id miss other) (omega arith) in
            (
              s',
              take_cons fuel s id item q popped ∙ rw other f,
              λ j h. keeps j h ∙ pending-cached s item items q e left j,
              λ none_found. stays (sym (find_other items item id other) ∙ none_found),
            )
      ]

  pub try_reap_miss :
      (fuel : ℕ) (s : Reaper V Q) (id : ℤ)
      → find s.completed_results id ≡ none
      → try_reap queue fuel s id ≡ take_until_ready queue fuel s id
  unfolding try_reap take_cached_result
  try_reap_miss fuel s id e = rw (e, try_reap, take_cached_result)

  pub take_cached_hit :
      (s : Reaper V Q) (id : ℤ) (v : V)
      → find s.completed_results id ≡ some v
      → take_cached_result queue s id
        ≡ (some v, record s { completed_results = erase s.completed_results id })
  unfolding take_cached_result
  take_cached_hit s id v e = rw (e, take_cached_result)

  pub try_reap_hit :
      (fuel : ℕ) (s : Reaper V Q) (id : ℤ) (v : V)
      → find s.completed_results id ≡ some v
      → try_reap queue fuel s id
        ≡ some (some v, record s { completed_results = erase s.completed_results id })
  unfolding try_reap
  try_reap_hit fuel s id v e =
      rw (take_cached_hit s id v e, try_reap)
        (ap (λ r. some (some v, r.1)) (take_cached_hit s id v e))

  pub ready_miss :
      (fuel : ℕ) (s : Reaper V Q) (id : ℤ)
      → find s.completed_results id ≡ none
      → ready queue fuel s id ≡ cache_until_ready queue fuel s id
  unfolding ready
  ready_miss fuel s id e = rw (e, ready)

  pub ready_hit :
      (fuel : ℕ) (s : Reaper V Q) (id : ℤ) (v : V)
      → find s.completed_results id ≡ some v
      → ready queue fuel s id ≡ some (true, s)
  unfolding ready
  ready_hit fuel s id v e = rw (e, ready)

  -- `try_reap` of an id, with fuel for the items that wait in the queue, ends with the first result
  -- that is pending under the id, or none where there is none, and every other id finds the result
  -- that it would have found before.
  pub try_reap_lem :
      (fuel : ℕ) (s : Reaper V Q) (id : ℤ)
      → length (queue.contents s.result_queue) < fuel
      → (s' : Reaper V Q) × (try_reap queue fuel s id ≡ some (find (pending s) id, s'))
        × (Keeps id s s')
  try_reap_lem fuel s id h = elim (Option-cases (find s.completed_results id)) [
    | inl miss ↦
        let (s', e, keeps, stays) =
          take_until_ready_lem (queue.contents s.result_queue) fuel s id refl miss h in
        (
          s',
          try_reap_miss fuel s id miss
              ∙ rw (find-append s.completed_results (queue.contents s.result_queue) id, miss) e,
          keeps,
        )
    | inr (v, hit) ↦ (
      record s { completed_results = erase s.completed_results id },
      try_reap_hit fuel s id v hit
          ∙ rw (find-append s.completed_results (queue.contents s.result_queue) id, hit) refl,
      λ j other. find-erase s.completed_results (queue.contents s.result_queue) id j other,
    )
  ]

  pub cache_cons :
      (fuel : ℕ) (s : Reaper V Q) (id : ℤ) (item : ExecutorResultItem V) (q : Q)
      → queue.try_pop s.result_queue ≡ some (item, q)
      → cache_until_ready queue (suc fuel) s id ≡ (
          if same_id item.request_id id
          then some (true, cached s item q)
          else cache_until_ready queue fuel (cached s item q) id)
  unfolding cache_until_ready
  cache_cons fuel s id item q e = rw (e, cache_until_ready)

  pub cache_nil :
      (fuel : ℕ) (s : Reaper V Q) (id : ℤ)
      → queue.try_pop s.result_queue ≡ none
      → cache_until_ready queue (suc fuel) s id ≡ some (false, s)
  unfolding cache_until_ready
  cache_nil fuel s id e = rw (e, cache_until_ready)

  -- Every id finds what it found before.
  abbrev pub KeepsAll : Reaper V Q → Reaper V Q → Type 0
  KeepsAll s s' = (j : ℤ) → find (pending s') j ≡ find (pending s) j

  abbrev pub is_some : Option V → Bool
  is_some none = false
  is_some (some v) = true

  pub cache_until_ready_lem :
      (items : List (ExecutorResultItem V)) (fuel : ℕ) (s : Reaper V Q) (id : ℤ)
      → queue.contents s.result_queue ≡ items
      → find s.completed_results id ≡ none
      → length items < fuel
      → (s' : Reaper V Q) × (cache_until_ready queue fuel s id ≡ some (is_some (find items id), s'))
        × (KeepsAll s s')
        × (find items id ≡ none → IsDry id s')
  cache_until_ready_lem items zero s id e miss h = absurd (omega arith)
  cache_until_ready_lem [] (suc fuel) s id e miss h = (
    s,
    cache_nil fuel s id (queue.try_pop-empty s.result_queue e),
    λ j. refl,
    λ none_found. (miss, e),
  )
  cache_until_ready_lem (item ∷ items) (suc fuel) s id e miss h =
      let (q, popped, left) = queue.try_pop-cons s.result_queue item items e in
      elim (Bool-cases (same_id item.request_id id)) [
        | inl here ↦ (
          cached s item q,
          cache_cons fuel s id item q popped ∙ rw here refl,
          pending-cached s item items q e left,
          λ none_found. absurd (some_not_none (sym (find_here items item id here) ∙ none_found)),
        )
        | inr other ↦
            let (s', f, keeps, dry) =
              cache_until_ready_lem items fuel (cached s item q) id left
                (emplace_miss s.completed_results item id miss other) (omega arith) in
            (
              s',
              cache_cons fuel s id item q popped ∙ rw other f,
              λ j. keeps j ∙ pending-cached s item items q e left j,
              λ none_found. dry (sym (find_other items item id other) ∙ none_found),
            )
      ]

  -- `ready` of an id, with fuel for the items that wait in the queue, ends with whether a result is
  -- pending under the id, and every id finds the result that it would have found before.
  pub ready_lem :
      (fuel : ℕ) (s : Reaper V Q) (id : ℤ)
      → length (queue.contents s.result_queue) < fuel
      → (s' : Reaper V Q) × (ready queue fuel s id ≡ some (is_some (find (pending s) id), s'))
        × (KeepsAll s s')
  ready_lem fuel s id h = elim (Option-cases (find s.completed_results id)) [
    | inl miss ↦
        let (s', e, keeps, dry) =
          cache_until_ready_lem (queue.contents s.result_queue) fuel s id refl miss h in
        (
          s',
          ready_miss fuel s id miss
              ∙ rw (find-append s.completed_results (queue.contents s.result_queue) id, miss) e,
          keeps,
        )
    | inr (v, hit) ↦ (
      s,
      ready_hit fuel s id v hit
          ∙ rw (find-append s.completed_results (queue.contents s.result_queue) id, hit) refl,
      λ j. refl,
    )
  ]
