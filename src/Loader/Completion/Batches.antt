-- ===== src/Loader/Completion/Batches.antt =====
-- The same loop in csrc/loader_io_aio.cpp, which takes completions in batches: `io_getevents` may give
-- fewer than it was asked for, or none.
use instant_tensor.Base.{
  ℕ, ◌≡◌, refl, sym, ap, ◌∙◌, inl, inr, true, ltb, ltb→le, Bool-cases, if◌then◌else◌, Option, none,
  some, List, [], ◌∷◌, ◌++◌, arith,
}
use instant_tensor.Loader.Completion.{
  Completed, Awaited, finished, waits, read_failed, count_down, occurs, AllSucceeded, IsCounted,
  count_down-IsCounted,
}

-- The inner loop: the counts after the completions of a batch, or `none` if one failed.
unfoldable pub count_batch : (ℕ → ℕ) → List Completed → Option (ℕ → ℕ)
count_batch counts [] = some counts
count_batch counts (e ∷ rest) =
    let more = count_batch (count_down counts e.chunk_id) rest in if e.succeeded then more else none

abbrev pub all_events : List (List Completed) → List Completed
all_events [] = []
all_events (batch ∷ rest) = batch ++ all_events rest

-- The outer loop, on the batches in the order in which they come.
unfoldable pub await_events : ℕ → (ℕ → ℕ) → List (List Completed) → Awaited
await_events chunk_id counts [] =
    if ltb 0 (counts chunk_id) then waits counts else finished counts []
await_events chunk_id counts (batch ∷ rest) =
    if ltb 0 (counts chunk_id)
    then elim (count_batch counts batch) [
      | none ↦ read_failed chunk_id
      | some counts' ↦ await_events chunk_id counts' rest
    ]
    else finished counts (all_events (batch ∷ rest))

count_batch_lem :
    (counts : ℕ → ℕ) (batch later : List Completed)
    → AllSucceeded (batch ++ later)
    → IsCounted counts (batch ++ later)
    → (counts' : ℕ → ℕ) × (count_batch counts batch ≡ some counts')
      × AllSucceeded later
      × IsCounted counts' later
unfolding count_batch
count_batch_lem counts [] later all counted = (counts, refl, all, counted)
count_batch_lem counts (e ∷ rest) later (good, all) counted =
    let (counts', done, all', counted') =
      count_batch_lem (count_down counts e.chunk_id) rest later all
        (count_down-IsCounted counts e (rest ++ later) counted) in
    (
      counts',
      ap (λ b. if b then count_batch (count_down counts e.chunk_id) rest else none) good ∙ done,
      all',
      counted',
    )

await_events_more :
    (chunk_id : ℕ) (counts counts' : ℕ → ℕ) (batch : List Completed) (rest : List (List Completed))
    → ltb 0 (counts chunk_id) ≡ true
    → count_batch counts batch ≡ some counts'
    → await_events chunk_id counts (batch ∷ rest) ≡ await_events chunk_id counts' rest
unfolding await_events
await_events_more chunk_id counts counts' batch rest more e = rw (more, e) refl

-- When every chunk counts the reads that are still to complete for it, and all of them succeed, the
-- loop for a chunk ends, however the completions are ordered and cut into batches, with none left for
-- that chunk, and every other chunk still counts its own.
pub await_events_lem :
    (chunk_id : ℕ) (counts : ℕ → ℕ) (batches : List (List Completed))
    → AllSucceeded (all_events batches)
    → IsCounted counts (all_events batches)
    → (counts' : ℕ → ℕ) × (rest : List Completed) × (await_events chunk_id counts batches
        ≡ finished counts' rest)
      × (counts' chunk_id ≡ 0)
      × (occurs chunk_id rest ≡ 0)
      × AllSucceeded rest
      × IsCounted counts' rest
unfolding await_events
await_events_lem chunk_id counts [] all counted =
    (counts, [], rw (counted chunk_id).0 refl, (counted chunk_id).0, refl, tt, counted)
await_events_lem chunk_id counts (batch ∷ rest) all counted =
    elim (Bool-cases (ltb 0 (counts chunk_id))) [
      | inl more ↦
          let (counts₁, done₁, all₁, counted₁) =
            count_batch_lem counts batch (all_events rest) all counted in
          let (counts', rest', done, zero_left, none_left, all', counted') =
            await_events_lem chunk_id counts₁ rest all₁ counted₁ in
          (
            counts',
            rest',
            await_events_more chunk_id counts counts₁ batch rest more done₁ ∙ done,
            zero_left,
            none_left,
            all',
            counted',
          )
      | inr enough ↦
          let nothing : counts chunk_id ≡ 0 = omega (arith, ltb→le _ _ enough) in
          (
            counts,
            all_events (batch ∷ rest),
            rw enough refl,
            nothing,
            sym (counted chunk_id).0 ∙ nothing,
            all,
            counted,
          )
    ]
