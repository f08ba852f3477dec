-- ===== src/Loader/Completion/Tests.antt =====
-- Two reads of chunk 0 and one of chunk 1, which completes between them.
use instant_tensor.Base.{ℕ, zero, suc, ◌≡◌, refl, true, List, [], ◌∷◌, arith}
use instant_tensor.Loader.Completion.Batches.{await_events, await_events_lem}
use instant_tensor.Loader.Completion.{
  Completed, await_reads, finished, occurs, AllSucceeded, IsCounted, await_reads_lem,
}

abbrev read_of : ℕ → Completed
read_of id = record { chunk_id = id; succeeded = true }

abbrev order : List Completed
order = read_of 0 ∷ read_of 1 ∷ read_of 0 ∷ []

abbrev counts : ℕ → ℕ
counts zero = 2
counts (suc zero) = 1
counts (suc (suc k)) = 0

counts-IsCounted : IsCounted counts order
counts-IsCounted zero = (refl, omega arith)
counts-IsCounted (suc zero) = (refl, omega arith)
counts-IsCounted (suc (suc k)) = (ground arith, omega arith)

await_reads_example :
    (counts' : ℕ → ℕ) × (rest : List Completed) × (await_reads 0 counts order
      ≡ finished counts' rest)
    × (counts' 0 ≡ 0)
    × (occurs 0 rest ≡ 0)
    × AllSucceeded rest
    × IsCounted counts' rest
await_reads_example = await_reads_lem 0 counts order (refl, (refl, (refl, tt))) counts-IsCounted

-- The same in two batches, with an interrupted call before them.
abbrev batches : List (List Completed)
batches = [] ∷ (read_of 0 ∷ read_of 1 ∷ []) ∷ (read_of 0 ∷ []) ∷ []

await_events_example :
    (counts' : ℕ → ℕ) × (rest : List Completed) × (await_events 0 counts batches
      ≡ finished counts' rest)
    × (counts' 0 ≡ 0)
    × (occurs 0 rest ≡ 0)
    × AllSucceeded rest
    × IsCounted counts' rest
await_events_example = await_events_lem 0 counts batches (refl, (refl, (refl, tt))) counts-IsCounted
